-- ===== src/Indexer/Derive/Laws.antt =====
-- The position deltas of a transfer conserve the units, but for what is minted or burnt.
use cpredict.Prelude.{
  ℕ, ◌+◌, ◌≡◌, List, [], ◌∷◌, ◌++◌, ok, ◌==◌, if◌then◌else◌, Bool, true, false, >>=-eq-ok,
  Bool-cases, inl, inr,
}
use cpredict.Prelude.Int.{ℤ, pos, ◌+ℤ◌, ◌-ℤ◌, int_laws}
use cpredict.Indexer.Derived.{DerivedMutation, position_delta}
use cpredict.Indexer.Derive.{position_mutations, delta_for}

-- The change of the units of one outcome over all owners.
abbrev delta_in : ℕ → DerivedMutation → ℤ
delta_in outcome (position_delta _ _ o delta) = if o == outcome then delta else pos 0
delta_in outcome _ = pos 0

abbrev pub net_delta : ℕ → List DerivedMutation → ℤ
net_delta outcome [] = pos 0
net_delta outcome (m ∷ ms) = delta_in outcome m +ℤ net_delta outcome ms

-- What a batch moves of one outcome.
abbrev pub moved : ℕ → List ℕ → List ℕ → ℕ
moved outcome (id ∷ ids) (value ∷ values) =
    (if id == outcome then value else 0) + moved outcome ids values
moved outcome _ _ = 0

abbrev pub unless_null : ℕ → ℕ → ℕ
unless_null owner n = if owner == 0 then 0 else n

net_delta-append :
    (outcome : ℕ) (ms ns : List DerivedMutation)
    → net_delta outcome (ms ++ ns) ≡ net_delta outcome ms +ℤ net_delta outcome ns
net_delta-append outcome [] ns = omega int_laws
net_delta-append outcome (m ∷ ms) ns = rw (net_delta-append outcome ms ns) (omega int_laws)

net_delta-delta_for :
    (outcome vault owner id : ℕ) (delta : ℤ)
    → net_delta outcome (delta_for vault owner id delta)
      ≡ (if owner == 0 then pos 0 else if id == outcome then delta else pos 0)
net_delta-delta_for outcome vault owner id delta = elim (Bool-cases (owner == 0)) [
  | inl e ↦ rw e
  | inr e ↦ rw e (omega int_laws)
]

nothing : (f t : Bool) → pos 0 ≡ pos (if t then 0 else 0) -ℤ pos (if f then 0 else 0)
nothing true true = omega int_laws
nothing true false = omega int_laws
nothing false true = omega int_laws
nothing false false = omega int_laws

balance :
    (f t i : Bool) (value rest : ℕ)
    → (if f then pos 0 else if i then pos 0 -ℤ pos value else pos 0)
        +ℤ ((if t then pos 0 else if i then pos value else pos 0)
            +ℤ (pos (if t then 0 else rest) -ℤ pos (if f then 0 else rest)))
      ≡ pos (if t then 0 else (if i then value else 0) + rest)
        -ℤ pos (if f then 0 else (if i then value else 0) + rest)
balance true true i value rest = omega int_laws
balance true false true value rest = omega int_laws
balance true false false value rest = omega int_laws
balance false true true value rest = omega int_laws
balance false true false value rest = omega int_laws
balance false false true value rest = omega int_laws
balance false false false value rest = omega int_laws

-- The deltas of one transfer change the units of each outcome by what is moved to an owner less what
-- is moved from one: nothing for a transfer between owners, and all of it for a mint or a burn,
-- whose other side is the null address.
pub net_delta-position_mutations :
    (outcome vault from to : ℕ) (ids values : List ℕ) {ms : List DerivedMutation}
    → position_mutations vault from to ids values ≡ ok ms
    → net_delta outcome ms
      ≡ pos (unless_null to (moved outcome ids values))
        -ℤ pos (unless_null from (moved outcome ids values))
unfolding position_mutations
net_delta-position_mutations outcome vault from to [] [] {ms} h =
    let e : [] ≡ ms = cc h in rw (← e) (nothing (from == 0) (to == 0))
net_delta-position_mutations outcome vault from to (id ∷ ids) (value ∷ values) {ms} h =
    let (rest, e, done) = >>=-eq-ok (position_mutations vault from to ids values) _ h in
    let out = delta_for vault from id (pos 0 -ℤ pos value) in
    let into = delta_for vault to id (pos value) in
    let same : out ++ (into ++ rest) ≡ ms = cc done in
    rw (← same) (
      rw (net_delta-append outcome out (into ++ rest)) (
        rw (net_delta-append outcome into rest) (
          rw (net_delta-delta_for outcome vault from id) (
            rw (net_delta-delta_for outcome vault to id) (
              rw (net_delta-position_mutations outcome vault from to ids values e) (
                balance (from == 0) (to == 0) (id == outcome) value (moved outcome ids values)))))))
net_delta-position_mutations outcome vault from to [] (value ∷ values) h = cc
net_delta-position_mutations outcome vault from to (id ∷ ids) [] h = cc

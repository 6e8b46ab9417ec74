-- ===== src/Ledger/Report/Complete.antt =====
-- A report that calls itself complete is one: nothing about it is guessed.
use cpredict.Prelude.{
  ℕ, ◌≡◌, refl, sym, subst, ap, ◌∙◌, Bool, true, false, Option, none, some, List, [], ◌∷◌, ◌++◌,
  String, arith, All, All-append, Bool-cases, if◌then◌else◌, inl, inr, ltb,
}
use Prim.Native.Nat.{Ordering}
use cpredict.Prelude.Int.{ℤ, pos, ◌+ℤ◌, ◌-ℤ◌, ◌≤ℤ◌, int_laws}
use cpredict.Ledger.Bonds.Locked.{covered_nonneg}
use cpredict.Ledger.Fact.{LedgerFact}
use cpredict.Ledger.Lot.{Lot, Disposal}
use cpredict.Ledger.State.{
  Query, Entry, State, Reason, at_market, add_reason, missing, record_entry, set_lot, included,
  push_entry, record_at, relevant, reason_or,
}
use cpredict.Ledger.Step.{run_sorted, start}
use cpredict.Ledger.Step.Keeps.{Keeps}
use cpredict.Ledger.Step.Induction.{KeepsTotals, run_sorted-kept}
use cpredict.Ledger.Step.Window.{
  Reportable, run_sorted-Reportable, run_sorted-Covered, entries-missing, entries-push_entry,
}
use cpredict.Ledger.Report.{
  LotView, selected_lots, lot_reasons, lot_views, net_from, or_zero_ℤ, is_empty, report,
  compute_pnl,
}

abbrev pub IsKnown : Entry → Type 0
IsKnown e = e.complete ≡ true

-- As long as no reason is given, the history is covered and every entry has its cost.
abbrev IsHonest : Query → State → Type 0
IsHonest q s = s.reasons ≡ [] → (q.coverage_complete ≡ true) × All IsKnown s.entries

append-ne-nil : (rs : List Reason) (r : Reason) → rs ++ r ∷ [] ≡ [] → ⊥
append-ne-nil [] r h = cc
append-ne-nil (x ∷ rs) r h = cc

if-ne-nil :
    (b : Bool) (xs ys : List Reason)
    → (xs ≡ [] → ⊥)
    → (ys ≡ [] → ⊥)
    → (if b then xs else ys) ≡ []
    → ⊥
if-ne-nil true xs ys hx hy = hx
if-ne-nil false xs ys hx hy = hy

add_reason-ne-nil : (r : Reason) (rs : List Reason) → add_reason r rs ≡ [] → ⊥
unfolding add_reason
add_reason-ne-nil r [] h = cc
add_reason-ne-nil r (x ∷ rs) h =
    if-ne-nil _ (x ∷ rs) ((x ∷ rs) ++ r ∷ []) (λ e. cc) (append-ne-nil (x ∷ rs) r) h

-- A write that only puts a reason in, if it does anything.
if-reasons :
    (b : Bool) (rs : List Reason) (s : State)
    → (rs ≡ [] → ⊥)
    → (if b then record s { reasons = rs } else s).reasons ≡ []
    → (b ≡ false) × (s.reasons ≡ [])
if-reasons true rs s h e = absurd (h e)
if-reasons false rs s h e = (refl, e)

reasons-missing :
    (q : Query) (f : LedgerFact) (reason : String) (s : State)
    → (missing q f reason s).reasons ≡ []
    → (relevant q.markets f.market ≡ false) × (s.reasons ≡ [])
unfolding missing
reasons-missing q f reason s h =
    if-reasons _ _ s (add_reason-ne-nil (at_market reason f.market) s.reasons) h

missing-IsHonest :
    (q : Query) (f : LedgerFact) (reason : String) (s : State)
    → IsHonest q s
    → IsHonest q (missing q f reason s)
missing-IsHonest q f reason s h e =
    let (c, known) = h (reasons-missing q f reason s e).1 in
    (c, subst (All IsKnown) (sym (entries-missing q f reason s)) known)

-- An included fact is relevant, so an unknown cost leaves a reason.
branch-IsHonest :
    (q : Query) (f : LedgerFact) (reason : String) (b : Bool) (s : State)
    → relevant q.markets f.market ≡ true
    → IsHonest q s
    → (if b then s else missing q f reason s).reasons ≡ []
    → (q.coverage_complete ≡ true) × All IsKnown s.entries × (b ≡ true)
branch-IsHonest q f reason true s i h e = ((h e).0, (h e).1, refl)
branch-IsHonest q f reason false s i h e =
    let irrelevant = (reasons-missing q f reason s e).0 in cc (i, irrelevant)

push_entry-IsHonest :
    (q : Query) (f : LedgerFact) (m proceeds : ℕ) (d : Disposal) (outcome : Option ℕ) (s : State)
    → relevant q.markets f.market ≡ true
    → IsHonest q s
    → IsHonest q (push_entry q f m proceeds d outcome s)
push_entry-IsHonest q f m proceeds d outcome s i h e =
    let (c, known, done) =
      branch-IsHonest q f (reason_or d.reason "unknown_cost") d.complete s i h e in
    (
      c,
      subst (All IsKnown) (sym (entries-push_entry q f m proceeds d outcome s))
          (All-append IsKnown s.entries _ known (done, tt)),
    )

included-relevant :
    (q : Query) (f : LedgerFact) → included q f ≡ true → relevant q.markets f.market ≡ true
included-relevant q f h = ground arith

record_at-IsHonest :
    (q : Query) (f : LedgerFact) (market : Option ℕ) (proceeds : ℕ) (d : Disposal)
    (outcome : Option ℕ) (s : State)
    → IsHonest q s
    → IsHonest q (record_at q f market proceeds d outcome s)
record_at-IsHonest q f none proceeds d outcome s h = h
record_at-IsHonest q f (some m) proceeds d outcome s h = elim (Bool-cases (included q f)) [
  | inl i ↦ rw i (push_entry-IsHonest q f m proceeds d outcome s (included-relevant q f i) h)
  | inr x ↦ rw x h
]

IsHonest-Keeps : (q : Query) (f : LedgerFact) → Keeps q f (IsHonest q)
unfolding set_lot record_entry
IsHonest-Keeps q f = record {
  set_kept = λ m o lot s h. h;
  missing_kept = λ r s h. missing-IsHonest q f r s h;
  record_kept = λ p d o s h. record_at-IsHonest q f f.market p d o s h;
  resolve_kept = λ m w s h. h;
  lots_kept = λ ls s h. h;
}

IsHonest-KeepsTotals : (q : Query) → KeepsTotals (IsHonest q)
IsHonest-KeepsTotals q = record {
  lock_kept = λ m v s h. h;
  credit_kept = λ m v s h. h;
  timeout_kept = λ m v s h. h;
  claim_kept = λ v s h. h;
  income_kept = λ n s h. h;
  claimed_kept = λ n s h. h;
  payment_kept = λ n m s h. h;
  gas_kept = λ n s h. h;
  seen_kept = λ ids s h. h;
}

start-IsHonest : (q : Query) → IsHonest q (start q)
start-IsHonest q e = (ground arith, tt)

run_sorted-IsHonest :
    (keccak : String → String) (q : Query) (facts : List LedgerFact)
    → IsHonest q (run_sorted keccak q facts)
run_sorted-IsHonest keccak q facts =
    run_sorted-kept keccak q {P = IsHonest q} (IsHonest-Keeps q) (IsHonest-KeepsTotals q) facts
      (start-IsHonest q)

-- The lots that the report lists.
abbrev pub HasKnownCost : LotView → Type 0
HasKnownCost v = v.cost_complete ≡ true

if-nil :
    (b : Bool) (xs ys : List Reason)
    → (xs ≡ [] → ⊥)
    → (if b then xs else ys) ≡ []
    → (b ≡ false) × (ys ≡ [])
if-nil true xs ys hx h = absurd (hx h)
if-nil false xs ys hx h = (refl, h)

if-All {ℓ κ} :
    {A : Type ℓ} (P : A → Type κ) (b : Bool) (x : A) (xs : List A)
    → (b ≡ true → P x)
    → All P xs
    → All P (if b then x ∷ xs else xs)
if-All P true x xs h r = (h refl, r)
if-All P false x xs h r = r

lot_reasons-nil :
    (lots : List Lot) (rs : List Reason)
    → lot_reasons lots rs ≡ []
    → (rs ≡ []) × All HasKnownCost (lot_views lots)
unfolding lot_reasons lot_views
lot_reasons-nil [] rs h = (h, tt)
lot_reasons-nil (lot ∷ lots) rs h =
    let (e, rest) = lot_reasons-nil lots _ h in
    let (known, none_before) = if-nil _ _ rs (add_reason-ne-nil _ rs) e in
    (none_before, if-All HasKnownCost (ltb 0 lot.units) _ _ (λ held. ground arith) rest)

-- Proceeds less allocated cost, over all entries.
abbrev pub net : List Entry → ℤ
net [] = pos 0
net (e ∷ es) = (pos e.proceeds -ℤ pos e.allocated_cost) +ℤ net es

net_from-eq-net :
    (q : Query) (total : ℤ) (es : List Entry)
    → All (Reportable q) es
    → All IsKnown es
    → net_from total es ≡ total +ℤ net es
unfolding net_from
net_from-eq-net q total [] r k = omega int_laws
net_from-eq-net q total (e ∷ es) r k =
    net_from-eq-net q (total +ℤ or_zero_ℤ e.amount) es r.1 k.1
    ∙ ap (λ a. total +ℤ or_zero_ℤ a +ℤ net es) (r.0.known k.0)
    ∙ omega int_laws

is_empty-eq : (rs : List Reason) → is_empty rs ≡ true → rs ≡ []
is_empty-eq [] h = refl
is_empty-eq (x ∷ rs) h = cc

module _ (reason_order : Reason → Reason → Ordering) (keccak : String → String) where
  -- A report that is complete rests on a covered history, knows the cost of every entry and of every
  -- lot that it lists, and its realized net is the proceeds less the costs of all its entries.
  pub compute_pnl_complete :
      (q : Query) (facts : List LedgerFact)
      → (compute_pnl reason_order keccak q facts).complete ≡ true
      → let pnl = compute_pnl reason_order keccak q facts in
        (q.coverage_complete ≡ true)
        × All IsKnown pnl.entries
        × All HasKnownCost pnl.lots
        × (pnl.realized_net ≡ some (net pnl.entries))
  unfolding report compute_pnl
  compute_pnl_complete q facts h =
      let s = run_sorted keccak q facts in
      let lots = selected_lots q s.lots in
      let (no_reason, views) =
        lot_reasons-nil lots s.reasons (is_empty-eq (lot_reasons lots s.reasons) h) in
      let (covered, known) = run_sorted-IsHonest keccak q facts no_reason in
      let total =
        net_from-eq-net q (pos 0) s.entries (run_sorted-Reportable keccak q facts) known in
      (covered, known, views, rw h (ap some (total ∙ omega int_laws)))

  -- Every entry of a report lies in the window and the markets of the query, with proceeds less cost
  -- for its amount where the cost is known and none where it is not; and the amount of locked bonds
  -- is not negative, whatever the facts.
  pub compute_pnl_sound :
      (q : Query) (facts : List LedgerFact)
      → let pnl = compute_pnl reason_order keccak q facts in
        All (Reportable q) pnl.entries × (pos 0 ≤ℤ pnl.bond_locked)
  unfolding report compute_pnl
  compute_pnl_sound q facts = (
    run_sorted-Reportable keccak q facts,
    covered_nonneg (run_sorted keccak q facts).bonds (run_sorted-Covered keccak q facts),
  )

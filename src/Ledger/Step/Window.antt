-- ===== src/Ledger/Step/Window.antt =====
-- What a run of the loop keeps: every entry is of the reported window and markets, with the amount
-- that its parts give, and the locked bonds are never negative.
use cpredict.Prelude.{
  ℕ, ◌≡◌, refl, sym, subst, ◌∙◌, Bool, true, false, Option, none, some, List, [], ◌∷◌, ◌++◌, String,
  arith, All, All-append, Bool-cases, ap, if◌then◌else◌, inl, inr,
}
use cpredict.Prelude.Int.{pos, ◌-ℤ◌}
use cpredict.Ledger.Fact.{LedgerFact}
use cpredict.Ledger.Lot.{Disposal}
use cpredict.Ledger.Bonds.Locked.{
  Covered, lock_bond-Covered, credit_bond-Covered, fund_timeout-Covered, claim_bond-Covered,
  no_bonds-Covered,
}
use cpredict.Ledger.State.{
  Query, Entry, State, missing, record_entry, set_lot, included, push_entry, record_at, at_least,
  before, relevant, entry_of,
}
use cpredict.Ledger.Step.{run_sorted}
use cpredict.Ledger.Step.Keeps.{Keeps}
use cpredict.Ledger.Step.Induction.{KeepsTotals, run_sorted-kept}

-- An entry that belongs in the report of a query.
pub record Reportable (q : Query) (e : Entry) : Type 0 where
  pub from : at_least q.from e.timestamp ≡ true
  pub to : before q.to e.timestamp ≡ true
  pub market : relevant q.markets (some e.market) ≡ true
  pub known : e.complete ≡ true → e.amount ≡ some (pos e.proceeds -ℤ pos e.allocated_cost)
  pub unknown : e.complete ≡ false → e.amount ≡ none

pub entries-missing :
    (q : Query) (f : LedgerFact) (r : String) (s : State) → (missing q f r s).entries ≡ s.entries
unfolding missing
entries-missing q f r s = ground arith

bonds-missing :
    (q : Query) (f : LedgerFact) (r : String) (s : State) → (missing q f r s).bonds ≡ s.bonds
unfolding missing
bonds-missing q f r s = ground arith

-- A field that both branches leave alone.
field-if :
    {A : Type 0} (g : State → A) (b : Bool) (s t : State) {c : A}
    → g s ≡ c
    → g t ≡ c
    → g (if b then s else t) ≡ c
field-if g true s t h k = h
field-if g false s t h k = k

-- A field that `missing` leaves alone, `record` leaves alone, unless it is the entries.
pub field-record_at :
    {A : Type 0} (g : State → A) (q : Query) (f : LedgerFact)
    → ((r : String) (s : State) → g (missing q f r s) ≡ g s)
    → ((es : List Entry) (s : State) → g (record s { entries = es }) ≡ g s)
    → (m : Option ℕ) (proceeds : ℕ) (d : Disposal) (outcome : Option ℕ) (s : State)
    → g (record_at q f m proceeds d outcome s) ≡ g s
field-record_at g q f hm he none proceeds d outcome s = refl
field-record_at g q f hm he (some m) proceeds d outcome s =
    field-if g (included q f) _ _ (he _ _ ∙ field-if g d.complete _ _ refl (hm _ s)) refl

entry_of-Reportable :
    (q : Query) (f : LedgerFact) (m proceeds : ℕ) (d : Disposal) (outcome : Option ℕ)
    → f.market ≡ some m
    → included q f ≡ true
    → Reportable q (entry_of f m proceeds d outcome)
entry_of-Reportable q f m proceeds d outcome e i = record {
  from = ground arith;
  to = ground arith;
  market = ground arith;
  known = λ h. ground arith;
  unknown = λ h. ground arith;
}

pub entries-push_entry :
    (q : Query) (f : LedgerFact) (m proceeds : ℕ) (d : Disposal) (outcome : Option ℕ) (s : State)
    → (push_entry q f m proceeds d outcome s).entries
      ≡ s.entries ++ entry_of f m proceeds d outcome ∷ []
entries-push_entry q f m proceeds d outcome s =
    ap (λ es. es ++ entry_of f m proceeds d outcome ∷ [])
      (field-if (λ s'. s'.entries) d.complete _ _ refl (entries-missing q f _ s))

record_at-AllReportable :
    (q : Query) (f : LedgerFact) (market : Option ℕ) (proceeds : ℕ) (d : Disposal)
    (outcome : Option ℕ) (s : State)
    → f.market ≡ market
    → All (Reportable q) s.entries
    → All (Reportable q) (record_at q f market proceeds d outcome s).entries
record_at-AllReportable q f none proceeds d outcome s e h = h
record_at-AllReportable q f (some m) proceeds d outcome s e h = elim (Bool-cases (included q f)) [
  | inl i ↦ rw i (
      rw entries-push_entry (
        All-append (Reportable q) s.entries _ h
          (entry_of-Reportable q f m proceeds d outcome e i, tt)))
  | inr x ↦ rw x h
]

entries-Keeps : (q : Query) (f : LedgerFact) → Keeps q f (λ s. All (Reportable q) s.entries)
unfolding set_lot record_entry
entries-Keeps q f = record {
  set_kept = λ m o lot s h. h;
  missing_kept = λ r s h. subst (All (Reportable q)) (sym (entries-missing q f r s)) h;
  record_kept = λ p d o s h. record_at-AllReportable q f f.market p d o s refl h;
  resolve_kept = λ m w s h. h;
  lots_kept = λ ls s h. h;
}

entries-KeepsTotals : (q : Query) → KeepsTotals (λ s. All (Reportable q) s.entries)
entries-KeepsTotals q = record {
  lock_kept = λ m v s h. h;
  credit_kept = λ m v s h. h;
  timeout_kept = λ m v s h. h;
  claim_kept = λ v s h. h;
  income_kept = λ n s h. h;
  claimed_kept = λ n s h. h;
  payment_kept = λ n m s h. h;
  gas_kept = λ n s h. h;
  seen_kept = λ ids s h. h;
}

-- Every entry of a run lies in the window and the markets of the query, and its amount is proceeds
-- less cost where the cost is known, and absent where it is not.
pub run_sorted-Reportable :
    (keccak : String → String) (q : Query) (facts : List LedgerFact)
    → All (Reportable q) (run_sorted keccak q facts).entries
run_sorted-Reportable keccak q facts =
    run_sorted-kept keccak q {P = λ s. All (Reportable q) s.entries} (entries-Keeps q)
      (entries-KeepsTotals q) facts tt

bonds-Keeps : (q : Query) (f : LedgerFact) → Keeps q f (λ s. Covered s.bonds)
unfolding set_lot record_entry
bonds-Keeps q f = record {
  set_kept = λ m o lot s h. h;
  missing_kept = λ r s h. subst Covered (sym (bonds-missing q f r s)) h;
  record_kept = λ p d o s h.
      subst Covered
        (sym (
          field-record_at (λ s'. s'.bonds) q f (bonds-missing q f) (λ es s'. refl) f.market p d o
            s))
        h;
  resolve_kept = λ m w s h. h;
  lots_kept = λ ls s h. h;
}

bonds-KeepsTotals : KeepsTotals (λ s. Covered s.bonds)
bonds-KeepsTotals = record {
  lock_kept = λ m v s h. lock_bond-Covered m v s.bonds h;
  credit_kept = λ m v s h. credit_bond-Covered m v s.bonds h;
  timeout_kept = λ m v s h. fund_timeout-Covered m v s.bonds h;
  claim_kept = λ v s h. claim_bond-Covered v s.bonds h;
  income_kept = λ n s h. h;
  claimed_kept = λ n s h. h;
  payment_kept = λ n m s h. h;
  gas_kept = λ n s h. h;
  seen_kept = λ ids s h. h;
}

-- The amount of locked bonds is at least what the bonds that are not settled add up to.
pub run_sorted-Covered :
    (keccak : String → String) (q : Query) (facts : List LedgerFact)
    → Covered (run_sorted keccak q facts).bonds
run_sorted-Covered keccak q facts =
    run_sorted-kept keccak q {P = λ s. Covered s.bonds} (bonds-Keeps q) bonds-KeepsTotals facts
      no_bonds-Covered

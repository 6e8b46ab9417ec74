-- ===== src/Ledger/Replay.antt =====
-- The report does not depend on the order in which the facts come in, nor on how often one does.
use Prim.Native.Nat.{Ordering}
use mathlib.Core.List.{Perm, Permᴰ}
use mathlib.Core.Logic.{∥∥₁_elim}
use text.Mathlib.TextEquality.{IsScalar-prop}
use cpredict.Prelude.{
  ◌≡◌, ◌≢◌, refl, sym, subst, ap, ◌∙◌, Bool, true, ◌||◌, List, [], ◌∷◌, String, arith, any, str_eq,
  Bool-cases, inl, inr,
}
use text.Mathlib.TextPositions.{eq_refl}
use cpredict.Prelude.Sort.{insert_by, sort_by, IsOrder, NoTies}
use cpredict.Prelude.Sort.Laws.{insert_before, insert_after, after-or-not, sort_by-perm}
use cpredict.Ledger.Fact.{LedgerFact, financial_order}
use cpredict.Ledger.Order.{financial_order_flip, financial_order_flip', financial_order_trans}
use cpredict.Ledger.State.{Query, State, Reason, missing, record_entry, set_lot, before}
use cpredict.Ledger.Step.{step, run, run_sorted, start}
use cpredict.Ledger.Step.Keeps.{Keeps, if-kept}
use cpredict.Ledger.Step.Induction.{KeepsTotals, process-kept}
use cpredict.Ledger.Step.Window.{field-record_at}
use cpredict.Ledger.Report.{Pnl, report, compute_pnl}

financial-IsOrder : IsOrder financial_order
financial-IsOrder = record {
  gt_flip = financial_order_flip;
  lt_flip = financial_order_flip';
  lt_trans = financial_order_trans;
}

-- A fact that was seen stays seen.
abbrev Seen : String → State → Type 0
Seen id s = any (str_eq id) s.seen ≡ true

seen-missing :
    (q : Query) (f : LedgerFact) (r : String) (s : State) → (missing q f r s).seen ≡ s.seen
unfolding missing
seen-missing q f r s = ground arith

Seen-Keeps : (id : String) (q : Query) (f : LedgerFact) → Keeps q f (Seen id)
unfolding set_lot record_entry
Seen-Keeps id q f = record {
  set_kept = λ m o lot s h. h;
  missing_kept = λ r s h. subst (λ l. any (str_eq id) l ≡ true) (sym (seen-missing q f r s)) h;
  record_kept = λ p d o s h.
      subst (λ l. any (str_eq id) l ≡ true)
        (sym (field-record_at (λ t. t.seen) q f (seen-missing q f) (λ es t. refl) f.market p d o s))
        h;
  resolve_kept = λ m w s h. h;
  lots_kept = λ ls s h. h;
}

or_true : (a b : Bool) → b ≡ true → (a || b) ≡ true
or_true a b h = ground arith

Seen-KeepsTotals : (id : String) → KeepsTotals (Seen id)
Seen-KeepsTotals id = record {
  lock_kept = λ m v s h. h;
  credit_kept = λ m v s h. h;
  timeout_kept = λ m v s h. h;
  claim_kept = λ v s h. h;
  income_kept = λ n s h. h;
  claimed_kept = λ n s h. h;
  payment_kept = λ n m s h. h;
  gas_kept = λ n s h. h;
  seen_kept = λ new s h. or_true (str_eq id new) (any (str_eq id) s.seen) h;
}

module _ (keccak : String → String) (q : Query) where
  Seen-step : (f : LedgerFact) (s : State) → Seen f.id (step keccak q f s)
  unfolding step
  Seen-step f s =
      let s' = record s { seen = f.id ∷ s.seen } in
      let first : Seen f.id s' = rw (eq_refl f.id) in
      elim (Bool-cases (any (str_eq f.id) s.seen)) [
        | inl h ↦ rw h h
        | inr n ↦ rw n (
            if-kept (Seen f.id) (before q.to f.timestamp)
              (process-kept keccak q (Seen-Keeps f.id q) (Seen-KeepsTotals f.id) f s' first) first)
      ]

  -- A second step for the same fact does nothing.
  step-Seen : (f : LedgerFact) (s : State) → Seen f.id s → step keccak q f s ≡ s
  unfolding step
  step-Seen f s h = rw h

  run_twice :
      (f : LedgerFact) (l : List LedgerFact) (s : State)
      → run keccak q (f ∷ f ∷ l) s ≡ run keccak q (f ∷ l) s
  unfolding run
  run_twice f l s = ap (run keccak q l) (step-Seen f (step keccak q f s) (Seen-step f s))

  same_place : (f : LedgerFact) → financial_order f f ≢ Ordering.gt
  unfolding financial_order
  same_place f h = ground arith

  twice_at_front :
      (f : LedgerFact) (l : List LedgerFact) (s : State)
      → insert_by financial_order f l ≡ f ∷ l
      → run keccak q (insert_by financial_order f (insert_by financial_order f l)) s
        ≡ run keccak q (insert_by financial_order f l) s
  twice_at_front f l s e =
      rw e (rw (insert_before financial_order f f l (same_place f)) (run_twice f l s))

  run_again :
      (f : LedgerFact) (l : List LedgerFact) (s : State)
      → run keccak q (insert_by financial_order f (insert_by financial_order f l)) s
        ≡ run keccak q (insert_by financial_order f l) s
  unfolding run insert_by
  run_again f [] s = twice_at_front f [] s refl
  run_again f (z ∷ l) s = elim (after-or-not (financial_order f z)) [
    | inl first ↦ twice_at_front f (z ∷ l) s (insert_before financial_order f z l first)
    | inr later ↦
        let e = insert_after financial_order f z l later in
        let e' = insert_after financial_order f z (insert_by financial_order f l) later in
        rw e (rw e' (run_again f l (step keccak q z s)))
  ]

Pnl-set : IsSet Pnl
Pnl-set = hlevel IsScalar-prop

module _ (reason_order : Reason → Reason → Ordering) (keccak : String → String) (q : Query) where
  same_report :
      {facts shuffled : List LedgerFact}
      → Permᴰ facts shuffled
      → NoTies financial_order facts
      → compute_pnl reason_order keccak q facts ≡ compute_pnl reason_order keccak q shuffled
  unfolding compute_pnl run_sorted
  same_report p t =
      ap (λ l. report reason_order q (run keccak q l (start q)))
        (sort_by-perm financial_order financial-IsOrder p t)

  same_report_again :
      (f : LedgerFact) {facts rest : List LedgerFact}
      → Permᴰ facts (f ∷ rest)
      → NoTies financial_order facts
      → compute_pnl reason_order keccak q (f ∷ facts) ≡ compute_pnl reason_order keccak q facts
  unfolding compute_pnl run_sorted sort_by
  same_report_again f {facts} {rest} p t =
      let e = sort_by-perm financial_order financial-IsOrder p t in
      ap (λ l. report reason_order q (run keccak q (insert_by financial_order f l) (start q))) e
      ∙ ap (report reason_order q) (run_again keccak q f (sort_by financial_order rest) (start q))
      ∙ sym (ap (λ l. report reason_order q (run keccak q l (start q))) e)

  -- Where facts at the same place of the chain are the same fact, the report is the same for every
  -- order in which they come in.
  pub compute_pnl-perm :
      (facts shuffled : List LedgerFact)
      → Perm facts shuffled
      → NoTies financial_order facts
      → compute_pnl reason_order keccak q facts ≡ compute_pnl reason_order keccak q shuffled
  compute_pnl-perm facts shuffled p t = ∥∥₁_elim p (Pnl-set _ _) (λ d. same_report d t)

  -- Where facts at the same place of the chain are the same fact, a fact that comes in again,
  -- wherever it stands among the others, changes nothing in the report.
  pub compute_pnl_again :
      (f : LedgerFact) (facts rest : List LedgerFact)
      → Perm facts (f ∷ rest)
      → NoTies financial_order facts
      → compute_pnl reason_order keccak q (f ∷ facts) ≡ compute_pnl reason_order keccak q facts
  compute_pnl_again f facts rest p t = ∥∥₁_elim p (Pnl-set _ _) (λ d. same_report_again f d t)

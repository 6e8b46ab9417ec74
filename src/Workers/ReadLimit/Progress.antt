-- ===== src/Workers/ReadLimit/Progress.antt =====
-- No caller is lost, and every waiting caller is started in turn.
use cpredict.Prelude.{
  ℕ, zero, suc, ◌+◌, ◌-◌, ◌<◌, ◌≡◌, refl, sym, ap, subst, ◌∙◌, Bool, true, false, List, [], ◌∷◌,
  ◌++◌, map, length, arith, ltb, ◌==◌, if◌then◌else◌,
}
use mathlib.Core.List.{append_assoc, append-nil}
use cpredict.Prelude.Sort.{sort_by, insert_by}
use cpredict.Workers.ReadLimit.{
  Waiter, ReadLimit, by_priority, start_caller, start_next, enter, leave, Step, leaves, Reach, here,
  next,
}

-- How often a caller stands among the started and the waiting ones.
abbrev pub count : ℕ → List ℕ → ℕ
count c [] = 0
count c (d ∷ rest) = (if d == c then 1 else 0) + count c rest

abbrev pub count_waiting : ℕ → List Waiter → ℕ
count_waiting c [] = 0
count_waiting c (w ∷ rest) = (if w.caller == c then 1 else 0) + count_waiting c rest

abbrev pub occurs : ℕ → ReadLimit → ℕ
occurs c s = count c s.started + count_waiting c s.waiting

count-append : (c : ℕ) (xs ys : List ℕ) → count c (xs ++ ys) ≡ count c xs + count c ys
count-append c [] ys = omega arith
count-append c (x ∷ xs) ys = omega (arith, count-append c xs ys)

count_waiting-append :
    (c : ℕ) (xs ys : List Waiter)
    → count_waiting c (xs ++ ys) ≡ count_waiting c xs + count_waiting c ys
count_waiting-append c [] ys = omega arith
count_waiting-append c (x ∷ xs) ys = omega (arith, count_waiting-append c xs ys)

count-insert_by :
    (c : ℕ) (w : Waiter) (ws : List Waiter)
    → count_waiting c (insert_by by_priority w ws) ≡ count_waiting c (w ∷ ws)
unfolding insert_by
count-insert_by c w [] = refl
count-insert_by c w (v ∷ ws) = ground (arith, count-insert_by c w ws)

count-sort_by :
    (c : ℕ) (ws : List Waiter) → count_waiting c (sort_by by_priority ws) ≡ count_waiting c ws
unfolding sort_by
count-sort_by c [] = refl
count-sort_by c (w ∷ ws) =
    omega (arith, count-insert_by c w (sort_by by_priority ws), count-sort_by c ws)

start_next-occurs :
    (c : ℕ) (ws : List Waiter) (s : ReadLimit)
    → s.waiting ≡ ws
    → (n : ℕ) → occurs c (start_next ws (record s { active = n })) ≡ occurs c s
start_next-occurs c [] s e n = refl
start_next-occurs c (w ∷ ws) s e n =
    omega (arith, count-append c s.started (w.caller ∷ []), ap (count_waiting c) e)

-- No caller is lost or started twice: one that comes is from then on once more started or waiting,
-- and the end of a read leaves as many of each caller.
pub occurs-enter-leave :
    (c : ℕ) (w : Waiter) (s : ReadLimit)
    → (occurs c (enter w s) ≡ occurs c s + (if w.caller == c then 1 else 0))
      × (occurs c (leave s) ≡ occurs c s)
unfolding enter leave
occurs-enter-leave c w s = (entered (ltb s.active s.limit), start_next-occurs c s.waiting s refl _)
  where
    entered :
        (b : Bool)
        → let t : ReadLimit =
            if b
            then start_caller w s
            else record s { waiting = sort_by by_priority (s.waiting ++ w ∷ []) } in
          occurs c t ≡ occurs c s + (if w.caller == c then 1 else 0)
    entered true = omega (arith, count-append c s.started (w.caller ∷ []))
    entered false =
        omega
          (arith, count-sort_by c (s.waiting ++ w ∷ []), count_waiting-append c s.waiting (w ∷ []))

abbrev pub leave_times : ℕ → ReadLimit → ReadLimit
leave_times zero s = s
leave_times (suc n) s = leave_times n (leave s)

Reach-first : {s t u : ReadLimit} → Step s t → Reach t u → Reach s u
Reach-first st here = next here st
Reach-first st (next r k) = next (Reach-first st r) k

-- What a run of as many ends as there are callers waiting leads to.
pub record IsDrained (s t : ReadLimit) : Type 0 where
  pub reached : Reach s t
  pub all_started : t.started ≡ s.started ++ map (λ w. w.caller) s.waiting
  pub none_waits : t.waiting ≡ []

drained :
    (ws : List Waiter) (s : ReadLimit)
    → s.waiting ≡ ws
    → 0 < s.active
    → IsDrained s (leave_times (length ws) s)
drained [] s e a = record {
  reached = here;
  all_started = sym (append-nil s.started) ∙ ap (λ v. s.started ++ map (λ w. w.caller) v) (sym e);
  none_waits = e;
}
drained (w ∷ ws) s e a =
    let t = start_caller w (record s { active = s.active - 1; waiting = ws }) in
    let same : t ≡ leave s =
      unfold leave in ap (λ v. start_next v (record s { active = s.active - 1 })) (sym e) in
    let rest = drained ws t refl (ground arith) in
    subst (λ u. IsDrained s (leave_times (length ws) u)) same
      (record {
        reached = Reach-first (subst (Step s) (sym same) (leaves s a)) rest.reached;
        all_started =
            rest.all_started
            ∙ (append_assoc s.started (w.caller ∷ []) (map (λ w. w.caller) ws)
                ∙ ap (λ v. s.started ++ map (λ w. w.caller) v) (sym e));
        none_waits = rest.none_waits;
      })

-- Waiting callers are served: while a read runs, as many ends of reads as there are callers waiting
-- are possible, and after them each of those callers was started, in their order, and nobody waits.
pub leave_times-IsDrained :
    (s : ReadLimit) → 0 < s.active → IsDrained s (leave_times (length s.waiting) s)
leave_times-IsDrained s a = drained s.waiting s refl a

-- ===== src/Workers/ReadLimit/Bounds.antt =====
-- The reads that run at once are at most the limit, and none waits while there is room.
use Prim.Native.Nat.{Ordering, compare}
use cpredict.Prelude.{
  ℕ, ◌-◌, ◌≤◌, ◌<◌, ◌≡◌, refl, sym, subst, Bool, true, false, none, some, List, [], ◌∷◌, ◌++◌,
  length, arith, All, All-imp, ltb, if◌then◌else◌,
}
use cpredict.Prelude.Sort.{sort_by, insert_by}
use cpredict.Workers.ReadLimit.{
  Waiter, ReadLimit, by_priority, new_limit, start_caller, start_next, enter, leave, Step, enters,
  leaves, Reach, here, next,
}

-- Nobody waits behind a caller of a higher number.
abbrev pub InOrder : List Waiter → Type 0
InOrder [] = Unit
InOrder (w ∷ rest) = All (λ v. w.priority ≤ v.priority) rest × InOrder rest

insert_by-All :
    (P : Waiter → Type 0) (w : Waiter) (ws : List Waiter)
    → P w
    → All P ws
    → All P (insert_by by_priority w ws)
unfolding insert_by
insert_by-All P w [] h hs = (h, tt)
insert_by-All P w (v ∷ ws) h (hv, hs) = go (by_priority w v) (insert_by-All P w ws h hs)
  where
    go :
        (o : Ordering)
        → All P (insert_by by_priority w ws)
        → All P (elim o [ Ordering.gt ↦ v ∷ insert_by by_priority w ws | _ ↦ w ∷ v ∷ ws ])
    go Ordering.gt r = (hv, r)
    go Ordering.lt r = (h, (hv, hs))
    go Ordering.eq r = (h, (hv, hs))

insert_by-InOrder :
    (w : Waiter) (ws : List Waiter) → InOrder ws → InOrder (insert_by by_priority w ws)
unfolding insert_by
insert_by-InOrder w [] h = (tt, tt)
insert_by-InOrder w (v ∷ ws) (hv, hs) = go (by_priority w v) refl (insert_by-InOrder w ws hs)
  where
    go :
        (o : Ordering)
        → compare w.priority v.priority ≡ o
        → InOrder (insert_by by_priority w ws)
        → InOrder (elim o [ Ordering.gt ↦ v ∷ insert_by by_priority w ws | _ ↦ w ∷ v ∷ ws ])
    go Ordering.gt e r = (insert_by-All (λ u. v.priority ≤ u.priority) w ws (ground arith) hv, r)
    go Ordering.lt e r =
        let first : w.priority ≤ v.priority = ground arith in
        ((first, All-imp _ _ ws (λ u k. omega arith) hv), (hv, hs))
    go Ordering.eq e r =
        let first : w.priority ≤ v.priority = ground arith in
        ((first, All-imp _ _ ws (λ u k. omega arith) hv), (hv, hs))

sort_by-InOrder : (ws : List Waiter) → InOrder (sort_by by_priority ws)
unfolding sort_by
sort_by-InOrder [] = tt
sort_by-InOrder (w ∷ ws) = insert_by-InOrder w (sort_by by_priority ws) (sort_by-InOrder ws)

-- The invariant: the running reads are at most the limit, which is positive; the limit is reached
-- while a caller waits; and the waiting callers stand in the order of their priorities.
pub record IsFair (s : ReadLimit) : Type 0 where
  pub positive : 1 ≤ s.limit
  pub bounded : s.active ≤ s.limit
  pub busy : 0 < length s.waiting → s.active ≡ s.limit
  pub ordered : InOrder s.waiting

new_limit-IsFair : (limit : ℕ) (s : ReadLimit) → new_limit limit ≡ some s → IsFair s
new_limit-IsFair limit s h = go (ltb limit 1) refl h
  where
    go :
        (b : Bool)
        → ltb limit 1 ≡ b
        → (if b
            then none
            else some (record { limit = limit; active = 0; waiting = []; started = [] }))
          ≡ some s
        → IsFair s
    go true e k = cc
    go false e k =
        let fresh : ReadLimit = record { limit = limit; active = 0; waiting = []; started = [] } in
        let same : fresh ≡ s = cc k in
        let positive : 1 ≤ limit = ground arith in
        subst IsFair same (record {
          positive = positive;
          bounded = ground arith;
          busy = λ k. ground arith;
          ordered = tt;
        })

enter-IsFair : (w : Waiter) (s : ReadLimit) → IsFair s → IsFair (enter w s)
unfolding enter
enter-IsFair w s h = go (ltb s.active s.limit) refl
  where
    go :
        (b : Bool)
        → ltb s.active s.limit ≡ b
        → IsFair (
            if b
            then start_caller w s
            else record s { waiting = sort_by by_priority (s.waiting ++ w ∷ []) })
    go true e = record {
      positive = h.positive;
      bounded = ground arith;
      busy = λ k. ground (arith, h.busy k);
      ordered = h.ordered;
    }
    go false e = record {
      positive = h.positive;
      bounded = h.bounded;
      busy = λ k. ground (arith, h.bounded);
      ordered = sort_by-InOrder (s.waiting ++ w ∷ []);
    }

start_next-IsFair :
    (ws : List Waiter) (s : ReadLimit)
    → s.waiting ≡ ws
    → 0 < s.active
    → IsFair s
    → IsFair (start_next ws (record s { active = s.active - 1 }))
start_next-IsFair [] s e a h = record {
  positive = h.positive;
  bounded = ground (arith, h.bounded);
  busy = subst (λ ws. 0 < length ws → s.active - 1 ≡ s.limit) (sym e) (λ k. ground arith);
  ordered = h.ordered;
}
start_next-IsFair (w ∷ ws) s e a h =
    let full : s.active ≡ s.limit = h.busy (subst (λ ws. 0 < length ws) (sym e) (ground arith)) in
    record {
      positive = h.positive;
      bounded = ground arith;
      busy = λ k. ground arith;
      ordered = (subst InOrder e h.ordered).1;
    }

Step-IsFair : {s t : ReadLimit} → Step s t → IsFair s → IsFair t
unfolding leave
Step-IsFair (enters w s) h = enter-IsFair w s h
Step-IsFair (leaves s running) h = start_next-IsFair s.waiting s refl running h

Reach-IsFair_from : {s t : ReadLimit} → IsFair s → Reach s t → IsFair t
Reach-IsFair_from h here = h
Reach-IsFair_from h (next r st) = Step-IsFair st (Reach-IsFair_from h r)

-- From a new limit, whatever callers come and whichever reads end: no more reads run at once than the
-- limit, the limit is reached whenever a caller waits, and the waiting callers stand in the order of
-- their priorities.
pub Reach-IsFair : (limit : ℕ) (s t : ReadLimit) → new_limit limit ≡ some s → Reach s t → IsFair t
Reach-IsFair limit s t made r = Reach-IsFair_from (new_limit-IsFair limit s made) r

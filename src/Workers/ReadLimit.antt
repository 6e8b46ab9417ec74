-- ===== src/Workers/ReadLimit.antt =====
-- `AutomaticReadLimit` of offchain/workers/src/automatic-read-limit.ts: how many reads run at once, and
-- which of the waiting ones is next. A caller is its number, and `started` lists the callers whose
-- promise was resolved, in their order.
pub mod Bounds
pub mod Progress
use Prim.Native.Nat.{compare, Ordering}
use cpredict.Prelude.{
  ℕ, Bool, ◌||◌, ◌+◌, ◌-◌, ◌<◌, ◌≡◌, Option, none, some, List, [], ◌∷◌, ◌++◌, ltb, if◌then◌else◌,
}
use cpredict.Prelude.Sort.{sort_by}

pub record Waiter : Type 0 where
  pub priority : ℕ
  pub caller : ℕ

pub record ReadLimit : Type 0 where
  pub limit : ℕ
  pub active : ℕ
  pub waiting : List Waiter
  pub started : List ℕ

-- The constructor, which throws on a limit below one.
abbrev pub new_limit : ℕ → Option ReadLimit
new_limit limit =
    if ltb limit 1
    then none
    else some (record { limit = limit; active = 0; waiting = []; started = [] })

abbrev pub by_priority : Waiter → Waiter → Ordering
by_priority a b = compare a.priority b.priority

abbrev pub start_caller : Waiter → ReadLimit → ReadLimit
start_caller w s = record s { active = s.active + 1; started = s.started ++ w.caller ∷ [] }

-- `run` up to the work.
unfoldable pub enter : Waiter → ReadLimit → ReadLimit
unfolding sort_by
enter w s =
    if ltb s.active s.limit
    then start_caller w s
    else record s { waiting = sort_by by_priority (s.waiting ++ w ∷ []) }

-- `this.waiting.shift()?.start()`
abbrev pub start_next : List Waiter → ReadLimit → ReadLimit
start_next [] s = s
start_next (w ∷ rest) s = start_caller w (record s { waiting = rest })

-- The `finally` of `run`, when the work of one caller is done.
unfoldable pub leave : ReadLimit → ReadLimit
leave s = start_next s.waiting (record s { active = s.active - 1 })

-- Callers come at any time, and any of the running reads may be the next one that is done.
pub data Step : ReadLimit → ReadLimit → Type 0 where
  enters : (w : Waiter) (s : ReadLimit) → Step s (enter w s)
  leaves : (s : ReadLimit) → 0 < s.active → Step s (leave s)

pub data Reach (s : ReadLimit) : ReadLimit → Type 0 where
  here : Reach s s
  next : {t u : ReadLimit} → Reach s t → Step t u → Reach s u

-- `claimPollDelay`: two seconds while something is pending, busy, unknown or failed.
unfoldable pub claim_poll_delay : Option ℕ → Option Bool → Bool → ℕ → ℕ
claim_poll_delay none _ failed idle = 2000
claim_poll_delay (some pending) none failed idle = 2000
claim_poll_delay (some pending) (some busy) failed idle =
    if failed || ltb 0 pending || busy then 2000 else idle

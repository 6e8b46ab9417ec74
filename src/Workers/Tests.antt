-- ===== src/Workers/Tests.antt =====
-- Runs of the workers, and their theorems at concrete inputs.
use cpredict.Prelude.{ℕ, ◌+◌, ◌<◌, ◌≡◌, refl, [], ◌∷◌, length, map, arith}
use cpredict.Workers.ReadLimit.{Waiter, ReadLimit, enter, leave, here, next, enters, leaves}
use cpredict.Workers.ReadLimit.Bounds.{IsFair, Reach-IsFair}
use cpredict.Workers.ReadLimit.Progress.{
  occurs, leave_times, IsDrained, occurs-enter-leave, leave_times-IsDrained,
}

abbrev waiter : ℕ → ℕ → Waiter
waiter priority caller = record { priority = priority; caller = caller }

abbrev one_read : ReadLimit
one_read = record { limit = 1; active = 0; waiting = []; started = [] }

-- Discovery reads have the number 1, and receipts 0.
busy_reads : ReadLimit
busy_reads = enter (waiter 0 12) (enter (waiter 1 11) (enter (waiter 1 10) one_read))

receipt_first : map (λ w. w.caller) busy_reads.waiting ≡ 12 ∷ 11 ∷ []
unfolding busy_reads enter
receipt_first = refl

Reach-IsFair_example : IsFair (leave busy_reads)
unfolding busy_reads enter
Reach-IsFair_example = Reach-IsFair 1 one_read (leave busy_reads) refl (
    next
      (next
        (next (next here (enters (waiter 1 10) one_read))
          (enters (waiter 1 11) (enter (waiter 1 10) one_read)))
        (enters (waiter 0 12) (enter (waiter 1 11) (enter (waiter 1 10) one_read))))
      (leaves busy_reads (omega arith)))

occurs-enter-leave_example :
    (occurs 13 (enter (waiter 1 13) busy_reads) ≡ occurs 13 busy_reads + 1)
    × (occurs 13 (leave busy_reads) ≡ occurs 13 busy_reads)
occurs-enter-leave_example = occurs-enter-leave 13 (waiter 1 13) busy_reads

busy_running : 0 < busy_reads.active
unfolding busy_reads enter
busy_running = omega arith

leave_times-IsDrained_example :
    IsDrained busy_reads (leave_times (length busy_reads.waiting) busy_reads)
leave_times-IsDrained_example = leave_times-IsDrained busy_reads busy_running

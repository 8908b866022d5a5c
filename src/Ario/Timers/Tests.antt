-- ===== src/Ario/Timers/Tests.antt =====
-- Timers that are set out of order, cancelled and popped.
use nexuslb.Prelude.{ℕ, ◌≡◌, List, [], ◌∷◌, ok}
use nexuslb.Ario.Timers.{TimerFd, pop_ready_timer_items}
use nexuslb.Ario.Timers.Links.{IsLinked}
use nexuslb.Ario.Timers.Ready.{
  TimerCall, enqueue, cancel, pop_items, calls, new_timer_fd, AllAfter, IsEarliest, calls-IsLinked,
}

abbrev five_timers : List TimerCall
five_timers =
    enqueue 0 50 100
    ∷ enqueue 1 30 101
    ∷ enqueue 2 40 102
    ∷ enqueue 3 10 103
    ∷ enqueue 4 20 104
    ∷ enqueue 1 99 105
    ∷ cancel 2
    ∷ pop_items 15
    ∷ cancel 0
    ∷ enqueue 0 25 106
    ∷ []

calls-IsLinked_example :
    (q : TimerFd) × (k : ℕ) × (q' : TimerFd) × (calls five_timers (new_timer_fd 5) ≡ ok q)
    × IsLinked q.heap q.timers
    × IsEarliest q
    × (pop_ready_timer_items 25 q ≡ ok (k, q'))
    × IsLinked q'.heap q'.timers
    × AllAfter 25 q'.heap
calls-IsLinked_example = calls-IsLinked 5 25 five_timers

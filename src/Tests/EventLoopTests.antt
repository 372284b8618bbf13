-- ===== src/Tests/EventLoopTests.antt =====
-- The event loop at inputs.
use eventhub.Prelude.{ℕ, ◌+◌, ◌≡◌, refl, true, false, ◌∷◌, [], arith, inl, inr}
use eventhub.EventLoop.{TimerCtx, EventLoop, World, process_timers, add_timer}
use eventhub.EventLoop.Wakeup.{
  IsScheduled, run_due, process_timers-run_due, process_timers-IsScheduled, add_timer-IsScheduled,
}

-- The clock shows 10, and each call adds the number of the callback to the state.
abbrev counting : World ℕ
counting = record { now = λ s. 10; fire = λ t s. (t, s + t.callback); work = λ j s. s + j }

abbrev due : TimerCtx
due = record { fire_time = 5; repeat_delay = 7; callback = 1; repeat = true }

abbrev later : TimerCtx
later = record { fire_time = 20; repeat_delay = 0; callback = 2; repeat = false }

abbrev two_timers : EventLoop
two_timers = record { timer_queue = due ∷ later ∷ []; job_queue = []; next_timer_fire_time = 5 }

two_timers-IsScheduled : IsScheduled two_timers
two_timers-IsScheduled = record {
  below = (omega arith, (omega arith, tt));
  attained = inr (inl refl);
  positive = (omega arith, (omega arith, tt));
}

process_timers-run_due_example :
    (process_timers counting two_timers 100).1 ≡ run_due counting 10 (due ∷ later ∷ []) 100
process_timers-run_due_example =
    process_timers-run_due counting two_timers 100 two_timers-IsScheduled

process_timers-IsScheduled_example : IsScheduled (process_timers counting two_timers 100).0
process_timers-IsScheduled_example =
    process_timers-IsScheduled counting (λ s. omega arith) two_timers 100 two_timers-IsScheduled

add_timer-IsScheduled_example : IsScheduled (add_timer counting two_timers 3 4 true 100)
add_timer-IsScheduled_example =
    add_timer-IsScheduled counting (λ s. omega arith) two_timers 3 4 true 100 two_timers-IsScheduled

-- ===== src/EventLoop.antt =====
-- The timer and job queues of a worker, include/EventLoop.hpp. Callbacks and jobs are numbers; what
-- they do to the rest of the program and to their `TimerCtx`, and what the clock then shows, are
-- parameters: `S` is the state of all else. A callback that adds a timer, or a job that adds a job,
-- would wait for a mutex that its caller holds, so neither queue changes under a loop over it.
pub mod Wakeup
use eventhub.Prelude.{
  ℕ, ◌+◌, ◌-◌, Bool, true, false, not, ◌||◌, List, [], ◌∷◌, ◌++◌, ◌==◌, if◌then◌else◌, ltb, leb,
  is_empty,
}

pub record TimerCtx : Type 0 where
  pub fire_time : ℕ
  pub repeat_delay : ℕ
  pub callback : ℕ
  pub repeat : Bool

pub record EventLoop : Type 0 where
  pub timer_queue : List TimerCtx
  pub job_queue : List ℕ
  pub next_timer_fire_time : ℕ

-- The rest of the program: `now` is `_now()`, and `fire` and `work` call a timer's or a job's
-- function.
pub record World (S : Type 0) : Type 0 where
  pub now : S → ℕ
  pub fire : TimerCtx → S → TimerCtx × S
  pub work : ℕ → S → S

unfoldable pub new_event_loop : EventLoop
new_event_loop = record { timer_queue = []; job_queue = []; next_timer_fire_time = 0 }

-- `_decreaseNextFiretimeIfLess`, on the value of `_next_timer_fire_time`; 0 means none.
unfoldable pub decrease_next : ℕ → ℕ → ℕ
decrease_next next fire_time = if next == 0 || ltb fire_time next then fire_time else next

module _ {S : Type 0} (world : World S) where
  open world use {now, fire, work}

  unfoldable pub run_jobs : List ℕ → S → S
  run_jobs [] s = s
  run_jobs (job ∷ jobs) s = run_jobs jobs (work job s)

  unfoldable pub process_jobs : EventLoop → S → EventLoop × S
  unfolding run_jobs
  process_jobs ev s =
      if is_empty ev.job_queue
      then (ev, s)
      else (record ev { job_queue = [] }, run_jobs ev.job_queue s)

  -- The loop of `processTimers` over the queue: the queue that is left, the next fire time and the
  -- state. `start` is the time at which the loop began.
  unfoldable pub run_timers : ℕ → List TimerCtx → ℕ → S → List TimerCtx × ℕ × S
  unfolding decrease_next
  run_timers start [] next s = ([], next, s)
  run_timers start (t ∷ ts) next s =
      let (t', s') = fire t s in
      let again = record t' { fire_time = now s' + t'.repeat_delay } in
      let repeated = run_timers start ts (decrease_next next again.fire_time) s' in
      let removed = run_timers start ts next s' in
      let waiting = run_timers start ts (decrease_next next t.fire_time) s in
      if leb t.fire_time start
      then if t'.repeat then (again ∷ repeated.0, repeated.1, repeated.2) else removed
      else (t ∷ waiting.0, waiting.1, waiting.2)

  unfoldable pub process_timers : EventLoop → S → EventLoop × S
  unfolding run_timers
  process_timers ev s =
      let (queue, next, s') = run_timers (now s) ev.timer_queue 0 s in
      if is_empty ev.timer_queue || ltb (now s) ev.next_timer_fire_time
      then (ev, s)
      else (record ev { timer_queue = queue; next_timer_fire_time = next }, s')

  unfoldable pub process : EventLoop → S → EventLoop × S
  unfolding process_jobs process_timers
  process ev s = let (ev', s') = process_jobs ev s in process_timers ev' s'

  -- `delay` is an `int64_t`; only one that is not negative is modelled, and no sum that overflows.
  -- Two callers multiply an option of the configuration by 1000, which is negative if the option is.
  unfoldable pub add_timer : EventLoop → ℕ → ℕ → Bool → S → EventLoop
  unfolding decrease_next
  add_timer ev delay callback repeat s =
      let fire_time = now s + delay in
      record ev {
        next_timer_fire_time = decrease_next ev.next_timer_fire_time fire_time;
        timer_queue =
            ev.timer_queue
            ++ record {
              fire_time = fire_time;
              repeat_delay = delay;
              callback = callback;
              repeat = repeat;
            }
              ∷ [];
      }

  -- `-` stops at 0, as the source does for a fire time that has passed.
  unfoldable pub get_next_timer_delay : EventLoop → S → ℕ
  get_next_timer_delay ev s =
      if not (is_empty ev.job_queue) then 0 else ev.next_timer_fire_time - now s

unfoldable pub add_job : EventLoop → ℕ → EventLoop
add_job ev job = record ev { job_queue = ev.job_queue ++ job ∷ [] }

unfoldable pub has_work : EventLoop → Bool
has_work ev = if not (is_empty ev.job_queue) then true else not (is_empty ev.timer_queue)

-- ===== src/Task/Balance/Run.antt =====
-- The task system under any sequence of operations, each called by the current task or an interrupt.
use chenlongos.Prelude.{ℕ, Bool, true, false, not, ◌&&◌, List, [], ◌∷◌, Option, none, some}
use chenlongos.Prelude.Int.{ℤ}
use chenlongos.Sched.{BaseScheduler}
use chenlongos.Task.State.{System, curr, can_preempt, new_task, put_task, WaitQueueId}
use chenlongos.Task.Alarms.{set_alarm_wakeup}
use chenlongos.Task.RunQueue.{
  Ended, terminated, switched, add_task, yield_current, preempt_resched, disable_preempt,
  enable_preempt, scheduler_timer_tick, set_current_priority, exit_current, sleep_until, gc_pass,
}
use chenlongos.Task.Timers.{check_events}
use chenlongos.Task.WaitQueue.{
  is_exited, Round, waits, done, wait_begin, wait_until_round, join_round, cancel_events,
  wait_timeout_begin, wait_timeout_end, wait_timeout_until_round, notify_one, notify_all,
  notify_task,
}

-- What happens to the system, with what the clock shows and the conditions give.
pub data Event : Type 0 where
  spawn : ℕ → Event
  timer_tick : Event
  alarms : List ℕ → Event
  yield_now : Event
  preempt : Event
  locks : Event
  unlocks : Bool → Event
  set_priority : ℤ → Event
  sleep : ℕ → ℕ → Event
  exit : ℤ → Event
  wait : WaitQueueId → Event
  wait_returns : WaitQueueId → Event
  wait_until : WaitQueueId → Bool → Event
  -- `wait_timeout` is `arms`, `wait` and `wait_timeout_returns` if an interrupt comes in between.
  arms : ℕ → Event
  wait_timeout : WaitQueueId → ℕ → Event
  wait_timeout_returns : WaitQueueId → Event
  wait_timeout_until : WaitQueueId → ℕ → ℕ → Bool → Event
  join : ℕ → Event
  notify_first : WaitQueueId → Bool → Event
  notify_every : WaitQueueId → Bool → Event
  notify_given : WaitQueueId → Bool → ℕ → Event
  collect : (ℕ → Bool) → Event

module _ {S : BaseScheduler} where
  abbrev pub goes_on : Option (System S) → Option (Ended S)
  goes_on none = none
  goes_on (some s) = some (switched s)

  abbrev pub round_ends : {A : Type 0} → Option (Round S A) → Option (Ended S)
  round_ends none = none
  round_ends (some (waits s)) = some (switched s)
  round_ends (some (done s r)) = some (switched s)

  -- A new task is made at an address that no task is at.
  unfoldable pub step : System S → Event → Option (Ended S)
  step s (spawn t) = goes_on (add_task (put_task s t (new_task false)) t)
  step s timer_tick = some (switched (scheduler_timer_tick s))
  step s (alarms clock) = some (switched (check_events s clock))
  step s yield_now = goes_on (yield_current s)
  step s preempt = goes_on (preempt_resched s)
  step s locks = some (switched (disable_preempt s))
  step s (unlocks resched) = goes_on (enable_preempt s resched)
  step s (set_priority p) = some (switched (set_current_priority s p).0)
  step s (sleep deadline now) = goes_on (sleep_until s deadline now)
  step s (exit code) = exit_current s code
  step s (wait q) = goes_on (wait_begin s q)
  step s (wait_returns q) = some (switched (cancel_events s q))
  step s (wait_until q condition) = round_ends (wait_until_round s q condition)
  step s (arms deadline) = some (switched (set_alarm_wakeup s deadline s.current))
  step s (wait_timeout q deadline) = goes_on (wait_timeout_begin s q deadline)
  step s (wait_timeout_returns q) = some (switched (wait_timeout_end s q).0)
  step s (wait_timeout_until q deadline now condition) =
      round_ends (wait_timeout_until_round s q deadline now condition)
  step s (join t) = round_ends (join_round s t)
  step s (notify_first q b) = some (switched (notify_one s q b).0)
  step s (notify_every q b) = some (switched (notify_all s q b))
  step s (notify_given q b t) = some (switched (notify_task s q b t).0)
  step s (collect last_holder) = some (switched (gc_pass s last_holder))

  -- What the callers see to: the idle task does not sleep, exit or wait, no task waits with preemption
  -- disabled, and a new task is made at the address of none that has not exited.
  unfoldable pub allowed : System S → Event → Bool
  allowed s (spawn t) = is_exited (s.task t).state
  allowed s timer_tick = true
  allowed s (alarms clock) = true
  allowed s yield_now = true
  allowed s preempt = true
  allowed s locks = true
  allowed s (unlocks resched) = true
  allowed s (set_priority p) = true
  allowed s (sleep deadline now) = not (curr s).is_idle
  allowed s (exit code) = not (curr s).is_idle
  allowed s (wait q) = not (curr s).is_idle && can_preempt (curr s) 1
  allowed s (wait_returns q) = true
  allowed s (wait_until q condition) = not (curr s).is_idle && can_preempt (curr s) 1
  allowed s (arms deadline) = true
  allowed s (wait_timeout q deadline) = not (curr s).is_idle && can_preempt (curr s) 1
  allowed s (wait_timeout_returns q) = true
  allowed s (wait_timeout_until q deadline now condition) =
      not (curr s).is_idle && can_preempt (curr s) 1
  allowed s (join t) = not (curr s).is_idle && can_preempt (curr s) 1
  allowed s (notify_first q b) = true
  allowed s (notify_every q b) = true
  allowed s (notify_given q b t) = true
  allowed s (collect last_holder) = true

  -- The operations one after another, until the init task exits.
  abbrev pub then_run : (System S → Option (Ended S)) → Option (Ended S) → Option (Ended S)
  then_run rest none = none
  then_run rest (some (terminated s)) = some (terminated s)
  then_run rest (some (switched s)) = rest s

  unfoldable pub run : System S → List Event → Option (Ended S)
  run s [] = some (switched s)
  run s (e ∷ es) = then_run (λ s'. run s' es) (step s e)

  abbrev pub then_allowed : (System S → Bool) → Option (Ended S) → Bool
  then_allowed rest none = true
  then_allowed rest (some (terminated s)) = true
  then_allowed rest (some (switched s)) = rest s

  unfoldable pub all_allowed : System S → List Event → Bool
  all_allowed s [] = true
  all_allowed s (e ∷ es) = allowed s e && then_allowed (λ s'. all_allowed s' es) (step s e)

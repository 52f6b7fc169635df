-- ===== src/Task/Timers.antt =====
-- The timer interrupt, modules/axtask/src/timers.rs: `check_events` and the callback of an event.
use chenlongos.Prelude.{ℕ, true, false, Option, none, some, List, [], ◌∷◌}
use chenlongos.Sched.{BaseScheduler}
use chenlongos.TimerList.{TimerList, expire_one}
use chenlongos.Task.State.{System, set_in_timer_list}
use chenlongos.Task.RunQueue.{unblock_task}

module _ {S : BaseScheduler} where
  -- `TaskWakeupEvent::callback`
  unfoldable pub callback : System S → ℕ → System S
  callback s t = unblock_task (set_in_timer_list s t false) t true

  abbrev pub then_check : (System S → System S) → System S → TimerList ℕ × Option (ℕ × ℕ) → System S
  then_check rest s (l, none) = record s { timer_list = l }
  then_check rest s (l, some (deadline, t)) = rest (callback (record s { timer_list = l }) t)

  -- The loop of `check_events`; the list holds what the clock shows in each round.
  unfoldable pub check_events : System S → List ℕ → System S
  check_events s [] = s
  check_events s (now ∷ clock) =
      then_check (λ s'. check_events s' clock) s (expire_one s.timer_list now)

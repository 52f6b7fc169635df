-- ===== src/Task/Alarms.antt =====
-- The list of timers of the task system, modules/axtask/src/timers.rs: `set_alarm_wakeup` and
-- `cancel_alarm`.
use chenlongos.Prelude.{ℕ, true, false, ◌==◌}
use chenlongos.Sched.{BaseScheduler}
use chenlongos.TimerList.{set, cancel}
use chenlongos.Task.State.{System, set_in_timer_list}

module _ {S : BaseScheduler} where
  unfoldable pub set_alarm_wakeup : System S → ℕ → ℕ → System S
  set_alarm_wakeup s deadline t =
      let s' = set_in_timer_list s t true in record s' { timer_list = set s.timer_list deadline t }

  unfoldable pub cancel_alarm : System S → ℕ → System S
  cancel_alarm s t =
      let s' = set_in_timer_list s t false in
      record s' { timer_list = cancel s.timer_list (λ u. u == t) }

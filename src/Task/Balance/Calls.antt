-- ===== src/Task/Balance/Calls.antt =====
-- The invariant over the calls that may switch, of modules/axtask/src/run_queue.rs.
use chenlongos.Prelude.{
  ℕ, ◌≡◌, refl, inl, inr, Bool, true, false, not, ◌&&◌, if◌then◌else◌, arith, ==_iff, Bool-cases,
  ℕ_discrete, List, [], Option, none, some, ltb,
}
use chenlongos.Prelude.Int.{ℤ}
use chenlongos.Sched.{BaseScheduler, SchedulerLaws}
use chenlongos.Task.State.{
  System, TaskState, blocked, exited, is_running, is_ready, curr, set_preempt_pending, set_state,
  set_exit_code, WaitQueueId, exit_of, for_exit, can_preempt,
}
use chenlongos.Task.Alarms.{set_alarm_wakeup}
use chenlongos.Task.RunQueue.{
  Ended, terminated, switched, resched, yield_current, preempt_resched, block_current, push_waiter,
  leave, exit_current, sleep_until,
}
use chenlongos.Task.Balance.{Inv, Paused, Same, Paused-Same, Inv-Same, Same-put_task, Same-trans}
use chenlongos.Task.Balance.Switch.{resched-Inv, resched_stopped}
use chenlongos.Task.Balance.Wake.{
  woken-Paused, Same-queue, notify_one_locked-keeps, notify_all_locked-keeps,
}

module _ {S : BaseScheduler} where
  -- An operation whose assertions hold ends in order.
  abbrev pub Kept : Option (System S) → Type 0
  Kept none = Unit {0}
  Kept (some s) = Inv s

  Kept-if : (b : Bool) (s : System S) → (b ≡ true → Inv s) → Kept (if b then some s else none)
  Kept-if true s h = h refl
  Kept-if false s h = tt

  abbrev pub KeptEnd : Option (Ended S) → Type 0
  KeptEnd none = Unit {0}
  KeptEnd (some (terminated s)) = Unit {0}
  KeptEnd (some (switched s)) = Inv s

  KeptEnd-if :
      (b : Bool) (r : Ended S)
      → (b ≡ true → KeptEnd (some r))
      → KeptEnd (if b then some r else none)
  KeptEnd-if true r h = h refl
  KeptEnd-if false r h = tt

module _ {S : BaseScheduler} (L : SchedulerLaws S) where
  -- `yield_current`
  pub yield_current-Kept : (s : System S) → Inv s → Kept (yield_current s)
  unfolding yield_current
  yield_current-Kept s v = Kept-if (is_running (curr s).state) _ (λ e. resched-Inv L s false v)

  pub preempt_resched-Kept : (s : System S) → Inv s → Kept (preempt_resched s)
  unfolding preempt_resched
  preempt_resched-Kept s v =
      Kept-if (is_running (curr s).state) _ (λ e. either (can_preempt (curr s) 1))
    where
      either : (b : Bool) → Inv (if b then resched s true else set_preempt_pending s s.current true)
      either true = resched-Inv L s true v
      either false = Inv-Same (Same-put_task s s.current _ refl refl) v

  -- The current task leaves the running state for one that is not ready.
  stop-Paused :
      (s : System S) (st : TaskState)
      → Inv s
      → (curr s).is_idle ≡ false
      → is_running st ≡ false
      → is_ready st ≡ false
      → Paused (set_state s s.current st)
  stop-Paused s st v e r q = record {
    balanced = λ t. ground (arith, v.balanced t, v.running_now, ==_iff t s.current);
    stopped = λ t. elim (ℕ_discrete t s.current) [
      | yes same ↦ ground (arith, ==_iff t s.current)
      | no ne ↦ elim (Bool-cases (is_running (s.task t).state)) [
        | inl run ↦ absurd (ne (v.alone t run))
        | inr run ↦ ground (arith, ==_iff t s.current)
      ]
    ];
    idle = record {
      idle_is = ground (arith, v.idle.idle_is, ==_iff s.idle_task s.current);
      idle_only = λ t p. v.idle.idle_only t (ground (arith, ==_iff t s.current));
      idle_awake = ground (arith, v.idle.idle_awake, v.idle.idle_is, ==_iff s.idle_task s.current);
    };
  }

  push-Same : (s : System S) (q : WaitQueueId) (t : ℕ) → Same s (push_waiter s q t)
  push-Same s q t = Same-trans (Same-put_task s t _ refl refl) (Same-queue _ q _)

  pub block_current-Kept : (s : System S) (q : WaitQueueId) → Inv s → Kept (block_current s q)
  unfolding block_current
  block_current-Kept s q v =
      Kept-if (is_running (curr s).state && (not (curr s).is_idle && can_preempt (curr s) 1)) _
        (λ e. resched_stopped L _ false (
          Paused-Same (push-Same (set_state s s.current blocked) q s.current)
            (stop-Paused s blocked v (ground arith) refl refl)))

  pub alarm-Same : (s : System S) (deadline t : ℕ) → Same s (set_alarm_wakeup s deadline t)
  unfolding set_alarm_wakeup
  alarm-Same s deadline t = record {
    state = λ u. ground (arith, ==_iff u t);
    is_idle = λ u. ground (arith, ==_iff u t);
    waiting = refl;
    current = refl;
    idle_task = refl;
  }

  pub sleep_until-Kept :
      (s : System S) (deadline now : ℕ) → Inv s → Kept (sleep_until s deadline now)
  unfolding sleep_until set_alarm_wakeup
  sleep_until-Kept s deadline now v =
      Kept-if (is_running (curr s).state && not (curr s).is_idle) _
        (λ e. either (ltb now deadline) (ground arith))
    where
      either :
          (b : Bool)
          → (curr s).is_idle ≡ false
          → Inv (
              if b
              then resched
                  (set_state (set_alarm_wakeup s deadline s.current) s.current blocked)
                  false
              else s)
      either true e = resched_stopped L _ false (
          stop-Paused (set_alarm_wakeup s deadline s.current) blocked
            (Inv-Same (alarm-Same s deadline s.current) v)
            (ground (arith, ==_iff s.current s.current)) refl refl)
      either false e = v

  pub exited-Same : (s : System S) (ts : List ℕ) → Same s (record s { exited_tasks = ts })
  exited-Same s ts = record {
    state = λ u. refl;
    is_idle = λ u. refl;
    waiting = refl;
    current = refl;
    idle_task = refl;
  }

  pub leave-Paused :
      (s : System S) (code : ℤ) → Inv s → (curr s).is_idle ≡ false → Paused (leave s code)
  unfolding leave
  leave-Paused s code v e =
      let same = λ (s s' : System S) (h : Same s s') (p : Paused s). Paused-Same h p in
      let t = s.current in
      let marked : Paused (set_exit_code (set_state s t exited) t code) =
        Paused-Same (Same-put_task (set_state s t exited) t _ refl refl)
          (stop-Paused s exited v e refl refl) in
      notify_one_locked-keeps Paused same (woken-Paused L) _ for_exit false (
        Paused-Same (exited-Same _ _)
          (notify_all_locked-keeps Paused same (woken-Paused L) _ (exit_of t) false marked))

  pub exit_current-Kept : (s : System S) (code : ℤ) → Inv s → KeptEnd (exit_current s code)
  unfolding exit_current
  exit_current-Kept s code v =
      KeptEnd-if (is_running (curr s).state && not (curr s).is_idle) _ (λ e.
        either (curr s).is_init (resched_stopped L _ false (leave-Paused s code v (ground arith))))
    where
      either :
          (b : Bool)
          → Inv (resched (leave s code) false)
          → KeptEnd (
              some (
                if b
                then terminated (record s { exited_tasks = [] })
                else switched (resched (leave s code) false)))
      either true h = tt
      either false h = h

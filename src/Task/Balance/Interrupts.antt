-- ===== src/Task/Balance/Interrupts.antt =====
-- The timer tick, the expiry of alarms, the end of a wait and the notification of waiters, none of
-- which switches: the invariant after each.
use chenlongos.Prelude.{
  ℕ, ◌≡◌, refl, sym, inl, inr, Bool, true, false, if◌then◌else◌, Bool-cases, if-true, if-false,
  subst, List, [], ◌∷◌, Option, none, some,
}
use chenlongos.Prelude.Int.{ℤ}
use chenlongos.Sched.{BaseScheduler, SchedulerLaws}
use chenlongos.TimerList.{expire_one, TimerList}
use chenlongos.Task.State.{System, curr, set_in_wait_queue, set_queue, WaitQueueId}
use chenlongos.Task.Alarms.{cancel_alarm}
use chenlongos.Task.RunQueue.{
  disable_preempt, scheduler_timer_tick, unblock_task, set_current_priority,
}
use chenlongos.Task.Timers.{callback, then_check, check_events}
use chenlongos.Task.WaitQueue.{
  cancel_events, without, notify_if, notify_one, notify_all, notify_task, has,
}
use chenlongos.Task.Balance.{Inv, Same, Inv-Same, Same-put_task, Same-trans}
use chenlongos.Task.Balance.Wake.{
  woken-Inv, Same-queue, unblock_task-keeps, notify_one_locked-keeps, notify_all_locked-keeps,
}

module _ {S : BaseScheduler} where
  Same-refl : (s : System S) → Same s s
  Same-refl s = record {
    state = λ u. refl;
    is_idle = λ u. refl;
    waiting = refl;
    current = refl;
    idle_task = refl;
  }

  Same-timers : (s : System S) (l : TimerList ℕ) → Same s (record s { timer_list = l })
  Same-timers s l = record {
    state = λ u. refl;
    is_idle = λ u. refl;
    waiting = refl;
    current = refl;
    idle_task = refl;
  }

  Same-scheduler :
      (s : System S) (q : S.Queue)
      → S.waiting q ≡ S.waiting s.scheduler
      → Same s (record s { scheduler = q })
  Same-scheduler s q e = record {
    state = λ u. refl;
    is_idle = λ u. refl;
    waiting = e;
    current = refl;
    idle_task = refl;
  }

  Same-if : (s t u : System S) (b : Bool) → Same s t → Same s u → Same s (if b then t else u)
  Same-if s t u true p q = p
  Same-if s t u false p q = q

  pub disable_preempt-Same : (s : System S) → Same s (disable_preempt s)
  unfolding disable_preempt
  disable_preempt-Same s = Same-put_task s s.current _ refl refl

  -- What a wait leaves behind is taken away.
  pub cancel_events-Same : (s : System S) (q : WaitQueueId) → Same s (cancel_events s q)
  unfolding cancel_events cancel_alarm
  cancel_events-Same s q =
      let t = s.current in
      let unmarked : System S = set_queue s q (without t (s.wait_queue q)) in
      let first : Same s
          (if (curr s).in_wait_queue then set_in_wait_queue unmarked t false else s) =
        Same-if s _ s (curr s).in_wait_queue
          (Same-trans (Same-queue s q _) (Same-put_task unmarked t _ refl refl)) (Same-refl s) in
      Same-if s _ _ (curr s).in_timer_list
        (Same-trans first (Same-trans (Same-put_task _ t _ refl refl) (Same-timers _ _))) first

module _ {S : BaseScheduler} (L : SchedulerLaws S) where
  pub scheduler_timer_tick-Same : (s : System S) → Same s (scheduler_timer_tick s)
  unfolding scheduler_timer_tick
  scheduler_timer_tick-Same s =
      let ticked =
        Same-scheduler s (S.task_tick s.scheduler s.current).0
          (L.waiting-tick s.scheduler s.current) in
      Same-if s _ _ (curr s).is_idle (Same-refl s) (
        Same-if s _ _ (S.task_tick s.scheduler s.current).1
          (Same-trans ticked (Same-put_task _ s.current _ refl refl)) ticked)

  pub set_current_priority-Same : (s : System S) (p : ℤ) → Same s (set_current_priority s p).0
  unfolding set_current_priority
  set_current_priority-Same s p = Same-scheduler s _ (L.waiting-priority s.scheduler s.current p)

  unblock_task-Inv : (s : System S) (t : ℕ) (b : Bool) → Inv s → Inv (unblock_task s t b)
  unblock_task-Inv s t b v = unblock_task-keeps Inv (λ s s' e h. Inv-Same e h) (woken-Inv L) s t b v

  callback-Inv : (s : System S) (t : ℕ) → Inv s → Inv (callback s t)
  unfolding callback
  callback-Inv s t v = unblock_task-Inv _ t true (Inv-Same (Same-put_task s t _ refl refl) v)

  then_check-Inv :
      (rest : System S → System S) (s : System S)
      → ((s' : System S) → Inv s' → Inv (rest s'))
      → Inv s
      → (r : TimerList ℕ × Option (ℕ × ℕ)) → Inv (then_check rest s r)
  then_check-Inv rest s keeps v (l, none) = Inv-Same (Same-timers s l) v
  then_check-Inv rest s keeps v (l, some (deadline, t)) =
      keeps _ (callback-Inv _ t (Inv-Same (Same-timers s l) v))

  pub check_events-Inv : (s : System S) (clock : List ℕ) → Inv s → Inv (check_events s clock)
  unfolding check_events
  check_events-Inv s [] v = v
  check_events-Inv s (now ∷ clock) v =
      then_check-Inv (λ s'. check_events s' clock) s (λ s' w. check_events-Inv s' clock w) v
        (expire_one s.timer_list now)

  pub notify_one-Inv :
      (s : System S) (q : WaitQueueId) (b : Bool) → Inv s → Inv (notify_one s q b).0
  unfolding notify_one
  notify_one-Inv s q b v = elim (s.wait_queue q) as (λ ts. Inv (notify_if s q b ts).0) [
    | [] ↦ v
    | t ∷ ts ↦ notify_one_locked-keeps Inv (λ s s' e h. Inv-Same e h) (woken-Inv L) s q b v
  ]

  pub notify_all-Inv : (s : System S) (q : WaitQueueId) (b : Bool) → Inv s → Inv (notify_all s q b)
  unfolding notify_all
  notify_all-Inv s q b v =
      notify_all_locked-keeps Inv (λ s s' e h. Inv-Same e h) (woken-Inv L) s q b v

  pub notify_task-Inv :
      (s : System S) (q : WaitQueueId) (b : Bool) (t : ℕ) → Inv s → Inv (notify_task s q b t).0
  unfolding notify_task
  notify_task-Inv s q b t v = elim (Bool-cases (has t (s.wait_queue q))) [
    | inl e ↦
        subst (λ (r : System S × Bool). Inv r.0) (sym (if-true _ _ e))
          (unblock_task-Inv _ t b
            (Inv-Same (Same-trans (Same-put_task s t _ refl refl) (Same-queue _ q _)) v))
    | inr e ↦ subst (λ (r : System S × Bool). Inv r.0) (sym (if-false _ _ e)) v
  ]

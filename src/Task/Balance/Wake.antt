-- ===== src/Task/Balance/Wake.antt =====
-- The invariant over `unblock_task` and the notification of wait queues, also in the middle of a
-- switch.
use chenlongos.Prelude.{
  ℕ, zero, suc, ◌≡◌, refl, sym, ap, subst, ◌∙◌, inl, inr, Bool, true, false, ◌||◌, if◌then◌else◌,
  count, count-perm, arith, ==_iff, Bool-cases, if-true, if-false, List, [], ◌∷◌, length,
}
use chenlongos.Sched.{BaseScheduler, SchedulerLaws}
use chenlongos.Task.State.{
  System, TaskState, running, ready, blocked, exited, is_running, is_ready, is_blocked,
  set_preempt_pending, set_state, set_in_wait_queue, set_queue, WaitQueueId,
}
use chenlongos.Task.RunQueue.{
  unblock_task, notify_list, notify_one_locked, notify_rounds, notify_all_locked,
}
use chenlongos.Task.Balance.{ready_count, HasIdle, Inv, Paused, Same, Same-put_task, Same-trans}

state_of_blocked : (st : TaskState) → is_blocked st ≡ true → st ≡ blocked
state_of_blocked running e = cc
state_of_blocked ready e = cc
state_of_blocked blocked e = refl
state_of_blocked exited e = cc

module _ {S : BaseScheduler} where
  -- A blocked task made ready and added to the ready queue.
  abbrev pub woken : System S → ℕ → System S
  woken s t = record (set_state s t ready) { scheduler = S.add_task s.scheduler t }

  not-idle :
      (s : System S) (t : ℕ)
      → HasIdle s.task s.idle_task
      → is_blocked (s.task t).state ≡ true
      → (s.task t).is_idle ≡ false
  not-idle s t h b = elim (Bool-cases (s.task t).is_idle) [
    | inl e ↦
        let at : t ≡ s.idle_task = h.idle_only t e in
        let st : (s.task s.idle_task).state ≡ blocked =
          ap (λ u. (s.task u).state) (sym at) ∙ state_of_blocked (s.task t).state b in
        cc (sym h.idle_awake ∙ ap (λ x. is_running x || is_ready x) st)
    | inr e ↦ e
  ]

module _ {S : BaseScheduler} (L : SchedulerLaws S) where
  woken-balanced :
      (s : System S) (t : ℕ)
      → HasIdle s.task s.idle_task
      → ((u : ℕ) → count u (S.waiting s.scheduler) ≡ ready_count (s.task u))
      → is_blocked (s.task t).state ≡ true
      → (u : ℕ) → count u (S.waiting (woken s t).scheduler) ≡ ready_count ((woken s t).task u)
  woken-balanced s t h v b u =
      let st = state_of_blocked (s.task t).state b in
      ground (
        arith,
        v u,
        v t,
        st,
        not-idle s t h b,
        count-perm u (L.waiting-add s.scheduler t),
        ==_iff u t,
        ==_iff t u,
      )

  woken-idle :
      (s : System S) (t : ℕ) → HasIdle s.task s.idle_task → HasIdle (woken s t).task s.idle_task
  woken-idle s t h = record {
    idle_is = ground (arith, h.idle_is, ==_iff s.idle_task t);
    idle_only = λ u p. h.idle_only u (ground (arith, ==_iff u t));
    idle_awake = ground (arith, h.idle_awake, ==_iff s.idle_task t);
  }

  woken-running :
      (s : System S) (t u : ℕ)
      → is_blocked (s.task t).state ≡ true
      → is_running ((woken s t).task u).state ≡ is_running (s.task u).state
  woken-running s t u b = let st = state_of_blocked (s.task t).state b in ground (arith, ==_iff u t)

  pub woken-Inv :
      (s : System S) (t : ℕ) → is_blocked (s.task t).state ≡ true → Inv s → Inv (woken s t)
  woken-Inv s t b v = record {
    balanced = woken-balanced s t v.idle v.balanced b;
    running_now = woken-running s t s.current b ∙ v.running_now;
    alone = λ u p. v.alone u (sym (woken-running s t u b) ∙ p);
    idle = woken-idle s t v.idle;
  }

  pub woken-Paused :
      (s : System S) (t : ℕ) → is_blocked (s.task t).state ≡ true → Paused s → Paused (woken s t)
  woken-Paused s t b v = record {
    balanced = woken-balanced s t v.idle v.balanced b;
    stopped = λ u. woken-running s t u b ∙ v.stopped u;
    idle = woken-idle s t v.idle;
  }

-- The wait queues are nothing to the invariant.
pub Same-queue :
    {S : BaseScheduler} (s : System S) (q : WaitQueueId) (ts : List ℕ) → Same s (set_queue s q ts)
Same-queue s q ts = record {
  state = λ t. refl;
  is_idle = λ t. refl;
  waiting = refl;
  current = refl;
  idle_task = refl;
}

-- What holds of the state of the queues and tasks, and stays when a blocked task is woken, stays when
-- one or all waiters of a wait queue are notified.
module _ {S : BaseScheduler} (P : System S → Type 0)
    (same : (s s' : System S) → Same s s' → P s → P s')
    (wake : (s : System S) (t : ℕ) → is_blocked (s.task t).state ≡ true → P s → P (woken s t)) where
  pending-keeps :
      (s s' : System S) (b : Bool)
      → P s'
      → P (if b then set_preempt_pending s' s.current true else s')
  pending-keeps s s' true p = same _ _ (Same-put_task s' s.current _ refl refl) p
  pending-keeps s s' false p = p

  pub unblock_task-keeps : (s : System S) (t : ℕ) (b : Bool) → P s → P (unblock_task s t b)
  unfolding unblock_task
  unblock_task-keeps s t b p = elim (Bool-cases (is_blocked (s.task t).state)) [
    | inl e ↦ subst P (sym (if-true _ s e)) (pending-keeps s (woken s t) b (wake s t e p))
    | inr e ↦ subst P (sym (if-false _ s e)) p
  ]

  unmark-Same :
      (s : System S) (q : WaitQueueId) (t : ℕ) (ts : List ℕ)
      → Same s (set_in_wait_queue (set_queue s q ts) t false)
  unmark-Same s q t ts =
      Same-trans (Same-queue s q ts) (Same-put_task (set_queue s q ts) t _ refl refl)

  notify_list-keeps :
      (s : System S) (q : WaitQueueId) (ts : List ℕ) (b : Bool) → P s → P (notify_list s q ts b).0
  notify_list-keeps s q [] b p = p
  notify_list-keeps s q (t ∷ ts) b p = unblock_task-keeps _ t b (same _ _ (unmark-Same s q t ts) p)

  pub notify_one_locked-keeps :
      (s : System S) (q : WaitQueueId) (b : Bool) → P s → P (notify_one_locked s q b).0
  unfolding notify_one_locked
  notify_one_locked-keeps s q b p = notify_list-keeps s q (s.wait_queue q) b p

  notify_rounds-keeps :
      (n : ℕ) (s : System S) (q : WaitQueueId) (b : Bool) → P s → P (notify_rounds n s q b)
  unfolding notify_rounds
  notify_rounds-keeps zero s q b p = p
  notify_rounds-keeps (suc n) s q b p =
      notify_rounds-keeps n _ q b (notify_one_locked-keeps s q b p)

  pub notify_all_locked-keeps :
      (s : System S) (q : WaitQueueId) (b : Bool) → P s → P (notify_all_locked s q b)
  unfolding notify_all_locked
  notify_all_locked-keeps s q b p = notify_rounds-keeps (length (s.wait_queue q)) s q b p

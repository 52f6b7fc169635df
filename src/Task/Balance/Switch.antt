-- ===== src/Task/Balance/Switch.antt =====
-- The invariant over `resched` of modules/axtask/src/run_queue.rs.
use chenlongos.Prelude.{
  ℕ, ◌≡◌, ◌≢◌, refl, ap, ◌∙◌, inl, inr, Bool, true, false, count, count-perm, arith, ==_iff,
  Bool-cases, if-true, if-false, Option-cases, ℕ_discrete, [], ◌∷◌,
}
use chenlongos.Sched.{BaseScheduler, SchedulerLaws}
use chenlongos.Task.State.{System, TaskState, ready, is_running, curr, set_state}
use chenlongos.Task.RunQueue.{put_prev, pick_and_switch, switch_to, resched}
use chenlongos.Task.Balance.{ready_count, HasIdle, Inv, Paused}

module _ {S : BaseScheduler} (L : SchedulerLaws S) where
  stops :
      (s : System S) (st : TaskState)
      → Inv s
      → is_running st ≡ false
      → (t : ℕ) → is_running ((set_state s s.current st).task t).state ≡ false
  stops s st v h t = elim (ℕ_discrete t s.current) [
    | yes e ↦ ground (arith, ==_iff t s.current)
    | no ne ↦ elim (Bool-cases (is_running (s.task t).state)) [
      | inl r ↦ absurd (ne (v.alone t r))
      | inr r ↦ ground (arith, ==_iff t s.current)
    ]
  ]

  put_prev-idle :
      (s : System S) (preempt : Bool)
      → is_running (curr s).state ≡ true
      → (curr s).is_idle ≡ true
      → put_prev s preempt ≡ set_state s s.current ready
  unfolding put_prev
  put_prev-idle s preempt r e = if-true _ _ r ∙ if-true _ _ e

  put_prev-task :
      (s : System S) (preempt : Bool)
      → is_running (curr s).state ≡ true
      → (curr s).is_idle ≡ false
      → put_prev s preempt ≡ record (set_state s s.current ready) {
        scheduler = S.put_prev_task s.scheduler s.current preempt;
      }
  unfolding put_prev
  put_prev-task s preempt r e = if-true _ _ r ∙ if-false _ _ e

  put_prev-stopped :
      (s : System S) (preempt : Bool) → is_running (curr s).state ≡ false → put_prev s preempt ≡ s
  unfolding put_prev
  put_prev-stopped s preempt r = if-false _ _ r

  HasIdle-ready :
      (s : System S)
      → HasIdle s.task s.idle_task
      → HasIdle (set_state s s.current ready).task s.idle_task
  HasIdle-ready s idle = record {
    idle_is = ground (arith, idle.idle_is, ==_iff s.idle_task s.current);
    idle_only = λ t p. idle.idle_only t (ground (arith, ==_iff t s.current));
    idle_awake = ground (arith, idle.idle_awake, ==_iff s.idle_task s.current);
  }

  put_prev-Paused : (s : System S) (preempt : Bool) → Inv s → Paused (put_prev s preempt)
  put_prev-Paused s preempt v = elim (Bool-cases (curr s).is_idle) [
    | inl e ↦ rw (put_prev-idle s preempt v.running_now e) (record {
      balanced = λ t. ground (arith, v.balanced t, v.running_now, ==_iff t s.current);
      stopped = stops s ready v refl;
      idle = HasIdle-ready s v.idle;
    })
    | inr e ↦ rw (put_prev-task s preempt v.running_now e) (record {
      balanced = λ t. ground (
        arith,
        v.balanced t,
        v.running_now,
        ==_iff t s.current,
        count-perm t (L.waiting-put s.scheduler s.current preempt),
      );
      stopped = stops s ready v refl;
      idle = HasIdle-ready s v.idle;
    })
  ]

  switch_to-Inv :
      (s : System S) (next : ℕ)
      → ((t : ℕ) → is_running (s.task t).state ≡ false)
      → HasIdle s.task s.idle_task
      → ((t : ℕ) → t ≢ next → count t (S.waiting s.scheduler) ≡ ready_count (s.task t))
      → count next (S.waiting s.scheduler) ≡ 0
      → Inv (switch_to s next)
  unfolding switch_to
  switch_to-Inv s next stopped idle others none_left = record {
    balanced = λ t. elim (ℕ_discrete t next) [
      | yes e ↦ rw e (ground (arith, none_left, ==_iff next next))
      | no ne ↦ ground (arith, others t ne, ==_iff t next)
    ];
    running_now = ground (arith, ==_iff next next);
    alone = λ t p. elim (ℕ_discrete t next) [
      | yes e ↦ e
      | no ne ↦ absurd (ground (arith, stopped t, ==_iff t next))
    ];
    idle = record {
      idle_is = ground (arith, idle.idle_is, ==_iff s.idle_task next, ==_iff next next);
      idle_only = λ t p. idle.idle_only t (ground (arith, ==_iff t next, ==_iff next next));
      idle_awake = ground (arith, idle.idle_awake, ==_iff s.idle_task next, ==_iff next next);
    };
  }

  -- With nothing running, the next task is the one that the policy picks, or else the idle task.
  pick-Inv : (s : System S) → Paused s → Inv (pick_and_switch s (S.pick_next_task s.scheduler))
  pick-Inv s v = elim (Option-cases (S.pick_next_task s.scheduler)) [
    | inl e ↦
        let empty : S.waiting s.scheduler ≡ [] = L.pick-none s.scheduler e in
        rw e (switch_to-Inv s s.idle_task v.stopped v.idle (λ t ne. v.balanced t) (rw empty refl))
    | inr ((t, q), e) ↦
        let front : S.waiting s.scheduler ≡ t ∷ S.waiting q = L.pick-some s.scheduler t q e in
        rw e (
          switch_to-Inv (record s { scheduler = q }) t v.stopped v.idle
            (λ u ne. ground (arith, v.balanced u, ap (count u) front, ==_iff t u))
            (ground (arith, v.balanced t, ap (count t) front, ==_iff t t)))
  ]

  -- `resched` of a system in order, where the current task runs, keeps it in order.
  pub resched-Inv : (s : System S) (preempt : Bool) → Inv s → Inv (resched s preempt)
  unfolding resched
  resched-Inv s preempt v = pick-Inv (put_prev s preempt) (put_prev-Paused s preempt v)

  -- So does `resched` after the current task has blocked or exited.
  pub resched_stopped : (s : System S) (preempt : Bool) → Paused s → Inv (resched s preempt)
  unfolding resched
  resched_stopped s preempt v = rw (put_prev-stopped s preempt (v.stopped s.current)) (pick-Inv s v)

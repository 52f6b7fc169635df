-- ===== src/Task/Balance/Next.antt =====
-- The task that runs after the current one has blocked or exited.
use chenlongos.Prelude.{
  ℕ, ◌≡◌, refl, sym, ap, inl, inr, Bool, true, ◌==◌, if◌then◌else◌, count, arith, ==_iff, if-false,
  Option-cases, ◌∷◌, subst,
}
use chenlongos.Sched.{BaseScheduler, SchedulerLaws}
use chenlongos.Task.State.{System, running, is_ready, WaitQueueId}
use chenlongos.Task.RunQueue.{put_prev, pick_and_switch, switch_to, resched}
use chenlongos.Task.Balance.{Paused}

-- `s'` is `s` after a switch to a task that was ready, which no other task has noticed.
pub record Next {S : BaseScheduler} (s s' : System S) : Type 0 where
  pub next : ℕ
  pub was_ready : is_ready (s.task next).state ≡ true
  pub current : s'.current ≡ next
  pub states : (u : ℕ) → (s'.task u).state ≡ (if u == next then running else (s.task u).state)
  pub codes : (u : ℕ) → (s'.task u).exit_code ≡ (s.task u).exit_code
  pub queues : (p : WaitQueueId) → s'.wait_queue p ≡ s.wait_queue p
  pub gone : s'.exited_tasks ≡ s.exited_tasks

module _ {S : BaseScheduler} (L : SchedulerLaws S) where
  switch_to-Next :
      (s : System S) (q : S.Queue) (t : ℕ)
      → is_ready (s.task t).state ≡ true
      → Next s (switch_to (record s { scheduler = q }) t)
  unfolding switch_to
  switch_to-Next s q t h = record {
    next = t;
    was_ready = h;
    current = refl;
    states = λ u. ground (arith, ==_iff u t);
    codes = λ u. ground (arith, ==_iff u t);
    queues = λ p. refl;
    gone = refl;
  }

  picked-ready :
      (s : System S) (t : ℕ) (q : S.Queue)
      → Paused s
      → S.waiting s.scheduler ≡ t ∷ S.waiting q
      → is_ready (s.task t).state ≡ true
  picked-ready s t q v e = ground (arith, v.balanced t, ap (count t) e, ==_iff t t)

  pick-Next : (s : System S) → Paused s → Next s (pick_and_switch s (S.pick_next_task s.scheduler))
  pick-Next s v = elim (Option-cases (S.pick_next_task s.scheduler)) [
    | inl e ↦ rw e (
        switch_to-Next s s.scheduler s.idle_task
          (ground (arith, v.idle.idle_awake, v.stopped s.idle_task)))
    | inr ((t, q), e) ↦
        rw e (switch_to-Next s q t (picked-ready s t q v (L.pick-some s.scheduler t q e)))
  ]

  pub resched_stopped-Next : (s : System S) (preempt : Bool) → Paused s → Next s (resched s preempt)
  unfolding resched put_prev
  resched_stopped-Next s preempt v =
      subst (λ r. Next s (pick_and_switch r (S.pick_next_task r.scheduler)))
        (sym (if-false _ s (v.stopped s.current))) (pick-Next s v)

-- ===== src/Task/Waking.antt =====
-- Who is woken when wait queues are notified.
use chenlongos.Prelude.{
  ℕ, ◌≡◌, refl, sym, ap, ◌∙◌, subst, inl, inr, Bool, true, false, ◌&&◌, ◌==◌, if◌then◌else◌, arith,
  ==_iff, Bool-cases, if-true, if-false, List, [], ◌∷◌, ◌++◌, length,
}
use chenlongos.Sched.{BaseScheduler}
use chenlongos.Task.State.{
  System, ready, is_blocked, set_state, set_preempt_pending, set_in_wait_queue, set_queue,
  WaitQueueId, exit_of, for_exit, shared, same_queue,
}
use chenlongos.Task.RunQueue.{
  unblock_task, notify_list, notify_one_locked, notify_rounds, notify_all_locked,
}
use chenlongos.Task.WaitQueue.{has, notify_one, notify_if, notify_all}

-- `s'` is `s` after the tasks `ts` were woken, which were the first of the wait queue `q`: those that
-- were blocked are ready, none of them is marked as waiting, and `rest` still stands in
-- the queue. Exit codes and exited tasks stay.
pub record Woken {S : BaseScheduler} (s : System S) (q : WaitQueueId) (ts rest : List ℕ)
    (s' : System S) : Type 0 where
  pub states :
      (u : ℕ)
      → (s'.task u).state
        ≡ (if has u ts && is_blocked (s.task u).state then ready else (s.task u).state)
  pub unmarked :
      (u : ℕ) → (s'.task u).in_wait_queue ≡ (if has u ts then false else (s.task u).in_wait_queue)
  pub queues :
      (p : WaitQueueId) → s'.wait_queue p ≡ (if same_queue p q then rest else s.wait_queue p)
  pub codes : (u : ℕ) → (s'.task u).exit_code ≡ (s.task u).exit_code
  pub gone : s'.exited_tasks ≡ s.exited_tasks

same_queue_refl : (q : WaitQueueId) → same_queue q q ≡ true
same_queue_refl (exit_of a) = ground (arith, ==_iff a a)
same_queue_refl for_exit = refl
same_queue_refl (shared a) = ground (arith, ==_iff a a)

same_queue-eq : (p q : WaitQueueId) → same_queue p q ≡ true → p ≡ q
same_queue-eq (exit_of a) (exit_of b) e = ap exit_of ((==_iff a b).0 e)
same_queue-eq (exit_of a) for_exit e = cc
same_queue-eq (exit_of a) (shared b) e = cc
same_queue-eq for_exit (exit_of b) e = cc
same_queue-eq for_exit for_exit e = refl
same_queue-eq for_exit (shared b) e = cc
same_queue-eq (shared a) (exit_of b) e = cc
same_queue-eq (shared a) for_exit e = cc
same_queue-eq (shared a) (shared b) e = ap shared ((==_iff a b).0 e)

module _ {S : BaseScheduler} where
  empty-queue :
      (s : System S) (p q : WaitQueueId)
      → s.wait_queue q ≡ []
      → s.wait_queue p ≡ (if same_queue p q then [] else s.wait_queue p)
  empty-queue s p q e = elim (Bool-cases (same_queue p q)) [
    | inl same ↦
        ap s.wait_queue (same_queue-eq p q same) ∙ e ∙ sym (if-true [] (s.wait_queue p) same)
    | inr other ↦ sym (if-false [] (s.wait_queue p) other)
  ]

  -- What `unblock_task` does to the states; the marks and queues stay.
  record Unblocked (s : System S) (t : ℕ) (s' : System S) : Type 0 where
    states :
        (u : ℕ)
        → (s'.task u).state
          ≡ (if u == t && is_blocked (s.task t).state then ready else (s.task u).state)
    marks : (u : ℕ) → (s'.task u).in_wait_queue ≡ (s.task u).in_wait_queue
    queues : (p : WaitQueueId) → s'.wait_queue p ≡ s.wait_queue p
    codes : (u : ℕ) → (s'.task u).exit_code ≡ (s.task u).exit_code
    gone : s'.exited_tasks ≡ s.exited_tasks

  pending-Unblocked :
      (s s' : System S) (t : ℕ) (b : Bool)
      → Unblocked s t s'
      → Unblocked s t (if b then set_preempt_pending s' s.current true else s')
  pending-Unblocked s s' t true h = record {
    states = λ u. ground (arith, h.states u, ==_iff u s.current);
    marks = λ u. ground (arith, h.marks u, ==_iff u s.current);
    queues = h.queues;
    codes = λ u. ground (arith, h.codes u, ==_iff u s.current);
    gone = h.gone;
  }
  pending-Unblocked s s' t false h = h

  unblock_task-Unblocked : (s : System S) (t : ℕ) (b : Bool) → Unblocked s t (unblock_task s t b)
  unfolding unblock_task
  unblock_task-Unblocked s t b = elim (Bool-cases (is_blocked (s.task t).state)) [
    | inl e ↦ subst (Unblocked s t) (sym (if-true _ s e)) (
        pending-Unblocked s (record (set_state s t ready) { scheduler = S.add_task s.scheduler t })
          t b
          (record {
            states = λ u. ground (arith, ==_iff u t);
            marks = λ u. ground (arith, ==_iff u t);
            queues = λ p. refl;
            codes = λ u. ground (arith, ==_iff u t);
            gone = refl;
          }))
    | inr e ↦ subst (Unblocked s t) (sym (if-false _ s e)) (record {
      states = λ u. ground arith;
      marks = λ u. refl;
      queues = λ p. refl;
      codes = λ u. refl;
      gone = refl;
    })
  ]

  notify_one_locked-Woken :
      (s : System S) (q : WaitQueueId) (b : Bool) (t : ℕ) (ts : List ℕ)
      → s.wait_queue q ≡ t ∷ ts
      → Woken s q (t ∷ []) ts (notify_one_locked s q b).0
  unfolding notify_one_locked
  notify_one_locked-Woken s q b t ts e =
      let s1 = set_in_wait_queue (set_queue s q ts) t false in
      let h = unblock_task-Unblocked s1 t b in
      subst (λ l. Woken s q (t ∷ []) ts (notify_list s q l b).0) (sym e)
        (record {
          states = λ u. h.states u ∙ ground (arith, ==_iff u t, ==_iff t u, ==_iff t t);
          unmarked = λ u. h.marks u ∙ ground (arith, ==_iff u t, ==_iff t u);
          queues = h.queues;
          codes = λ u. h.codes u ∙ ground (arith, ==_iff u t);
          gone = h.gone;
        })

  nobody-Woken :
      (s : System S) (q : WaitQueueId) (b : Bool)
      → s.wait_queue q ≡ []
      → Woken s q [] [] (notify_one_locked s q b).0
  unfolding notify_one_locked
  nobody-Woken s q b e =
      subst (λ l. Woken s q [] [] (notify_list s q l b).0) (sym e)
        (record {
          states = λ u. refl;
          unmarked = λ u. refl;
          queues = λ p. empty-queue s p q e;
          codes = λ u. refl;
          gone = refl;
        })

  rounds-Woken :
      (ts : List ℕ) (s : System S) (q : WaitQueueId) (b : Bool)
      → s.wait_queue q ≡ ts
      → Woken s q ts [] (notify_rounds (length ts) s q b)
  unfolding notify_rounds
  rounds-Woken [] s q b e = record {
    states = λ u. refl;
    unmarked = λ u. refl;
    queues = λ p. empty-queue s p q e;
    codes = λ u. refl;
    gone = refl;
  }
  rounds-Woken (t ∷ ts) s q b e =
      let s1 = (notify_one_locked s q b).0 in
      let h = notify_one_locked-Woken s q b t ts e in
      let k = rounds-Woken ts s1 q b (h.queues q ∙ if-true ts _ (same_queue_refl q)) in
      record {
        states = λ u. k.states u ∙ ground (arith, h.states u, ==_iff t u);
        unmarked = λ u. k.unmarked u ∙ ground (arith, h.unmarked u, ==_iff t u);
        queues = λ p. k.queues p ∙ ground (arith, h.queues p);
        codes = λ u. k.codes u ∙ h.codes u;
        gone = k.gone ∙ h.gone;
      }

  -- `notify_one` wakes the task that has waited longest and takes it out of the wait queue; nothing
  -- else changes in the states of the tasks, their marks and the wait queues.
  pub notify_one-Woken :
      (s : System S) (q : WaitQueueId) (b : Bool) (t : ℕ) (ts : List ℕ)
      → s.wait_queue q ≡ t ∷ ts
      → Woken s q (t ∷ []) ts (notify_one s q b).0
  unfolding notify_one
  notify_one-Woken s q b t ts e =
      subst (λ l. Woken s q (t ∷ []) ts (notify_if s q b l).0) (sym e)
        (notify_one_locked-Woken s q b t ts e)

  -- `notify_all` empties the wait queue: every task that stood in it and was blocked is ready, none is
  -- marked as waiting any more, and the other tasks and wait queues are as before.
  pub notify_all-Woken :
      (s : System S) (q : WaitQueueId) (b : Bool) → Woken s q (s.wait_queue q) [] (notify_all s q b)
  unfolding notify_all notify_all_locked
  notify_all-Woken s q b = rounds-Woken (s.wait_queue q) s q b refl

  -- As `notify_one`, also if no task waits.
  pub notify_one_locked-Some :
      (s : System S) (q : WaitQueueId) (b : Bool)
      → (ts rest : List ℕ) × Woken s q ts rest (notify_one_locked s q b).0
        × (s.wait_queue q ≡ ts ++ rest)
  notify_one_locked-Some s q b = cases (s.wait_queue q) refl
    where
      cases :
          (l : List ℕ)
          → s.wait_queue q ≡ l
          → (ts rest : List ℕ) × Woken s q ts rest (notify_one_locked s q b).0
            × (s.wait_queue q ≡ ts ++ rest)
      cases [] e = ([], [], nobody-Woken s q b e, e)
      cases (t ∷ ts) e = (t ∷ [], ts, notify_one_locked-Woken s q b t ts e, e)

  pub notify_all_locked-Woken :
      (s : System S) (q : WaitQueueId) (b : Bool)
      → Woken s q (s.wait_queue q) [] (notify_all_locked s q b)
  unfolding notify_all_locked
  notify_all_locked-Woken s q b = rounds-Woken (s.wait_queue q) s q b refl

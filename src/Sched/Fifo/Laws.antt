-- ===== src/Sched/Fifo/Laws.antt =====
-- The first-in first-out policy as a scheduler.
use chenlongos.Prelude.{
  ℕ, ◌≡◌, refl, inl, inr, none, some, List, [], ◌∷◌, Perm, Option-cases, arith,
}
use chenlongos.Sched.{BaseScheduler, SchedulerLaws, perm_back}
use chenlongos.Sched.Fifo.{
  TaskLists, FifoScheduler, new, add_task, remove_task, pick_next_task, put_prev_task, task_tick,
  set_priority,
}

module _ (T : TaskLists) where
  abbrev pub waiting : FifoScheduler T → List ℕ
  waiting q = T.to_list q.ready_queue

  -- `impl BaseScheduler for FifoScheduler`
  abbrev pub fifo : BaseScheduler
  fifo = record {
    Queue = FifoScheduler T;
    waiting = waiting;
    new = new;
    add_task = add_task;
    remove_task = remove_task;
    pick_next_task = pick_next_task;
    put_prev_task = put_prev_task;
    task_tick = task_tick;
    set_priority = set_priority;
  }

module _ (T : TaskLists) where
  pick-some :
      (q : FifoScheduler T) (t : ℕ) (q' : FifoScheduler T)
      → pick_next_task q ≡ some (t, q')
      → waiting T q ≡ t ∷ waiting T q'
  unfolding pick_next_task
  pick-some q t q' e = elim (Option-cases (T.pop_front q.ready_queue)) [
    | inl n ↦ cc (rw (n, pick_next_task) at e)
    | inr (next, s) ↦ ground (arith, T.pop_front-some q.ready_queue next.0 next.1 s)
  ]

  pick-none : (q : FifoScheduler T) → pick_next_task q ≡ none → waiting T q ≡ []
  unfolding pick_next_task
  pick-none q e = elim (Option-cases (T.pop_front q.ready_queue)) [
    | inl n ↦ T.pop_front-none q.ready_queue n
    | inr (next, s) ↦ cc (rw (s, pick_next_task) at e)
  ]

  back-perm : (l : T.TaskList) (t : ℕ) → Perm (T.to_list (T.push_back l t)) (t ∷ T.to_list l)
  back-perm l t = rw (T.to_list-push_back l t) (perm_back (T.to_list l) t)

  -- First-in first-out, over any list with the documented behaviour, loses, doubles and invents no
  -- task, and picks the task at the front of its list.
  pub fifo_laws : SchedulerLaws (fifo T)
  unfolding new add_task put_prev_task task_tick set_priority
  fifo_laws = record {
    waiting-new = T.to_list-new;
    waiting-add = λ q t. back-perm q.ready_queue t;
    waiting-put = λ q t preempt. back-perm q.ready_queue t;
    pick-none = pick-none;
    pick-some = pick-some;
    waiting-tick = λ q t. refl;
    waiting-priority = λ q t p. refl;
  }

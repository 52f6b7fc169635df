-- ===== src/Task/Balance.antt =====
-- What keeps the task system in order: which tasks stand in the ready queue, and who runs.
pub mod Switch
pub mod Wake
pub mod Calls
pub mod Interrupts
pub mod Run
pub mod Steps
pub mod Reach
pub mod Next
use chenlongos.Prelude.{
  ℕ, ◌+◌, ◌≡◌, ◌≢◌, refl, sym, ap, ◌∙◌, Bool, true, false, not, ◌&&◌, ◌||◌, ◌==◌, if◌then◌else◌,
  count, arith, ==_iff,
}
use chenlongos.Sched.{BaseScheduler}
use chenlongos.Task.State.{
  System, TaskInner, is_running, is_ready, curr, put_task, set_in_wait_queue, set_in_timer_list,
  set_preempt_pending, set_exit_code, set_state, TaskState,
}

-- How often a task has to stand in the ready queue: once if it is ready and not the idle task.
abbrev pub ready_count : TaskInner → ℕ
ready_count i = if is_ready i.state && not i.is_idle then 1 else 0

-- There is one idle task, and it never blocks or exits.
pub record HasIdle (task : ℕ → TaskInner) (idle_task : ℕ) : Type 0 where
  pub idle_is : (task idle_task).is_idle ≡ true
  pub idle_only : (t : ℕ) → (task t).is_idle ≡ true → t ≡ idle_task
  pub idle_awake : (is_running (task idle_task).state || is_ready (task idle_task).state) ≡ true

-- The invariant between two operations: the ready queue holds exactly the tasks that are ready, each
-- once, but for the idle task; the current task is running, and no other is.
pub record Inv {S : BaseScheduler} (s : System S) : Type 0 where
  pub balanced : (t : ℕ) → count t (S.waiting s.scheduler) ≡ ready_count (s.task t)
  pub running_now : is_running (curr s).state ≡ true
  pub alone : (t : ℕ) → is_running (s.task t).state ≡ true → t ≡ s.current
  pub idle : HasIdle s.task s.idle_task

-- The same in the middle of a switch, when no task is running.
pub record Paused {S : BaseScheduler} (s : System S) : Type 0 where
  pub balanced : (t : ℕ) → count t (S.waiting s.scheduler) ≡ ready_count (s.task t)
  pub stopped : (t : ℕ) → is_running (s.task t).state ≡ false
  pub idle : HasIdle s.task s.idle_task

-- Two states that the invariant cannot tell apart.
pub record Same {S : BaseScheduler} (s s' : System S) : Type 0 where
  pub state : (t : ℕ) → (s'.task t).state ≡ (s.task t).state
  pub is_idle : (t : ℕ) → (s'.task t).is_idle ≡ (s.task t).is_idle
  pub waiting : S.waiting s'.scheduler ≡ S.waiting s.scheduler
  pub current : s'.current ≡ s.current
  pub idle_task : s'.idle_task ≡ s.idle_task

module _ {S : BaseScheduler} where
  HasIdle-Same :
      {s s' : System S} → Same s s' → HasIdle s.task s.idle_task → HasIdle s'.task s'.idle_task
  HasIdle-Same {s} {s'} e h = record {
    idle_is = rw (e.idle_task, e.is_idle s.idle_task) h.idle_is;
    idle_only = λ t p. h.idle_only t (sym (e.is_idle t) ∙ p) ∙ sym e.idle_task;
    idle_awake = rw (e.idle_task, e.state s.idle_task) h.idle_awake;
  }

  pub Inv-Same : {s s' : System S} → Same s s' → Inv s → Inv s'
  Inv-Same {s} {s'} e h = record {
    balanced = λ t. rw (e.waiting, e.state t, e.is_idle t) (h.balanced t);
    running_now = rw (e.current, e.state s.current) h.running_now;
    alone = λ t p. h.alone t (rw (e.state t) at p) ∙ sym e.current;
    idle = HasIdle-Same e h.idle;
  }

  pub Paused-Same : {s s' : System S} → Same s s' → Paused s → Paused s'
  Paused-Same {s} {s'} e h = record {
    balanced = λ t. rw (e.waiting, e.state t, e.is_idle t) (h.balanced t);
    stopped = λ t. rw (e.state t) (h.stopped t);
    idle = HasIdle-Same e h.idle;
  }

  pub Same-trans : {s t u : System S} → Same s t → Same t u → Same s u
  Same-trans a b = record {
    state = λ x. b.state x ∙ a.state x;
    is_idle = λ x. b.is_idle x ∙ a.is_idle x;
    waiting = b.waiting ∙ a.waiting;
    current = b.current ∙ a.current;
    idle_task = b.idle_task ∙ a.idle_task;
  }

  pub Same-put_task :
      (s : System S) (t : ℕ) (i : TaskInner)
      → i.state ≡ (s.task t).state
      → i.is_idle ≡ (s.task t).is_idle
      → Same s (put_task s t i)
  Same-put_task s t i p q = record {
    state = λ u. ground (arith, ==_iff u t);
    is_idle = λ u. ground (arith, ==_iff u t);
    waiting = refl;
    current = refl;
    idle_task = refl;
  }

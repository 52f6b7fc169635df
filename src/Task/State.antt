-- ===== src/Task/State.antt =====
-- The state of the task system: the fields of `TaskInner` in modules/axtask/src/task.rs that the
-- scheduling reads and writes, and the statics of run_queue.rs and timers.rs. One CPU. A task is its
-- address. Stacks, contexts, thread-local storage and reference counts are not modelled.
use chenlongos.Prelude.{ℕ, Bool, true, false, List, ◌==◌, if◌then◌else◌}
use chenlongos.Prelude.Int.{ℤ, pos}
use chenlongos.Sched.{BaseScheduler}
use chenlongos.TimerList.{TimerList}

pub data TaskState : Type 0 where
  running ready blocked exited : TaskState

pub record TaskInner : Type 0 where
  pub is_idle : Bool
  pub is_init : Bool
  pub state : TaskState
  pub in_wait_queue : Bool
  pub in_timer_list : Bool
  pub need_resched : Bool
  pub preempt_disable_count : ℕ
  pub exit_code : ℤ

-- `TaskInner::new` and `new_init`: a task named "idle" is the idle task.
unfoldable pub new_task : Bool → TaskInner
new_task named_idle = record {
  is_idle = named_idle;
  is_init = false;
  state = ready;
  in_wait_queue = false;
  in_timer_list = false;
  need_resched = false;
  preempt_disable_count = 0;
  exit_code = pos 0;
}

unfoldable pub new_init : Bool → TaskInner
unfolding new_task
new_init named_idle = record (new_task named_idle) { is_init = true }

abbrev pub is_running : TaskState → Bool
is_running running = true
is_running ready = false
is_running blocked = false
is_running exited = false

abbrev pub is_ready : TaskState → Bool
is_ready running = false
is_ready ready = true
is_ready blocked = false
is_ready exited = false

abbrev pub is_blocked : TaskState → Bool
is_blocked running = false
is_blocked ready = false
is_blocked blocked = true
is_blocked exited = false

-- The wait queues: `wait_for_exit` of a task, the static `WAIT_FOR_EXIT`, and those of other code.
pub data WaitQueueId : Type 0 where
  exit_of : ℕ → WaitQueueId
  for_exit : WaitQueueId
  shared : ℕ → WaitQueueId

abbrev pub same_queue : WaitQueueId → WaitQueueId → Bool
same_queue (exit_of a) (exit_of b) = a == b
same_queue (exit_of a) for_exit = false
same_queue (exit_of a) (shared b) = false
same_queue for_exit (exit_of b) = false
same_queue for_exit for_exit = true
same_queue for_exit (shared b) = false
same_queue (shared a) (exit_of b) = false
same_queue (shared a) for_exit = false
same_queue (shared a) (shared b) = a == b

-- `wait_queue` is the `VecDeque` of each wait queue, front first.
pub record System (S : BaseScheduler) : Type 0 where
  pub task : ℕ → TaskInner
  pub scheduler : S.Queue
  pub current : ℕ
  pub idle_task : ℕ
  pub exited_tasks : List ℕ
  pub wait_queue : WaitQueueId → List ℕ
  pub timer_list : TimerList ℕ

abbrev pub can_preempt : TaskInner → ℕ → Bool
can_preempt t n = t.preempt_disable_count == n

module _ {S : BaseScheduler} where
  abbrev pub curr : System S → TaskInner
  curr s = s.task s.current

  abbrev pub put_task : System S → ℕ → TaskInner → System S
  put_task s t i = record s { task = λ u. if u == t then i else s.task u }

  abbrev pub set_state : System S → ℕ → TaskState → System S
  set_state s t st = put_task s t (record (s.task t) { state = st })

  abbrev pub set_in_wait_queue : System S → ℕ → Bool → System S
  set_in_wait_queue s t b = put_task s t (record (s.task t) { in_wait_queue = b })

  abbrev pub set_in_timer_list : System S → ℕ → Bool → System S
  set_in_timer_list s t b = put_task s t (record (s.task t) { in_timer_list = b })

  abbrev pub set_preempt_pending : System S → ℕ → Bool → System S
  set_preempt_pending s t b = put_task s t (record (s.task t) { need_resched = b })

  abbrev pub set_preempt_disable_count : System S → ℕ → ℕ → System S
  set_preempt_disable_count s t n = put_task s t (record (s.task t) { preempt_disable_count = n })

  abbrev pub set_exit_code : System S → ℕ → ℤ → System S
  set_exit_code s t c = put_task s t (record (s.task t) { exit_code = c })

  abbrev pub set_queue : System S → WaitQueueId → List ℕ → System S
  set_queue s q ts = record s { wait_queue = λ p. if same_queue p q then ts else s.wait_queue p }

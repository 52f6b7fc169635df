-- ===== src/Task/RunQueue.antt =====
-- `AxRunQueue`, modules/axtask/src/run_queue.rs. `none` is a failed `assert!`. An operation that
-- switches to another task ends with the switch: what its caller does on being resumed is an
-- operation of its own. The lock on the run queue is held throughout, with preemption disabled once.
use chenlongos.Prelude.{
  ℕ, zero, suc, ◌+◌, ◌-◌, ◌%◌, ◌^◌, Bool, true, false, not, ◌&&◌, Option, none, some, List, [], ◌∷◌,
  ◌++◌, ltb, length, ◌==◌, if◌then◌else◌,
}
use chenlongos.Prelude.Int.{ℤ}
use chenlongos.Sched.{BaseScheduler}
use chenlongos.Task.Alarms.{set_alarm_wakeup}
use chenlongos.Task.State.{
  System, running, ready, blocked, exited, is_running, is_ready, is_blocked, WaitQueueId, exit_of,
  for_exit, curr, set_state, set_in_wait_queue, set_preempt_pending, set_exit_code, set_queue,
  can_preempt, set_preempt_disable_count, TaskInner, new_task, new_init,
}

-- How `exit_current` ends: the system stops with its init task, or another task runs.
pub data Ended (S : BaseScheduler) : Type 0 where
  terminated : System S → Ended S
  switched : System S → Ended S

-- The inner loop of `gc_entry`: `last_holder` says whose strong count is 1.
unfoldable pub gc_rounds : ℕ → (ℕ → Bool) → List ℕ → List ℕ
gc_rounds zero last_holder ts = ts
gc_rounds (suc n) last_holder [] = []
gc_rounds (suc n) last_holder (t ∷ ts) =
    gc_rounds n last_holder (if last_holder t then ts else ts ++ (t ∷ []))

module _ {S : BaseScheduler} where
  -- `add_task`: a task is spawned.
  unfoldable pub add_task : System S → ℕ → Option (System S)
  add_task s t =
      if is_ready (s.task t).state
      then some (record s { scheduler = S.add_task s.scheduler t })
      else none

  unfoldable pub scheduler_timer_tick : System S → System S
  scheduler_timer_tick s =
      let (q, due) = S.task_tick s.scheduler s.current in
      let ticked : System S = record s { scheduler = q } in
      if (curr s).is_idle
      then s
      else (if due then set_preempt_pending ticked s.current true else ticked)

  -- The next task loses its pending preemption, runs, and is the current one.
  unfoldable pub switch_to : System S → ℕ → System S
  switch_to s next = record (set_state (set_preempt_pending s next false) next running) {
    current = next;
  }

  -- The first half of `resched`: a running task becomes ready and, if not idle, is put back.
  unfoldable pub put_prev : System S → Bool → System S
  put_prev s preempt =
      let s' = set_state s s.current ready in
      if is_running (curr s).state
      then (if (curr s).is_idle
          then s'
          else record s' { scheduler = S.put_prev_task s.scheduler s.current preempt })
      else s

  abbrev pub pick_and_switch : System S → Option (ℕ × S.Queue) → System S
  pick_and_switch s none = switch_to s s.idle_task
  pick_and_switch s (some (t, q)) = switch_to (record s { scheduler = q }) t

  unfoldable pub resched : System S → Bool → System S
  resched s preempt =
      let s' = put_prev s preempt in pick_and_switch s' (S.pick_next_task s'.scheduler)

  unfoldable pub yield_current : System S → Option (System S)
  yield_current s = if is_running (curr s).state then some (resched s false) else none

  unfoldable pub set_current_priority : System S → ℤ → System S × Bool
  set_current_priority s prio =
      let (q, done) = S.set_priority s.scheduler s.current prio in
      (record s { scheduler = q }, done)

  unfoldable pub preempt_resched : System S → Option (System S)
  preempt_resched s =
      if is_running (curr s).state
      then some
          (if can_preempt (curr s) 1 then resched s true else set_preempt_pending s s.current true)
      else none

  -- `disable_preempt` and `enable_preempt` of task.rs, which every lock and unlock calls. The counter
  -- wraps round.
  unfoldable pub disable_preempt : System S → System S
  disable_preempt s =
      set_preempt_disable_count s s.current (((curr s).preempt_disable_count + 1) % 2 ^ 64)

  unfoldable pub current_check_preempt_pending : System S → Option (System S)
  current_check_preempt_pending s =
      if (curr s).need_resched && can_preempt (curr s) 0
      then preempt_resched (disable_preempt s)
      else some s

  unfoldable pub enable_preempt : System S → Bool → Option (System S)
  enable_preempt s do_resched =
      let old = (curr s).preempt_disable_count in
      let s' = set_preempt_disable_count s s.current ((old + (2 ^ 64 - 1)) % 2 ^ 64) in
      if old == 1 && do_resched then current_check_preempt_pending s' else some s'

  unfoldable pub unblock_task : System S → ℕ → Bool → System S
  unblock_task s t do_resched =
      let s' : System S = record (set_state s t ready) { scheduler = S.add_task s.scheduler t } in
      if is_blocked (s.task t).state
      then (if do_resched then set_preempt_pending s' s.current true else s')
      else s

  -- `wait_queue_push` of every caller: the task is marked and stands last in the wait queue.
  abbrev pub push_waiter : System S → WaitQueueId → ℕ → System S
  push_waiter s q t = set_queue (set_in_wait_queue s t true) q (s.wait_queue q ++ (t ∷ []))

  unfoldable pub block_current : System S → WaitQueueId → Option (System S)
  block_current s q =
      if is_running (curr s).state && (not (curr s).is_idle && can_preempt (curr s) 1)
      then some (resched (push_waiter (set_state s s.current blocked) q s.current) false)
      else none

  -- `notify_one_locked` and `notify_all_locked` of wait_queue.rs, which `exit_current` calls.
  abbrev pub notify_list : System S → WaitQueueId → List ℕ → Bool → System S × Bool
  notify_list s q [] do_resched = (s, false)
  notify_list s q (t ∷ ts) do_resched =
      (unblock_task (set_in_wait_queue (set_queue s q ts) t false) t do_resched, true)

  unfoldable pub notify_one_locked : System S → WaitQueueId → Bool → System S × Bool
  notify_one_locked s q do_resched = notify_list s q (s.wait_queue q) do_resched

  -- The loop of `notify_all_locked`, with a round for each task that waits.
  unfoldable pub notify_rounds : ℕ → System S → WaitQueueId → Bool → System S
  notify_rounds zero s q do_resched = s
  notify_rounds (suc n) s q do_resched =
      notify_rounds n (notify_one_locked s q do_resched).0 q do_resched

  unfoldable pub notify_all_locked : System S → WaitQueueId → Bool → System S
  unfolding notify_rounds
  notify_all_locked s q do_resched = notify_rounds (length (s.wait_queue q)) s q do_resched

  -- The task is marked, its joiners and the collector are woken, and it stands with the exited.
  unfoldable pub leave : System S → ℤ → System S
  leave s code =
      let t = s.current in
      let marked = set_exit_code (set_state s t exited) t code in
      let joined = notify_all_locked marked (exit_of t) false in
      (notify_one_locked (record joined { exited_tasks = joined.exited_tasks ++ (t ∷ []) }) for_exit
        false).0

  unfoldable pub exit_current : System S → ℤ → Option (Ended S)
  exit_current s code =
      if is_running (curr s).state && not (curr s).is_idle
      then some (
          if (curr s).is_init
          then terminated (record s { exited_tasks = [] })
          else switched (resched (leave s code) false))
      else none

  unfoldable pub sleep_until : System S → ℕ → ℕ → Option (System S)
  sleep_until s deadline now =
      if is_running (curr s).state && not (curr s).is_idle
      then some (
          if ltb now deadline
          then resched (set_state (set_alarm_wakeup s deadline s.current) s.current blocked) false
          else s)
      else none

  unfoldable pub gc_pass : System S → (ℕ → Bool) → System S
  gc_pass s last_holder = record s {
    exited_tasks = gc_rounds (length s.exited_tasks) last_holder s.exited_tasks;
  }

-- `init` with `AxRunQueue::new`: the idle task, the collector in the ready queue, and the init task,
-- which runs. The other addresses are free, which counts as exited.
abbrev pub init_task : ℕ → ℕ → ℕ → ℕ → TaskInner
unfolding new_task new_init
init_task idle gc main t =
    if t == main
    then record (new_init false) { state = running }
    else (if t == idle
        then new_task true
        else (if t == gc then new_task false else record (new_task false) { state = exited }))

unfoldable pub init : (S : BaseScheduler) → ℕ → ℕ → ℕ → System S
init S idle gc main = record {
  task = init_task idle gc main;
  scheduler = S.add_task S.new gc;
  current = main;
  idle_task = idle;
  exited_tasks = [];
  wait_queue = λ q. [];
  timer_list = record { events = [] };
}

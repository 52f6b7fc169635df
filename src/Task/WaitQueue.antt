-- ===== src/Task/WaitQueue.antt =====
-- Wait queues, modules/axtask/src/wait_queue.rs, and `join` of task.rs. A call that blocks is split
-- at its switches: `wait` is `wait_begin`, and `cancel_events` when the task runs again; a round of
-- the loop of `wait_until` returns, or blocks and is followed by another round.
use chenlongos.Prelude.{
  ℕ, Bool, true, false, Option, none, some, List, [], ◌∷◌, ltb, ◌==◌, if◌then◌else◌,
}
use chenlongos.Prelude.Int.{ℤ}
use chenlongos.Sched.{BaseScheduler, erase}
use chenlongos.Task.State.{
  System, TaskState, running, ready, blocked, exited, WaitQueueId, exit_of, curr, set_in_wait_queue,
  set_queue,
}
use chenlongos.Task.Alarms.{set_alarm_wakeup, cancel_alarm}
use chenlongos.Task.RunQueue.{block_current, unblock_task, notify_one_locked, notify_all_locked}

abbrev pub without : ℕ → List ℕ → List ℕ
without t [] = []
without t (x ∷ xs) = if x == t then without t xs else x ∷ without t xs

abbrev pub has : ℕ → List ℕ → Bool
has t [] = false
has t (x ∷ xs) = if x == t then true else has t xs

abbrev pub is_exited : TaskState → Bool
is_exited exited = true
is_exited running = false
is_exited ready = false
is_exited blocked = false

-- How a round of a waiting loop ends.
pub data Round (S : BaseScheduler) (A : Type 0) : Type 0 where
  waits : System S → Round S A
  done : System S → A → Round S A

-- A round that blocks, unless an assertion fails.
abbrev pub blocks : {S : BaseScheduler} {A : Type 0} → Option (System S) → Option (Round S A)
blocks none = none
blocks (some s) = some (waits s)

module _ {S : BaseScheduler} where
  unfoldable pub cancel_events : System S → WaitQueueId → System S
  cancel_events s q =
      let t = s.current in
      let s' =
        if (curr s).in_wait_queue
        then set_in_wait_queue (set_queue s q (without t (s.wait_queue q))) t false
        else s in
      if (curr s).in_timer_list then cancel_alarm s' t else s'

  unfoldable pub wait_begin : System S → WaitQueueId → Option (System S)
  wait_begin s q = block_current s q

  unfoldable pub wait_until_round : System S → WaitQueueId → Bool → Option (Round S (Unit {0}))
  wait_until_round s q condition =
      if condition then some (done (cancel_events s q) tt) else blocks (block_current s q)

  -- `join`: the result is the exit code.
  unfoldable pub join_round : System S → ℕ → Option (Round S ℤ)
  join_round s t =
      if is_exited (s.task t).state
      then some (done (cancel_events s (exit_of t)) (s.task t).exit_code)
      else blocks (block_current s (exit_of t))

  unfoldable pub wait_timeout_begin : System S → WaitQueueId → ℕ → Option (System S)
  wait_timeout_begin s q deadline = block_current (set_alarm_wakeup s deadline s.current) q

  -- True if the time ran out: the task is still marked as waiting.
  unfoldable pub wait_timeout_end : System S → WaitQueueId → System S × Bool
  wait_timeout_end s q = (cancel_events s q, (curr s).in_wait_queue)

  -- A round of `wait_timeout_until`, at the time that the clock shows; true if the time ran out.
  unfoldable pub wait_timeout_until_round :
      System S → WaitQueueId → ℕ → ℕ → Bool → Option (Round S Bool)
  wait_timeout_until_round s q deadline now condition =
      if ltb now deadline
      then (if condition then some (done (cancel_events s q) false) else blocks (block_current s q))
      else some (done (cancel_events s q) true)

  abbrev pub notify_if : System S → WaitQueueId → Bool → List ℕ → System S × Bool
  notify_if s q do_resched [] = (s, false)
  notify_if s q do_resched (t ∷ ts) = notify_one_locked s q do_resched

  unfoldable pub notify_one : System S → WaitQueueId → Bool → System S × Bool
  notify_one s q do_resched = notify_if s q do_resched (s.wait_queue q)

  -- The lock is given back after each task; no other task runs in between here.
  unfoldable pub notify_all : System S → WaitQueueId → Bool → System S
  notify_all s q do_resched = notify_all_locked s q do_resched

  unfoldable pub notify_task : System S → WaitQueueId → Bool → ℕ → System S × Bool
  notify_task s q do_resched t =
      let found = set_queue (set_in_wait_queue s t false) q (erase t (s.wait_queue q)) in
      if has t (s.wait_queue q) then (unblock_task found t do_resched, true) else (s, false)

-- ===== src/Task/Tests.antt =====
-- A small system of tasks under the round-robin policy.
use chenlongos.Prelude.{false, ◌==◌, if◌then◌else◌, true, List, [], ◌∷◌}
use chenlongos.Prelude.Int.{pos}
use chenlongos.Sched.RoundRobin
use chenlongos.Sched.RoundRobin.Laws.{round_robin}
use chenlongos.Task.State.{blocked, same_queue, shared, System, for_exit}
use chenlongos.Task.RunQueue.{init, resched}
use chenlongos.Task.Balance.Run.{Event, spawn, timer_tick, exit, wait, join, locks, unlocks}

-- The idle task is 0, the init task 1, the collector 2.
abbrev system : System (round_robin 5)
system = init (round_robin 5) 0 2 1

-- The init task spawns 3 and joins it under the lock. The collector waits for a task to exit; 3 ticks
-- and exits, which wakes both.
abbrev events : List Event
events =
    spawn 3 ∷ locks ∷ join 3 ∷ locks ∷ wait for_exit ∷ timer_tick ∷ exit (pos 7) ∷ unlocks true ∷ []

-- The collector is blocked in the wait queue 8, and 5 stands there too, which has exited.
abbrev crowded : System (round_robin 5)
crowded = record system {
  task = λ t.
      if t == 2
      then record (system.task t) { state = blocked; in_wait_queue = true }
      else system.task t;
  wait_queue = λ q. if same_queue q (shared 8) then 2 ∷ 5 ∷ [] else [];
}

-- The init task has yielded and the collector runs.
abbrev second : System (round_robin 5)
second = resched system false

-- ===== src/Task/Exit.antt =====
-- The exit of a task, `exit_current` of modules/axtask/src/run_queue.rs.
use chenlongos.Prelude.{ℕ, ◌≡◌, true, false, [], ◌∷◌, ◌++◌}
use chenlongos.Prelude.Int.{ℤ}
use chenlongos.Sched.{BaseScheduler}
use chenlongos.Task.State.{System, exited, is_blocked, exit_of}
use chenlongos.Task.WaitQueue.{has}

-- `s'` is `s` after its current task exited.
pub record Exited {S : BaseScheduler} (s : System S) (code : ℤ) (s' : System S) : Type 0 where
  pub is_gone : (s'.task s.current).state ≡ exited
  pub exit_code : (s'.task s.current).exit_code ≡ code
  pub collected : s'.exited_tasks ≡ s.exited_tasks ++ (s.current ∷ [])
  pub joiners :
      (u : ℕ)
      → has u (s.wait_queue (exit_of s.current)) ≡ true
      → is_blocked (s'.task u).state ≡ false
  pub none_waits : s'.wait_queue (exit_of s.current) ≡ []

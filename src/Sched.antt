-- ===== src/Sched.antt =====
-- The scheduling policies, crates/scheduler/src. A task is its address (what `Arc::ptr_eq`
-- compares); what a policy keeps in the task itself stands in the state of the policy.
pub mod Cfs
pub mod Fifo
pub mod RoundRobin
mod Tests
use chenlongos.Prelude.{
  ℕ, ◌≡◌, Bool, Option, none, some, List, [], ◌∷◌, Perm, perm_middle, append-nil, subst, ◌++◌, ◌==◌,
  if◌then◌else◌,
}
use chenlongos.Prelude.Int.{ℤ}

-- The trait `BaseScheduler` of lib.rs. `waiting` lists the tasks in the ready queue.
pub record BaseScheduler : Type 1 where
  pub Queue : Type 0
  pub waiting : Queue → List ℕ
  pub new : Queue
  pub add_task : Queue → ℕ → Queue
  pub remove_task : Queue → ℕ → Queue × Option ℕ
  pub pick_next_task : Queue → Option (ℕ × Queue)
  pub put_prev_task : Queue → ℕ → Bool → Queue
  pub task_tick : Queue → ℕ → Queue × Bool
  pub set_priority : Queue → ℕ → ℤ → Queue × Bool

-- What the callers of a scheduler rely on: no operation loses, doubles or invents a task.
pub record SchedulerLaws (S : BaseScheduler) : Type 0 where
  pub waiting-new : S.waiting S.new ≡ []
  pub waiting-add : (q : S.Queue) (t : ℕ) → Perm (S.waiting (S.add_task q t)) (t ∷ S.waiting q)
  pub waiting-put :
      (q : S.Queue) (t : ℕ) (preempt : Bool)
      → Perm (S.waiting (S.put_prev_task q t preempt)) (t ∷ S.waiting q)
  pub pick-none : (q : S.Queue) → S.pick_next_task q ≡ none → S.waiting q ≡ []
  pub pick-some :
      (q : S.Queue) (t : ℕ) (q' : S.Queue)
      → S.pick_next_task q ≡ some (t, q')
      → S.waiting q ≡ t ∷ S.waiting q'
  pub waiting-tick : (q : S.Queue) (t : ℕ) → S.waiting (S.task_tick q t).0 ≡ S.waiting q
  pub waiting-priority :
      (q : S.Queue) (t : ℕ) (p : ℤ) → S.waiting (S.set_priority q t p).0 ≡ S.waiting q

-- The first occurrence of a task is taken out.
abbrev pub erase : ℕ → List ℕ → List ℕ
erase t [] = []
erase t (x ∷ xs) = if x == t then xs else x ∷ erase t xs

-- A task at the end of a queue, or at its front: the same tasks.
pub perm_back : (xs : List ℕ) (t : ℕ) → Perm (xs ++ (t ∷ [])) (t ∷ xs)
perm_back xs t = subst (λ ys. Perm (xs ++ (t ∷ [])) (t ∷ ys)) (append-nil xs) (perm_middle xs [])

-- ===== src/Sched/Fifo.antt =====
-- The first-in first-out policy, crates/scheduler/src/fifo.rs. The list that it keeps its tasks in
-- (crates/linked_list, after the list of Rust for Linux) is taken by its documented behaviour.
pub mod Laws
use chenlongos.Prelude.{ℕ, ◌≡◌, ◌⊎◌, Bool, false, Option, none, some, List, [], ◌∷◌, ◌++◌, Mem}
use chenlongos.Prelude.Int.{ℤ}
use chenlongos.Sched.{BaseScheduler, erase}

-- `linked_list::List`. `remove` is for a task that is in the list.
pub record TaskLists : Type 1 where
  pub TaskList : Type 0
  pub to_list : TaskList → List ℕ
  pub new : TaskList
  pub push_back : TaskList → ℕ → TaskList
  pub pop_front : TaskList → Option (ℕ × TaskList)
  pub remove : TaskList → ℕ → TaskList × Option ℕ
  pub to_list-new : to_list new ≡ []
  pub to_list-push_back : (l : TaskList) (t : ℕ) → to_list (push_back l t) ≡ to_list l ++ (t ∷ [])
  pub pop_front-none : (l : TaskList) → pop_front l ≡ none → to_list l ≡ []
  pub pop_front-some :
      (l : TaskList) (t : ℕ) (l' : TaskList)
      → pop_front l ≡ some (t, l')
      → to_list l ≡ t ∷ to_list l'
  pub remove_lem :
      (l : TaskList) (t : ℕ)
      → Mem t (to_list l)
      → (to_list (remove l t).0 ≡ erase t (to_list l)) × ((remove l t).1 ≡ some t)

module _ (T : TaskLists) where
  pub record FifoScheduler : Type 0 where
    pub ready_queue : T.TaskList

module _ {T : TaskLists} where
  pub new : FifoScheduler T
  new = record { ready_queue = T.new }

  pub add_task : FifoScheduler T → ℕ → FifoScheduler T
  add_task q task = record { ready_queue = T.push_back q.ready_queue task }

  pub remove_task : FifoScheduler T → ℕ → FifoScheduler T × Option ℕ
  remove_task q task = let (l, o) = T.remove q.ready_queue task in (record { ready_queue = l }, o)

  pub pick_next_task : FifoScheduler T → Option (ℕ × FifoScheduler T)
  pick_next_task q = elim (T.pop_front q.ready_queue) [
    | none ↦ none
    | some (t, l) ↦ some (t, record { ready_queue = l })
  ]

  pub put_prev_task : FifoScheduler T → ℕ → Bool → FifoScheduler T
  put_prev_task q prev preempt = record { ready_queue = T.push_back q.ready_queue prev }

  pub task_tick : FifoScheduler T → ℕ → FifoScheduler T × Bool
  task_tick q current = (q, false)

  pub set_priority : FifoScheduler T → ℕ → ℤ → FifoScheduler T × Bool
  set_priority q task prio = (q, false)

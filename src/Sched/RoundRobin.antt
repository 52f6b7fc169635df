-- ===== src/Sched/RoundRobin.antt =====
-- The round-robin policy, crates/scheduler/src/round_robin.rs. `VecDeque` is a list, front first;
-- the atomic time slice of every task is a number that may fall below zero.
pub mod Laws
pub mod Quantum
use chenlongos.Prelude.{
  ℕ, zero, suc, ◌+◌, ◌-◌, ◌^◌, Bool, true, false, ◌&&◌, Option, none, some, List, [], ◌∷◌, ◌++◌,
  ltb, leb, ◌==◌, if◌then◌else◌,
}
use chenlongos.Prelude.Int.{ℤ, pos, negsuc}
use chenlongos.Sched.{erase}

-- `max_time_slice` is the constant parameter `MAX_TIME_SLICE`.
pub record RrScheduler : Type 0 where
  pub max_time_slice : ℕ
  pub ready_queue : List ℕ
  pub time_slice : ℕ → ℤ

-- `fetch_sub(1)` on an `isize`, which wraps round below the least value.
abbrev pub dec : ℤ → ℤ
dec (pos zero) = negsuc 0
dec (pos (suc n)) = pos n
dec (negsuc n) = if n + 1 == 2 ^ 63 then pos (2 ^ 63 - 1) else negsuc (n + 1)

abbrev pub is_positive : ℤ → Bool
is_positive (pos zero) = false
is_positive (pos (suc n)) = true
is_positive (negsuc n) = false

-- `old_slice <= 1`
abbrev pub at_most_one : ℤ → Bool
at_most_one (pos n) = leb n 1
at_most_one (negsuc n) = true

abbrev pub update : (ℕ → ℤ) → ℕ → ℤ → ℕ → ℤ
update f t v u = if u == t then v else f u

abbrev pub position : ℕ → List ℕ → Bool
position t [] = false
position t (x ∷ xs) = if x == t then true else position t xs

-- A task that was never run has a full slice (`RRTask::new`).
unfoldable pub new : ℕ → RrScheduler
new s = record { max_time_slice = s; ready_queue = []; time_slice = λ t. pos s }

unfoldable pub add_task : RrScheduler → ℕ → RrScheduler
add_task q task = record q { ready_queue = q.ready_queue ++ (task ∷ []) }

pub remove_task : RrScheduler → ℕ → RrScheduler × Option ℕ
remove_task q task =
    if position task q.ready_queue
    then (record q { ready_queue = erase task q.ready_queue }, some task)
    else (q, none)

abbrev pub pop_front : RrScheduler → List ℕ → Option (ℕ × RrScheduler)
pop_front q [] = none
pop_front q (t ∷ ts) = some (t, record q { ready_queue = ts })

unfoldable pub pick_next_task : RrScheduler → Option (ℕ × RrScheduler)
pick_next_task q = pop_front q q.ready_queue

unfoldable pub put_prev_task : RrScheduler → ℕ → Bool → RrScheduler
put_prev_task q prev preempt =
    if is_positive (q.time_slice prev) && preempt
    then record q { ready_queue = prev ∷ q.ready_queue }
    else record q {
      time_slice = update q.time_slice prev (pos q.max_time_slice);
      ready_queue = q.ready_queue ++ (prev ∷ []);
    }

unfoldable pub task_tick : RrScheduler → ℕ → RrScheduler × Bool
task_tick q current =
    let old_slice = q.time_slice current in
    (record q { time_slice = update q.time_slice current (dec old_slice) }, at_most_one old_slice)

unfoldable pub set_priority : RrScheduler → ℕ → ℤ → RrScheduler × Bool
set_priority q task prio = (q, false)

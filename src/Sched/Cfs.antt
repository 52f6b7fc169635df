-- ===== src/Sched/Cfs.antt =====
-- The completely fair policy, crates/scheduler/src/cfs.rs. The `BTreeMap` is a list in the order of
-- its keys; what a task keeps in its `CFSTask` is a function of the task. Run times and IDs are
-- counters that start from zero, and stand for numbers below 2 ^ 63. `none` is a panic: an index out
-- of bounds, or a division by zero.
pub mod Queue
mod Tests
pub mod Calls
pub mod Keys
pub mod Laws
use chenlongos.Prelude.{
  ℕ, zero, suc, ◌+◌, ◌*◌, ◌/◌, Bool, true, false, not, ◌&&◌, ◌||◌, Option, none, some, List, [],
  ◌∷◌, update, ltb, leb, ◌==◌, if◌then◌else◌, get_elem?,
}
use chenlongos.Prelude.Int.{ℤ, pos, negsuc}

-- An entry of the map: its key, a run time with an ID, and its task.
pub record Entry : Type 0 where
  pub vruntime : ℕ
  pub id : ℕ
  pub task : ℕ

pub record CfScheduler : Type 0 where
  pub ready_queue : List Entry
  pub min_vruntime : Option ℕ
  pub id_pool : ℕ
  pub init_vruntime : ℕ → ℕ
  pub delta : ℕ → ℕ
  pub nice : ℕ → ℤ
  pub id : ℕ → ℕ

abbrev pub nice2weight_pos : List ℕ
nice2weight_pos =
    1024 ∷ 820 ∷ 655 ∷ 526 ∷ 423 ∷ 335 ∷ 272 ∷ 215 ∷ 172 ∷ 137 ∷ 110 ∷ 87 ∷ 70 ∷ 56 ∷ 45 ∷ 36 ∷ 29
    ∷ 23 ∷ 18 ∷ 15 ∷ []

abbrev pub nice2weight_neg : List ℕ
nice2weight_neg =
    1024 ∷ 1277 ∷ 1586 ∷ 1991 ∷ 2501 ∷ 3121 ∷ 3906 ∷ 4904 ∷ 6100 ∷ 7620 ∷ 9548 ∷ 11916 ∷ 14949
    ∷ 18705 ∷ 23254 ∷ 29154 ∷ 36291 ∷ 46273 ∷ 56483 ∷ 71755 ∷ 88761 ∷ []

abbrev pub get_weight : ℤ → Option ℕ
get_weight (pos n) = get_elem? nice2weight_pos n
get_weight (negsuc n) = get_elem? nice2weight_neg (suc n)

abbrev pub weighted : ℕ → ℕ → Option ℕ → Option ℕ
weighted init delta none = none
weighted init delta (some zero) = none
weighted init delta (some (suc w)) = some (init + delta * 1024 / suc w)

abbrev pub vruntime_of : ℕ → ℕ → ℤ → Option ℕ
vruntime_of init delta (pos zero) = some (init + delta)
vruntime_of init delta (pos (suc n)) = weighted init delta (get_weight (pos (suc n)))
vruntime_of init delta (negsuc n) = weighted init delta (get_weight (negsuc n))

abbrev pub get_vruntime : CfScheduler → ℕ → Option ℕ
get_vruntime q t = vruntime_of (q.init_vruntime t) (q.delta t) (q.nice t)

-- The order of the keys.
abbrev pub before : Entry → Entry → Bool
before e d = ltb e.vruntime d.vruntime || (e.vruntime == d.vruntime && ltb e.id d.id)

abbrev pub same_key : ℕ → ℕ → Entry → Bool
same_key v i d = v == d.vruntime && i == d.id

abbrev pub insert : Entry → List Entry → List Entry
insert e [] = e ∷ []
insert e (d ∷ r) =
    let rest = insert e r in
    if before e d then e ∷ d ∷ r else (if same_key e.vruntime e.id d then e ∷ r else d ∷ rest)

abbrev pub find_key : ℕ → ℕ → List Entry → Option ℕ
find_key v i [] = none
find_key v i (d ∷ r) = let rest = find_key v i r in if same_key v i d then some d.task else rest

abbrev pub remove_key : ℕ → ℕ → List Entry → List Entry
remove_key v i [] = []
remove_key v i (d ∷ r) = let rest = remove_key v i r in if same_key v i d then r else d ∷ rest

-- `first_key_value`
abbrev pub first_vruntime : List Entry → Option ℕ
first_vruntime [] = none
first_vruntime (e ∷ r) = some e.vruntime

abbrev pub new : CfScheduler
new = record {
  ready_queue = [];
  min_vruntime = none;
  id_pool = 0;
  init_vruntime = λ t. 0;
  delta = λ t. 0;
  nice = λ t. pos 0;
  id = λ t. 0;
}

abbrev pub min_or_zero : Option ℕ → ℕ
min_or_zero none = 0
min_or_zero (some v) = v

unfoldable pub add_task : CfScheduler → ℕ → CfScheduler
add_task q task =
    let vruntime = min_or_zero q.min_vruntime in
    let ready =
      insert (record { vruntime = vruntime; id = q.id_pool; task = task }) q.ready_queue in
    record q {
      ready_queue = ready;
      min_vruntime = first_vruntime ready;
      id_pool = q.id_pool + 1;
      init_vruntime = update q.init_vruntime task vruntime;
      id = update q.id task q.id_pool;
    }

abbrev pub remove_found : CfScheduler → ℕ → ℕ → Option ℕ → CfScheduler × Option ℕ
remove_found q v i none = (q, none)
remove_found q v i (some task) =
    let ready = remove_key v i q.ready_queue in
    (record q { ready_queue = ready; min_vruntime = first_vruntime ready }, some task)

abbrev pub remove_at : CfScheduler → ℕ → Option ℕ → Option (CfScheduler × Option ℕ)
remove_at q i none = none
remove_at q i (some v) = some (remove_found q v i (find_key v i q.ready_queue))

unfoldable pub remove_task : CfScheduler → ℕ → Option (CfScheduler × Option ℕ)
remove_task q task = remove_at q (q.id task) (get_vruntime q task)

abbrev pub pop_first : CfScheduler → List Entry → Option (ℕ × CfScheduler)
pop_first q [] = none
pop_first q (e ∷ r) = some (e.task, record q { ready_queue = r })

unfoldable pub pick_next_task : CfScheduler → Option (ℕ × CfScheduler)
pick_next_task q = pop_first q q.ready_queue

abbrev pub put_at : CfScheduler → ℕ → Option ℕ → Option CfScheduler
put_at q prev none = none
put_at q prev (some v) = some (record q {
  ready_queue = insert (record { vruntime = v; id = q.id_pool; task = prev }) q.ready_queue;
  id_pool = q.id_pool + 1;
  id = update q.id prev q.id_pool;
})

unfoldable pub put_prev_task : CfScheduler → ℕ → Bool → Option CfScheduler
put_prev_task q prev preempt = put_at q prev (get_vruntime q prev)

abbrev pub exceeds : CfScheduler → ℕ → Option ℕ → Option (CfScheduler × Bool)
exceeds q least none = none
exceeds q least (some v) = some (q, ltb least v)

abbrev pub ticked : CfScheduler → ℕ → Option ℕ → Option (CfScheduler × Bool)
ticked q current none = some (q, true)
ticked q current (some least) = exceeds q least (get_vruntime q current)

unfoldable pub task_tick : CfScheduler → ℕ → Option (CfScheduler × Bool)
task_tick q current =
    ticked (record q { delta = update q.delta current (q.delta current + 1) }) current
      q.min_vruntime

-- -20 ≤ prio ≤ 19
abbrev pub in_range : ℤ → Bool
in_range (pos n) = leb n 19
in_range (negsuc n) = leb n 19

abbrev pub prioritised : CfScheduler → ℕ → ℤ → Option ℕ → Option (CfScheduler × Bool)
prioritised q task prio none = none
prioritised q task prio (some v) = some (
  record q {
    init_vruntime = update q.init_vruntime task v;
    delta = update q.delta task 0;
    nice = update q.nice task prio;
  },
  true,
)

unfoldable pub set_priority : CfScheduler → ℕ → ℤ → Option (CfScheduler × Bool)
set_priority q task prio =
    if in_range prio then prioritised q task prio (get_vruntime q task) else some (q, false)

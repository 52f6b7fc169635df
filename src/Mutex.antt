-- ===== src/Mutex.antt =====
-- The sleeping mutex, modules/axsync/src/mutex.rs, and `wait_until` of
-- modules/axtask/src/wait_queue.rs under it. An event is what one task does in one step: an atomic
-- operation on the owner, or a part under the lock of the run queue. `none` is a failed assertion.
pub mod Owner
pub mod Wakeup
pub mod Assertions
mod Tests
use chenlongos.Prelude.{
  update, ℕ, zero, suc, ◌≡◌, Bool, true, false, Option, none, some, List, [], ◌∷◌, ◌++◌, ◌==◌,
  if◌then◌else◌,
}

-- Where a task is: outside, before an attempt to take the mutex, before a look at the condition of
-- `wait_until`, in the wait queue, with the guard, or before the call of `notify_one`.
pub data Place : Type 0 where
  outside trying waiting asleep holding notifying : Place

pub record Mutex : Type 0 where
  pub owner_id : ℕ
  pub wq : List ℕ
  pub place : ℕ → Place

pub data Event : Type 0 where
  lock compare_exchange spurious_failure look_at_condition force_unlock notify_one try_lock :
      ℕ → Event

-- IDs of tasks start from one; a task is its number from zero.
abbrev pub id_of : ℕ → ℕ
id_of t = suc t

abbrev pub is_locked : Mutex → Bool
is_locked m = if m.owner_id == 0 then false else true

abbrev pub move : Mutex → ℕ → Place → Mutex
move m t p = record { owner_id = m.owner_id; wq = m.wq; place = update m.place t p }

abbrev pub set_owner : Mutex → ℕ → Mutex
set_owner m o = record { owner_id = o; wq = m.wq; place = m.place }

abbrev pub set_wq : Mutex → List ℕ → Mutex
set_wq m q = record { owner_id = m.owner_id; wq = q; place = m.place }

abbrev pub new : Mutex
new = record { owner_id = 0; wq = []; place = λ t. outside }

abbrev pub take_lock : Mutex → ℕ → Mutex
take_lock m t = move (set_owner m (id_of t)) t holding

-- A task that holds the guard and locks again fails the assertion of its first attempt.
abbrev pub lock_from : Mutex → ℕ → Place → Option Mutex
lock_from m t outside = some (move m t trying)
lock_from m t holding = none
lock_from m t trying = some m
lock_from m t waiting = some m
lock_from m t asleep = some m
lock_from m t notifying = some m

-- A failed attempt, which may be spurious, asserts that the owner is another task.
abbrev pub attempt_failed : Mutex → ℕ → Option Mutex
attempt_failed m t = if m.owner_id == id_of t then none else some (move m t waiting)

abbrev pub exchange_from : Mutex → ℕ → Place → Option Mutex
exchange_from m t trying = if m.owner_id == 0 then some (take_lock m t) else attempt_failed m t
exchange_from m t outside = some m
exchange_from m t waiting = some m
exchange_from m t asleep = some m
exchange_from m t holding = some m
exchange_from m t notifying = some m

abbrev pub spurious_from : Mutex → ℕ → Place → Option Mutex
spurious_from m t trying = attempt_failed m t
spurious_from m t outside = some m
spurious_from m t waiting = some m
spurious_from m t asleep = some m
spurious_from m t holding = some m
spurious_from m t notifying = some m

-- One round of `wait_until`, under the lock of the run queue.
abbrev pub look_from : Mutex → ℕ → Place → Mutex
look_from m t waiting =
    if is_locked m then move (set_wq m (m.wq ++ t ∷ [])) t asleep else move m t trying
look_from m t outside = m
look_from m t trying = m
look_from m t asleep = m
look_from m t holding = m
look_from m t notifying = m

abbrev pub unlock_from : Mutex → ℕ → Place → Option Mutex
unlock_from m t holding =
    if m.owner_id == id_of t then some (move (set_owner m 0) t notifying) else none
unlock_from m t outside = some m
unlock_from m t trying = some m
unlock_from m t waiting = some m
unlock_from m t asleep = some m
unlock_from m t notifying = some m

-- The task at the front of the wait queue looks at the condition again.
abbrev pub wake_first : Mutex → List ℕ → Mutex
wake_first m [] = m
wake_first m (u ∷ us) = move (set_wq m us) u waiting

abbrev pub notify_from : Mutex → ℕ → Place → Mutex
notify_from m t notifying = wake_first (move m t outside) m.wq
notify_from m t outside = m
notify_from m t trying = m
notify_from m t waiting = m
notify_from m t asleep = m
notify_from m t holding = m

abbrev pub try_from : Mutex → ℕ → Place → Mutex
try_from m t outside = if m.owner_id == 0 then take_lock m t else m
try_from m t trying = m
try_from m t waiting = m
try_from m t asleep = m
try_from m t holding = m
try_from m t notifying = m

-- An event of a task that is elsewhere changes nothing.
unfoldable pub step : Mutex → Event → Option Mutex
step m (lock t) = lock_from m t (m.place t)
step m (compare_exchange t) = exchange_from m t (m.place t)
step m (spurious_failure t) = spurious_from m t (m.place t)
step m (look_at_condition t) = some (look_from m t (m.place t))
step m (force_unlock t) = unlock_from m t (m.place t)
step m (notify_one t) = some (notify_from m t (m.place t))
step m (try_lock t) = some (try_from m t (m.place t))

-- The states that events lead to.
pub data Reach : Mutex → Type 0 where
  start : Reach new
  next : {m : Mutex} {m' : Mutex} → Reach m → (e : Event) → step m e ≡ some m' → Reach m'

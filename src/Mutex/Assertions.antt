-- ===== src/Mutex/Assertions.antt =====
-- Which events fail an assertion.
use chenlongos.Prelude.{
  ℕ, ◌≡◌, ◌≢◌, refl, sym, ◌∙◌, Bool, true, false, none, some, ◌==◌, ==_iff, if◌then◌else◌,
}
use chenlongos.Mutex.{
  Place, outside, trying, waiting, asleep, holding, notifying, Mutex, Event, lock, compare_exchange,
  spurious_failure, look_at_condition, force_unlock, notify_one, try_lock, move, set_owner, id_of,
  take_lock, lock_from, attempt_failed, exchange_from, spurious_from, unlock_from, step, Reach,
}
use chenlongos.Mutex.Owner.{Owned}
use chenlongos.Mutex.Wakeup.{Reach-Inv}

module _ (m : Mutex) (o : Owned m) (t : ℕ) where
  lock_fails : (p : Place) → lock_from m t p ≡ none → p ≡ holding
  lock_fails holding e = refl
  lock_fails outside e = cc
  lock_fails trying e = cc
  lock_fails waiting e = cc
  lock_fails asleep e = cc
  lock_fails notifying e = cc

  attempt_never_fails : m.place t ≡ trying → attempt_failed m t ≢ none
  attempt_never_fails here = by (m.owner_id == id_of t) refl
    where
      by :
          (b : Bool)
          → (m.owner_id == id_of t) ≡ b
          → (if b then none else some (move m t waiting)) ≢ none
      by true e =
          let held : trying ≡ holding = sym here ∙ o.owns t ((==_iff m.owner_id (id_of t)).0 e) in
          λ k. cc
      by false e = λ k. cc

  exchange_never_fails : (p : Place) → m.place t ≡ p → exchange_from m t p ≢ none
  exchange_never_fails trying here = by (m.owner_id == 0)
    where
      by : (b : Bool) → (if b then some (take_lock m t) else attempt_failed m t) ≢ none
      by true = λ k. cc
      by false = attempt_never_fails here
  exchange_never_fails outside here = λ k. cc
  exchange_never_fails waiting here = λ k. cc
  exchange_never_fails asleep here = λ k. cc
  exchange_never_fails holding here = λ k. cc
  exchange_never_fails notifying here = λ k. cc

  spurious_never_fails : (p : Place) → m.place t ≡ p → spurious_from m t p ≢ none
  spurious_never_fails trying here = attempt_never_fails here
  spurious_never_fails outside here = λ k. cc
  spurious_never_fails waiting here = λ k. cc
  spurious_never_fails asleep here = λ k. cc
  spurious_never_fails holding here = λ k. cc
  spurious_never_fails notifying here = λ k. cc

  unlock_never_fails : (p : Place) → m.place t ≡ p → unlock_from m t p ≢ none
  unlock_never_fails holding here = by (m.owner_id == id_of t) refl
    where
      by :
          (b : Bool)
          → (m.owner_id == id_of t) ≡ b
          → (if b then some (move (set_owner m 0) t notifying) else none) ≢ none
      by true e = λ k. cc
      by false e =
          let own : (m.owner_id == id_of t) ≡ true =
            (==_iff m.owner_id (id_of t)).1 (o.holds t here) in
          λ k. cc
  unlock_never_fails outside here = λ k. cc
  unlock_never_fails trying here = λ k. cc
  unlock_never_fails waiting here = λ k. cc
  unlock_never_fails asleep here = λ k. cc
  unlock_never_fails notifying here = λ k. cc

-- In every state that events lead to, the only event that fails an assertion is that a task with the
-- guard locks again: releasing the guard and failed attempts never do.
pub only_relock_fails :
    (m : Mutex) (e : Event)
    → Reach m
    → step m e ≡ none
    → (t : ℕ) × (e ≡ lock t) × (m.place t ≡ holding)
unfolding step
only_relock_fails m (lock t) r k = (t, refl, lock_fails m (Reach-Inv m r).owned t (m.place t) k)
only_relock_fails m (compare_exchange t) r k =
    absurd (exchange_never_fails m (Reach-Inv m r).owned t (m.place t) refl k)
only_relock_fails m (spurious_failure t) r k =
    absurd (spurious_never_fails m (Reach-Inv m r).owned t (m.place t) refl k)
only_relock_fails m (look_at_condition t) r k = cc
only_relock_fails m (force_unlock t) r k =
    absurd (unlock_never_fails m (Reach-Inv m r).owned t (m.place t) refl k)
only_relock_fails m (notify_one t) r k = cc
only_relock_fails m (try_lock t) r k = cc

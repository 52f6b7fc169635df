-- ===== src/Mutex/Wakeup.antt =====
-- What every sequence of events keeps: the guard is with the owner, and whenever the mutex is free and
-- tasks sleep, a task is on its way that will take it or wake one.
use chenlongos.Prelude.{
  ℕ, ◌≡◌, ◌≢◌, ◌⊎◌, inl, inr, refl, sym, ap, ◌∙◌, subst, Bool, true, false, Option, none, some,
  List, [], ◌∷◌, ◌++◌, ◌==◌, ==_iff, ℕ_discrete, if◌then◌else◌, update, update_self, update_ne,
  arith,
}
use chenlongos.Mutex.{
  Place, outside, trying, waiting, asleep, holding, notifying, Mutex, Event, lock, compare_exchange,
  spurious_failure, look_at_condition, force_unlock, notify_one, try_lock, move, set_owner, set_wq,
  new, id_of, take_lock, lock_from, attempt_failed, exchange_from, spurious_from, look_from,
  unlock_from, wake_first, notify_from, try_from, step, Reach, start, next,
}
use chenlongos.Mutex.Owner.{
  Owned, Sleepers, Sleepers-update_lacking, move-Owned, sleep-Owned, take_lock-Owned, unlock-Owned,
}

abbrev pub is_awake : Place → Bool
is_awake trying = true
is_awake waiting = true
is_awake notifying = true
is_awake outside = false
is_awake asleep = false
is_awake holding = false

-- If the mutex is free, nobody sleeps or somebody is awake who will see that.
abbrev pub Woken : Mutex → Type 0
Woken m = m.owner_id ≡ 0 → (m.wq ≡ []) ⊎ ((t : ℕ) × (is_awake (m.place t) ≡ true))

pub record Inv (m : Mutex) : Type 0 where
  pub owned : Owned m
  pub woken : Woken m

abbrev After : Option Mutex → Type 0
After o = (m' : Mutex) → o ≡ some m' → Inv m'

After-some : (m : Mutex) → Inv m → After (some m)
After-some m i m' e = let same : m ≡ m' = cc in subst (λ (x : Mutex). Inv x) same i

After-none : After none
After-none m' e = cc

apart : {p q : Place} (r : Place) → p ≡ q → q ≢ r → p ≢ r
apart r e h k = h (sym e ∙ k)

module _ (m : Mutex) (i : Inv m) (t : ℕ) where
  -- A task that is awake and without the guard moves to where it is awake.
  move-Inv :
      (p q : Place)
      → m.place t ≡ p
      → p ≢ holding
      → p ≢ asleep
      → q ≢ holding
      → is_awake q ≡ true
      → Inv (move m t q)
  move-Inv p q here h a there awake = record {
    owned = move-Owned m i.owned t q (apart holding here h) (apart asleep here a) there;
    woken = λ free. inr (t, ap is_awake (update_self m.place t q) ∙ awake);
  }

  taken-Inv : (p : Place) → m.place t ≡ p → p ≢ asleep → m.owner_id ≡ 0 → Inv (take_lock m t)
  taken-Inv p here a free = record {
    owned = take_lock-Owned m i.owned t free (apart asleep here a);
    woken = λ e. absurd (omega (arith, e));
  }

  lock-Inv : (p : Place) → m.place t ≡ p → After (lock_from m t p)
  lock-Inv outside here =
      After-some (move m t trying) (move-Inv outside trying here (λ e. cc) (λ e. cc) (λ e. cc) refl)
  lock-Inv holding here = After-none
  lock-Inv trying here = After-some m i
  lock-Inv waiting here = After-some m i
  lock-Inv asleep here = After-some m i
  lock-Inv notifying here = After-some m i

  failed-Inv : m.place t ≡ trying → After (attempt_failed m t)
  failed-Inv here = by (m.owner_id == id_of t)
    where
      by : (b : Bool) → After (if b then none else some (move m t waiting))
      by true = After-none
      by false =
          After-some (move m t waiting)
            (move-Inv trying waiting here (λ e. cc) (λ e. cc) (λ e. cc) refl)

  exchange-Inv : (p : Place) → m.place t ≡ p → After (exchange_from m t p)
  exchange-Inv trying here = by (m.owner_id == 0) refl
    where
      by :
          (b : Bool)
          → (m.owner_id == 0) ≡ b
          → After (if b then some (take_lock m t) else attempt_failed m t)
      by true e =
          After-some (take_lock m t) (taken-Inv trying here (λ k. cc) ((==_iff m.owner_id 0).0 e))
      by false e = failed-Inv here
  exchange-Inv outside here = After-some m i
  exchange-Inv waiting here = After-some m i
  exchange-Inv asleep here = After-some m i
  exchange-Inv holding here = After-some m i
  exchange-Inv notifying here = After-some m i

  spurious-Inv : (p : Place) → m.place t ≡ p → After (spurious_from m t p)
  spurious-Inv trying here = failed-Inv here
  spurious-Inv outside here = After-some m i
  spurious-Inv waiting here = After-some m i
  spurious-Inv asleep here = After-some m i
  spurious-Inv holding here = After-some m i
  spurious-Inv notifying here = After-some m i

  look-Inv : (p : Place) → m.place t ≡ p → Inv (look_from m t p)
  look-Inv waiting here = by (m.owner_id == 0) refl
    where
      by :
          (b : Bool)
          → (m.owner_id == 0) ≡ b
          → Inv (
              if (if b then false else true)
              then move (set_wq m (m.wq ++ t ∷ [])) t asleep
              else move m t trying)
      by true e = move-Inv waiting trying here (λ k. cc) (λ k. cc) (λ k. cc) refl
      by false e = record {
        owned =
            sleep-Owned m i.owned t (apart holding here (λ k. cc)) (apart asleep here (λ k. cc));
        woken = λ free. let zero_is : (m.owner_id == 0) ≡ true = (==_iff m.owner_id 0).1 free in cc;
      }
  look-Inv outside here = i
  look-Inv trying here = i
  look-Inv asleep here = i
  look-Inv holding here = i
  look-Inv notifying here = i

  unlock-Inv : (p : Place) → m.place t ≡ p → After (unlock_from m t p)
  unlock-Inv holding here = by (m.owner_id == id_of t)
    where
      by : (b : Bool) → After (if b then some (move (set_owner m 0) t notifying) else none)
      by true = After-some (move (set_owner m 0) t notifying) (record {
        owned = unlock-Owned m i.owned t here;
        woken = λ free. inr (t, ap is_awake (update_self m.place t notifying));
      })
      by false = After-none
  unlock-Inv outside here = After-some m i
  unlock-Inv trying here = After-some m i
  unlock-Inv waiting here = After-some m i
  unlock-Inv asleep here = After-some m i
  unlock-Inv notifying here = After-some m i

  try-Inv : (p : Place) → m.place t ≡ p → Inv (try_from m t p)
  try-Inv outside here = by (m.owner_id == 0) refl
    where
      by : (b : Bool) → (m.owner_id == 0) ≡ b → Inv (if b then take_lock m t else m)
      by true e = taken-Inv outside here (λ k. cc) ((==_iff m.owner_id 0).0 e)
      by false e = i
  try-Inv trying here = i
  try-Inv waiting here = i
  try-Inv asleep here = i
  try-Inv holding here = i
  try-Inv notifying here = i

-- The first of the sleepers is awake, and the others still sleep.
wake_first-Inv : (m : Mutex) (q : List ℕ) → Owned m → m.wq ≡ q → Inv (wake_first m q)
wake_first-Inv m [] o e = record { owned = o; woken = λ free. inl e }
wake_first-Inv m (u ∷ us) o e =
    let s : Sleepers m.place (u ∷ us) = subst (λ (q : List ℕ). Sleepers m.place q) e o.sleeps in
    record {
      owned = record {
        holds = woken_holds s.0;
        owns = λ v k.
            update_ne m.place u waiting
              (λ same. sleeping_owner s.0 (sym (ap m.place same) ∙ o.owns v k))
            ∙ o.owns v k;
        sleeps = Sleepers-update_lacking m.place u waiting us s.1 s.2;
      };
      woken = λ free. inr (u, ap is_awake (update_self m.place u waiting));
    }
  where
    sleeping_owner : m.place u ≡ asleep → m.place u ≢ holding
    sleeping_owner here k = let both : asleep ≡ holding = sym here ∙ k in cc

    woken_holds :
        m.place u ≡ asleep → (v : ℕ) → update m.place u waiting v ≡ holding → m.owner_id ≡ id_of v
    woken_holds here v k = elim (ℕ_discrete v u) [
      | yes same ↦
          let moved : waiting ≡ holding =
            sym (update_self m.place u waiting) ∙ sym (ap (update m.place u waiting) same) ∙ k in
          cc
      | no differs ↦ o.holds v (sym (update_ne m.place u waiting differs) ∙ k)
    ]

notify-Inv : (m : Mutex) (i : Inv m) (t : ℕ) (p : Place) → m.place t ≡ p → Inv (notify_from m t p)
notify-Inv m i t notifying here =
    wake_first-Inv (move m t outside) m.wq
      (move-Owned m i.owned t outside (apart holding here (λ k. cc)) (apart asleep here (λ k. cc))
        (λ k. cc))
      refl
notify-Inv m i t outside here = i
notify-Inv m i t trying here = i
notify-Inv m i t waiting here = i
notify-Inv m i t asleep here = i
notify-Inv m i t holding here = i

step-Inv : (m : Mutex) (e : Event) → Inv m → After (step m e)
unfolding step
step-Inv m (lock t) i = lock-Inv m i t (m.place t) refl
step-Inv m (compare_exchange t) i = exchange-Inv m i t (m.place t) refl
step-Inv m (spurious_failure t) i = spurious-Inv m i t (m.place t) refl
step-Inv m (look_at_condition t) i =
    After-some (look_from m t (m.place t)) (look-Inv m i t (m.place t) refl)
step-Inv m (force_unlock t) i = unlock-Inv m i t (m.place t) refl
step-Inv m (notify_one t) i =
    After-some (notify_from m t (m.place t)) (notify-Inv m i t (m.place t) refl)
step-Inv m (try_lock t) i = After-some (try_from m t (m.place t)) (try-Inv m i t (m.place t) refl)

new-Inv : Inv new
new-Inv = record {
  owned = record {
    holds = λ t e. let absurd_place : outside ≡ holding = e in cc;
    owns = λ t e. absurd (omega (arith, e));
    sleeps = tt;
  };
  woken = λ free. inl refl;
}

pub Reach-Inv : (m : Mutex) → Reach m → Inv m
Reach-Inv m start = new-Inv
Reach-Inv m (next {m = k} r e h) = step-Inv k e (Reach-Inv k r) m h

-- Mutual exclusion: in every state that events lead to, two tasks that have the guard are one.
pub guards_exclude :
    (m : Mutex) (t u : ℕ) → Reach m → m.place t ≡ holding → m.place u ≡ holding → t ≡ u
guards_exclude m t u r at_t at_u =
    let o = (Reach-Inv m r).owned in omega (arith, o.holds t at_t, o.holds u at_u)

-- No wake-up is lost: in every state that events lead to, if the mutex is free, then no task sleeps in
-- the wait queue, or some task is awake on its way to take the mutex or to wake a sleeper.
pub no_lost_wakeup :
    (m : Mutex) → Reach m → m.owner_id ≡ 0 → (m.wq ≡ []) ⊎ ((t : ℕ) × (is_awake (m.place t) ≡ true))
no_lost_wakeup m r free = (Reach-Inv m r).woken free

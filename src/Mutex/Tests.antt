-- ===== src/Mutex/Tests.antt =====
-- Two tasks at one mutex.
use chenlongos.Prelude.{
  subst, update, >>=-eq-some, ℕ, ◌≡◌, ◌⊎◌, refl, true, Option, none, some, List, [], ◌∷◌, ◌>>=◌,
}
use chenlongos.Mutex.{
  Place, asleep, trying, waiting, notifying, holding, Mutex, Event, lock, compare_exchange,
  look_at_condition, force_unlock, notify_one, try_lock, new, step, Reach, start, next, take_lock,
  notifying,
}
use chenlongos.Mutex.Wakeup.{guards_exclude, no_lost_wakeup, is_awake}

abbrev run : Mutex → List Event → Option Mutex
run m [] = some m
run m (e ∷ es) = step m e >>= λ n. run n es

abbrev place_of : ℕ → Option Mutex → Option Place
place_of t none = none
place_of t (some m) = some (m.place t)

-- One task takes the mutex, the other goes to sleep, is woken when it is released, and takes it.
handed_over :
    place_of 1 (
      run new (
        try_lock 0
        ∷ lock 1
        ∷ compare_exchange 1
        ∷ look_at_condition 1
        ∷ force_unlock 0
        ∷ notify_one 0
        ∷ look_at_condition 1
        ∷ compare_exchange 1
        ∷ []))
    ≡ some holding
unfolding step
handed_over = refl

abbrev one_taken : Mutex
one_taken = take_lock new 0

one_taken-Reach : Reach one_taken
unfolding step
one_taken-Reach = next start (try_lock 0) refl

run-Reach : (m m' : Mutex) (es : List Event) → Reach m → run m es ≡ some m' → Reach m'
run-Reach m m' [] r e = let same : m ≡ m' = cc in subst (λ (x : Mutex). Reach x) same r
run-Reach m m' (e ∷ es) r h =
    let first = >>=-eq-some (step m e) (λ n. run n es) h in
    run-Reach first.0 m' es (next r e first.1) first.2

-- Released while another task sleeps.
abbrev released : Mutex
released = record {
  owner_id = 0;
  wq = 1 ∷ [];
  place = update (update (update (update one_taken.place 1 trying) 1 waiting) 1 asleep) 0 notifying;
}

released-Reach : Reach released
unfolding step
released-Reach =
    run-Reach new released
      (try_lock 0
        ∷ lock 1
        ∷ compare_exchange 1
        ∷ look_at_condition 1
        ∷ force_unlock 0
        ∷ notify_one 9
        ∷ [])
      start refl

guards_exclude_example : ◌≡◌ {A = ℕ} 0 0
guards_exclude_example = guards_exclude one_taken 0 0 one_taken-Reach refl refl

no_lost_wakeup_example : (released.wq ≡ []) ⊎ ((t : ℕ) × (is_awake (released.place t) ≡ true))
no_lost_wakeup_example = no_lost_wakeup released released-Reach refl

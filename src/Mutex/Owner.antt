-- ===== src/Mutex/Owner.antt =====
-- Who owns the mutex, and who sleeps in its wait queue.
use chenlongos.Prelude.{
  ℕ, ◌≡◌, ◌≢◌, sym, ap, ◌∙◌, List, [], ◌∷◌, ◌++◌, ℕ_discrete, update, update_self, update_ne, arith,
}
use chenlongos.Mutex.{
  Place, asleep, holding, notifying, Mutex, move, set_owner, set_wq, id_of, take_lock,
}

-- The tasks in the queue are asleep, and none stands in it twice.
abbrev pub Lacks : ℕ → List ℕ → Type 0
Lacks t [] = Unit
Lacks t (u ∷ us) = (u ≢ t) × Lacks t us

abbrev pub Sleepers : (ℕ → Place) → List ℕ → Type 0
Sleepers place [] = Unit
Sleepers place (u ∷ us) = (place u ≡ asleep) × Lacks u us × Sleepers place us

-- The task with the guard is the owner, and the owner has the guard.
pub record Owned (m : Mutex) : Type 0 where
  pub holds : (t : ℕ) → m.place t ≡ holding → m.owner_id ≡ id_of t
  pub owns : (t : ℕ) → m.owner_id ≡ id_of t → m.place t ≡ holding
  pub sleeps : Sleepers m.place m.wq

module _ (place : ℕ → Place) (t : ℕ) (p : Place) where
  pub Sleepers-update_lacking :
      (q : List ℕ) → Lacks t q → Sleepers place q → Sleepers (update place t p) q
  Sleepers-update_lacking [] l s = tt
  Sleepers-update_lacking (u ∷ us) (apart, l) (here, alone, rest) =
      (update_ne place t p apart ∙ here, alone, Sleepers-update_lacking us l rest)

  -- A task that is not asleep is not in the queue.
  Lacks-awake : (q : List ℕ) → place t ≢ asleep → Sleepers place q → Lacks t q
  Lacks-awake [] h s = tt
  Lacks-awake (u ∷ us) h (here, alone, rest) =
      ((λ e. h (sym (ap place e) ∙ here)), Lacks-awake us h rest)

  pub Sleepers-update :
      (q : List ℕ) → place t ≢ asleep → Sleepers place q → Sleepers (update place t p) q
  Sleepers-update q h s = Sleepers-update_lacking q (Lacks-awake q h s) s

Lacks-append : (t u : ℕ) (q : List ℕ) → Lacks t q → u ≢ t → Lacks t (q ++ u ∷ [])
Lacks-append t u [] l h = (h, tt)
Lacks-append t u (v ∷ vs) (apart, l) h = (apart, Lacks-append t u vs l h)

Sleepers-append :
    (place : ℕ → Place) (t : ℕ) (q : List ℕ)
    → place t ≡ asleep
    → Lacks t q
    → Sleepers place q
    → Sleepers place (q ++ t ∷ [])
Sleepers-append place t [] h l s = (h, tt, tt)
Sleepers-append place t (u ∷ us) h (apart, l) (here, alone, rest) =
    (here, Lacks-append u t us alone (λ e. apart (sym e)), Sleepers-append place t us h l rest)

module _ (m : Mutex) (o : Owned m) (t : ℕ) where
  -- A move of a task that neither has nor takes the guard.
  move-holds :
      (p : Place)
      → m.place t ≢ holding
      → p ≢ holding
      → (u : ℕ) → (move m t p).place u ≡ holding
      → m.place u ≡ holding
  move-holds p here there u e = elim (ℕ_discrete u t) [
    | yes same ↦
        absurd (there (sym (update_self m.place t p) ∙ sym (ap (update m.place t p) same) ∙ e))
    | no apart ↦ sym (update_ne m.place t p apart) ∙ e
  ]

  move-owns :
      (p : Place)
      → m.place t ≢ holding
      → (u : ℕ) → m.place u ≡ holding
      → (move m t p).place u ≡ holding
  move-owns p here u e = update_ne m.place t p (λ same. here (sym (ap m.place same) ∙ e)) ∙ e

  -- A task other than a sleeper and the holder moves to another such place.
  pub move-Owned :
      (p : Place) → m.place t ≢ holding → m.place t ≢ asleep → p ≢ holding → Owned (move m t p)
  move-Owned p here awake there = record {
    holds = λ u e. o.holds u (move-holds p here there u e);
    owns = λ u e. move-owns p here u (o.owns u e);
    sleeps = Sleepers-update m.place t p m.wq awake o.sleeps;
  }

  -- It goes to sleep at the end of the queue.
  pub sleep-Owned :
      m.place t ≢ holding → m.place t ≢ asleep → Owned (move (set_wq m (m.wq ++ t ∷ [])) t asleep)
  sleep-Owned here awake = record {
    holds = λ u e. o.holds u (move-holds asleep here (λ e. cc) u e);
    owns = λ u e. move-owns asleep here u (o.owns u e);
    sleeps =
        Sleepers-append (update m.place t asleep) t m.wq (update_self m.place t asleep)
          (Lacks-awake m.place t asleep m.wq awake o.sleeps)
          (Sleepers-update m.place t asleep m.wq awake o.sleeps);
  }

  -- It takes the free mutex.
  pub take_lock-Owned : m.owner_id ≡ 0 → m.place t ≢ asleep → Owned (take_lock m t)
  take_lock-Owned free awake = record {
    holds = λ u e. elim (ℕ_discrete u t) [
      | yes same ↦ ap id_of (sym same)
      | no apart ↦
          absurd (omega (arith, free, o.holds u (sym (update_ne m.place t holding apart) ∙ e)))
    ];
    owns = λ u e.
        let same : u ≡ t = omega (arith, e) in
        ap (update m.place t holding) same ∙ update_self m.place t holding;
    sleeps = Sleepers-update m.place t holding m.wq awake o.sleeps;
  }

  -- It gives it back.
  pub unlock-Owned : m.place t ≡ holding → Owned (move (set_owner m 0) t notifying)
  unlock-Owned here = record {
    holds = λ u e. elim (ℕ_discrete u t) [
      | yes same ↦
          let moved : notifying ≡ holding =
            sym (update_self m.place t notifying)
            ∙ sym (ap (update m.place t notifying) same)
            ∙ e in
          cc
      | no apart ↦
          let other : m.owner_id ≡ id_of u =
            o.holds u (sym (update_ne m.place t notifying apart) ∙ e) in
          absurd (apart (omega (arith, other, o.holds t here)))
    ];
    owns = λ u e. absurd (omega (arith, e));
    sleeps =
        Sleepers-update m.place t notifying m.wq
          (λ e. let both : holding ≡ asleep = sym here ∙ e in cc) o.sleeps;
  }

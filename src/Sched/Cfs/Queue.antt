-- ===== src/Sched/Cfs/Queue.antt =====
-- The ready queue of crates/scheduler/src/cfs.rs as a map in the order of its keys.
use chenlongos.Prelude.{
  ℕ, ◌+◌, ◌≡◌, ◌≢◌, ◌<◌, refl, ap, ◌∙◌, Bool, true, false, Option, none, some, List, [], ◌∷◌, Perm,
  perm_middle, if-true, if-false, ==_iff, if◌then◌else◌, arith,
}
use mathlib.Core.List.Perm
use chenlongos.Sched.Cfs.{Entry, before, same_key, insert, find_key, remove_key}

abbrev pub tasks : List Entry → List ℕ
tasks [] = []
tasks (e ∷ r) = e.task ∷ tasks r

-- Every ID in the queue is below `n`.
abbrev pub IdsBelow : ℕ → List Entry → Type 0
IdsBelow n [] = Unit {0}
IdsBelow n (e ∷ r) = (e.id < n) × IdsBelow n r

-- The key of `e` is below every key of the list.
abbrev pub Least : Entry → List Entry → Type 0
Least e [] = Unit {0}
Least e (d ∷ r) = (before e d ≡ true) × Least e r

abbrev pub Sorted : List Entry → Type 0
Sorted [] = Unit {0}
Sorted (e ∷ r) = Least e r × Sorted r

pub IdsBelow-suc : (n : ℕ) (q : List Entry) → IdsBelow n q → IdsBelow (n + 1) q
IdsBelow-suc n [] h = tt
IdsBelow-suc n (e ∷ r) h = (omega (arith, h.0), IdsBelow-suc n r h.1)

before_trans : (a b c : Entry) → before a b ≡ true → before b c ≡ true → before a c ≡ true
before_trans a b c h k = ground arith

pub Least-before : (a b : Entry) (q : List Entry) → before a b ≡ true → Least b q → Least a q
Least-before a b [] h k = tt
Least-before a b (d ∷ r) h k = (before_trans a b d h k.0, Least-before a b r h k.1)

-- What holds of the result of every branch of `insert`.
by_branch :
    {A : Type 0} (P : A → Type 0) (b c : Bool) {x y z : A}
    → (b ≡ true → P x)
    → (b ≡ false → c ≡ true → P y)
    → (b ≡ false → c ≡ false → P z)
    → P (if b then x else (if c then y else z))
by_branch P true c h k l = h refl
by_branch P false true h k l = k refl refl
by_branch P false false h k l = l refl refl

insert-Least : (a e : Entry) (q : List Entry) → before a e ≡ true → Least a q → Least a (insert e q)
insert-Least a e [] h k = (h, tt)
insert-Least a e (d ∷ r) h k =
    by_branch (Least a) (before e d) (same_key e.vruntime e.id d) (λ b. (h, k)) (λ b c. (h, k.1))
      (λ b c. (k.0, insert-Least a e r h k.1))

same-before :
    (e d a : Entry) → same_key e.vruntime e.id d ≡ true → before d a ≡ true → before e a ≡ true
same-before e d a h k = ground arith

same-Least :
    (e d : Entry) (q : List Entry) → same_key e.vruntime e.id d ≡ true → Least d q → Least e q
same-Least e d [] h k = tt
same-Least e d (a ∷ r) h k = (same-before e d a h k.0, same-Least e d r h k.1)

before_total :
    (e d : Entry) → before e d ≡ false → same_key e.vruntime e.id d ≡ false → before d e ≡ true
before_total e d h k = ground arith

pub insert-Sorted : (e : Entry) (q : List Entry) → Sorted q → Sorted (insert e q)
insert-Sorted e [] h = (tt, tt)
insert-Sorted e (d ∷ r) h =
    by_branch Sorted (before e d) (same_key e.vruntime e.id d)
      (λ b. ((b, Least-before e d r b h.0), h)) (λ b c. (same-Least e d r c h.0, h.1))
      (λ b c. (insert-Least d e r (before_total e d b c) h.0, insert-Sorted e r h.1))

fresh : (e d : Entry) → d.id < e.id → same_key e.vruntime e.id d ≢ true
fresh e d h k = ground arith

pub insert-Perm :
    (e : Entry) (q : List Entry) → IdsBelow e.id q → Perm (tasks (insert e q)) (e.task ∷ tasks q)
insert-Perm e [] h = perm_middle [] []
insert-Perm e (d ∷ r) h =
    by_branch (λ q. Perm (tasks q) (e.task ∷ d.task ∷ tasks r)) (before e d)
      (same_key e.vruntime e.id d) (λ b. perm_middle [] (d.task ∷ tasks r))
      (λ b c. absurd (fresh e d h.0 c))
      (λ b c.
        Perm.trans (Perm.cons d.task (insert-Perm e r h.1)) (Perm.swap e.task d.task (tasks r)))

pub insert-IdsBelow :
    (n : ℕ) (e : Entry) (q : List Entry) → e.id < n → IdsBelow n q → IdsBelow n (insert e q)
insert-IdsBelow n e [] h k = (h, tt)
insert-IdsBelow n e (d ∷ r) h k =
    by_branch (IdsBelow n) (before e d) (same_key e.vruntime e.id d) (λ b. (h, k)) (λ b c. (h, k.1))
      (λ b c. (k.0, insert-IdsBelow n e r h k.1))

one_branch :
    {A : Type 0} (P : A → Type 0) (b : Bool) {x y : A}
    → (b ≡ true → P x)
    → (b ≡ false → P y)
    → P (if b then x else y)
one_branch P true h k = h refl
one_branch P false h k = k refl

remove_key-Least : (a : Entry) (v i : ℕ) (q : List Entry) → Least a q → Least a (remove_key v i q)
remove_key-Least a v i [] k = tt
remove_key-Least a v i (d ∷ r) k =
    one_branch (Least a) (same_key v i d) (λ e. k.1) (λ e. (k.0, remove_key-Least a v i r k.1))

pub remove_key-Sorted : (v i : ℕ) (q : List Entry) → Sorted q → Sorted (remove_key v i q)
remove_key-Sorted v i [] k = tt
remove_key-Sorted v i (d ∷ r) k =
    one_branch Sorted (same_key v i d) (λ e. k.1)
      (λ e. (remove_key-Least d v i r k.0, remove_key-Sorted v i r k.1))

pub remove_key-IdsBelow :
    (n v i : ℕ) (q : List Entry) → IdsBelow n q → IdsBelow n (remove_key v i q)
remove_key-IdsBelow n v i [] k = tt
remove_key-IdsBelow n v i (d ∷ r) k =
    one_branch (IdsBelow n) (same_key v i d) (λ e. k.1)
      (λ e. (k.0, remove_key-IdsBelow n v i r k.1))

-- What `remove_entry` found is what it takes out.
abbrev pub TakenOut : List ℕ → List ℕ → Option ℕ → Type 0
TakenOut before_it after none = Unit {0}
TakenOut before_it after (some t) = Perm before_it (t ∷ after)

skipped : (x : ℕ) (xs ys : List ℕ) (o : Option ℕ) → TakenOut xs ys o → TakenOut (x ∷ xs) (x ∷ ys) o
skipped x xs ys none h = tt
skipped x xs ys (some t) h = Perm.trans (Perm.cons x h) (Perm.swap t x ys)

pub remove_key-TakenOut :
    (v i : ℕ) (q : List Entry) → TakenOut (tasks q) (tasks (remove_key v i q)) (find_key v i q)
remove_key-TakenOut v i [] = tt
remove_key-TakenOut v i (d ∷ r) = taken_by (same_key v i d) (remove_key-TakenOut v i r)
  where
    taken_by :
        (b : Bool)
        → TakenOut (tasks r) (tasks (remove_key v i r)) (find_key v i r)
        → TakenOut
            (d.task ∷ tasks r)
            (tasks (if b then r else d ∷ remove_key v i r))
            (if b then some d.task else find_key v i r)
    taken_by true h = Perm.refl _
    taken_by false h = skipped d.task (tasks r) (tasks (remove_key v i r)) (find_key v i r) h

pub insert-found :
    (e : Entry) (q : List Entry)
    → IdsBelow e.id q
    → find_key e.vruntime e.id (insert e q) ≡ some e.task
insert-found e [] h = if-true (some e.task) none (ground arith)
insert-found e (d ∷ r) h =
    by_branch (λ q. find_key e.vruntime e.id q ≡ some e.task) (before e d)
      (same_key e.vruntime e.id d)
      (λ b. if-true (some e.task) (find_key e.vruntime e.id (d ∷ r)) (ground arith))
      (λ b c. absurd (fresh e d h.0 c))
      (λ b c.
        if-false (some d.task) (find_key e.vruntime e.id (insert e r)) c ∙ insert-found e r h.1)

pub insert-removed :
    (e : Entry) (q : List Entry) → IdsBelow e.id q → remove_key e.vruntime e.id (insert e q) ≡ q
insert-removed e [] h = if-true [] (e ∷ []) (ground arith)
insert-removed e (d ∷ r) h =
    by_branch (λ q. remove_key e.vruntime e.id q ≡ d ∷ r) (before e d) (same_key e.vruntime e.id d)
      (λ b. if-true (d ∷ r) (e ∷ remove_key e.vruntime e.id (d ∷ r)) (ground arith))
      (λ b c. absurd (fresh e d h.0 c))
      (λ b c.
        if-false (insert e r) (d ∷ remove_key e.vruntime e.id (insert e r)) c
        ∙ ap (λ q. d ∷ q) (insert-removed e r h.1))

other_key : (e : Entry) (v : ℕ) → v ≢ e.vruntime → same_key v e.id e ≡ false
other_key e v ne = ground (arith, ==_iff v e.vruntime)

other_id : (v i : ℕ) (d : Entry) → d.id < i → same_key v i d ≡ false
other_id v i d h = ground arith

pub ids_unfound : (v i : ℕ) (q : List Entry) → IdsBelow i q → find_key v i q ≡ none
ids_unfound v i [] h = refl
ids_unfound v i (d ∷ r) h =
    if-false (some d.task) (find_key v i r) (other_id v i d h.0) ∙ ids_unfound v i r h.1

pub insert-unfound :
    (e : Entry) (v : ℕ) (q : List Entry)
    → v ≢ e.vruntime
    → IdsBelow e.id q
    → find_key v e.id (insert e q) ≡ none
insert-unfound e v [] ne h = if-false (some e.task) none (other_key e v ne)
insert-unfound e v (d ∷ r) ne h =
    by_branch (λ q. find_key v e.id q ≡ none) (before e d) (same_key e.vruntime e.id d)
      (λ b.
        if-false (some e.task) (find_key v e.id (d ∷ r)) (other_key e v ne)
        ∙ ids_unfound v e.id (d ∷ r) h)
      (λ b c. absurd (fresh e d h.0 c))
      (λ b c.
        if-false (some d.task) (find_key v e.id (insert e r)) (other_id v e.id d h.0)
        ∙ insert-unfound e v r ne h.1)

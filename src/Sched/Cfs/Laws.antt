-- ===== src/Sched/Cfs/Laws.antt =====
-- What the operations of crates/scheduler/src/cfs.rs do to the ready queue and to run times.
use chenlongos.Prelude.{
  ℕ, zero, suc, ◌+◌, length, ◌&&◌, ◌*◌, ◌/◌, ◌≡◌, ◌<◌, refl, sym, ap, ◌∙◌, subst, Bool, true, false,
  Option, none, some, List, [], ◌∷◌, Perm, update, ltb, get_elem?, arith,
}
use native.Mathlib.Nat.{zero-div}
use chenlongos.Prelude.Int.{ℤ, pos, negsuc}
use chenlongos.Sched.Cfs.{
  Entry, CfScheduler, get_weight, nice2weight_pos, nice2weight_neg, weighted, vruntime_of, insert,
  pop_first, pick_next_task, put_at, put_prev_task, in_range,
}
use chenlongos.Sched.Cfs.Queue.{
  tasks, IdsBelow, Least, Sorted, IdsBelow-suc, insert-Sorted, insert-Perm, insert-IdsBelow,
}

-- The queue is in the order of its keys, its IDs were given out, and priorities are in range.
pub record Ordered (q : CfScheduler) : Type 0 where
  pub sorted : Sorted q.ready_queue
  pub ids : IdsBelow q.id_pool q.ready_queue
  pub nices : (t : ℕ) → in_range (q.nice t) ≡ true

abbrev pub waiting : CfScheduler → List ℕ
waiting q = tasks q.ready_queue

abbrev all_positive : List ℕ → Bool
all_positive [] = true
all_positive (x ∷ xs) = ltb 0 x && all_positive xs

positive-suc : (x : ℕ) (b : Bool) → (ltb 0 x && b) ≡ true → (w : ℕ) × (x ≡ suc w)
positive-suc zero b h = absurd (ground (arith, h))
positive-suc (suc w) b h = (w, refl)

positive_rest : (x : ℕ) (b : Bool) → (ltb 0 x && b) ≡ true → b ≡ true
positive_rest x true h = refl
positive_rest x false h = absurd (ground (arith, h))

entry_positive :
    (xs : List ℕ) (n : ℕ)
    → all_positive xs ≡ true
    → n < length xs
    → (w : ℕ) × (get_elem? xs n ≡ some (suc w))
entry_positive [] n h k = absurd (omega (arith, k))
entry_positive (x ∷ xs) zero h k = let p = positive-suc x (all_positive xs) h in (p.0, ap some p.1)
entry_positive (x ∷ xs) (suc n) h k =
    entry_positive xs n (positive_rest x (all_positive xs) h) (omega (arith, k))

weight_positive : (n : ℤ) → in_range n ≡ true → (w : ℕ) × (get_weight n ≡ some (suc w))
weight_positive (pos n) h = entry_positive nice2weight_pos n refl (ground (arith, h))
weight_positive (negsuc n) h = entry_positive nice2weight_neg (suc n) refl (ground (arith, h))

pub vruntime_total :
    (init delta : ℕ) (n : ℤ) → in_range n ≡ true → (v : ℕ) × (vruntime_of init delta n ≡ some v)
vruntime_total init delta (pos zero) h = (init + delta, refl)
vruntime_total init delta (pos (suc n)) h =
    let w = weight_positive (pos (suc n)) h in
    (init + delta * 1024 / suc w.0, ap (weighted init delta) w.1)
vruntime_total init delta (negsuc n) h =
    let w = weight_positive (negsuc n) h in
    (init + delta * 1024 / suc w.0, ap (weighted init delta) w.1)

zero_div : (w : ℕ) → 0 * 1024 / suc w ≡ 0
zero_div w = zero-div (suc w)

-- Without ticks since it was set, the run time is what was set.
pub vruntime_set : (v : ℕ) (n : ℤ) → in_range n ≡ true → vruntime_of v 0 n ≡ some v
vruntime_set v (pos zero) h = ap some (omega arith)
vruntime_set v (pos (suc n)) h =
    let w = weight_positive (pos (suc n)) h in
    ap (weighted v 0) w.1 ∙ ap some (ap (λ x. v + x) (zero_div w.0) ∙ omega arith)
vruntime_set v (negsuc n) h =
    let w = weight_positive (negsuc n) h in
    ap (weighted v 0) w.1 ∙ ap some (ap (λ x. v + x) (zero_div w.0) ∙ omega arith)

pub inserted-Ordered :
    (q : CfScheduler) (v t : ℕ)
    → Ordered q
    → (q' : CfScheduler)
    → q'.ready_queue ≡ insert (record { vruntime = v; id = q.id_pool; task = t }) q.ready_queue
    → q'.id_pool ≡ q.id_pool + 1
    → q'.nice ≡ q.nice
    → Ordered q'
inserted-Ordered q v t o q' e f g =
    let entry : Entry = record { vruntime = v; id = q.id_pool; task = t } in
    record {
      sorted = subst Sorted (sym e) (insert-Sorted entry q.ready_queue o.sorted);
      ids =
          subst (λ n. IdsBelow n q'.ready_queue) (sym f)
            (subst (IdsBelow (q.id_pool + 1)) (sym e) (
              insert-IdsBelow (q.id_pool + 1) entry q.ready_queue (omega arith)
                (IdsBelow-suc q.id_pool q.ready_queue o.ids)));
      nices = λ u. ap (λ n. in_range (n u)) g ∙ o.nices u;
    }

-- A task that is put back is waiting with all that were, and the queue stays in order.
pub put_prev_task-Ordered :
    (q : CfScheduler) (t : ℕ) (preempt : Bool)
    → Ordered q
    → (q' : CfScheduler) × (put_prev_task q t preempt ≡ some q')
      × Perm (waiting q') (t ∷ waiting q)
      × Ordered q'
unfolding put_prev_task
put_prev_task-Ordered q t preempt o =
    let v = vruntime_total (q.init_vruntime t) (q.delta t) (q.nice t) (o.nices t) in
    let entry : Entry = record { vruntime = v.0; id = q.id_pool; task = t } in
    (
      record q {
        ready_queue = insert entry q.ready_queue;
        id_pool = q.id_pool + 1;
        id = update q.id t q.id_pool;
      },
      ap (put_at q t) v.1,
      insert-Perm entry q.ready_queue o.ids,
      inserted-Ordered q v.0 t o _ refl refl refl,
    )

-- What is picked: the task that waits under the least key, or nothing if none waits.
abbrev pub Picked : CfScheduler → Option (ℕ × CfScheduler) → Type 0
Picked q none = waiting q ≡ []
Picked q (some (t, q')) =
    (waiting q ≡ t ∷ waiting q')
    × ((e : Entry) × (e.task ≡ t) × Least e q'.ready_queue)
    × Ordered q'

popped-Picked :
    (q : CfScheduler) (l : List Entry) → q.ready_queue ≡ l → Ordered q → Picked q (pop_first q l)
popped-Picked q [] e o = ap tasks e
popped-Picked q (d ∷ r) e o =
    let sorted : Sorted (d ∷ r) = subst Sorted e o.sorted in
    let ids : IdsBelow q.id_pool (d ∷ r) = subst (IdsBelow q.id_pool) e o.ids in
    (ap tasks e, (d, refl, sorted.0), record { sorted = sorted.1; ids = ids.1; nices = o.nices })

pub pick_next_task_lem : (q : CfScheduler) → Ordered q → Picked q (pick_next_task q)
unfolding pick_next_task
pick_next_task_lem q o = popped-Picked q q.ready_queue refl o

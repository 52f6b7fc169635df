-- ===== src/Sched/Cfs/Keys.antt =====
-- The keys of tasks in crates/scheduler/src/cfs.rs: what priorities and additions do to them.
use chenlongos.Prelude.{
  ℕ, ◌+◌, ◌≡◌, ◌<◌, refl, sym, ap, ◌∙◌, subst, true, false, none, some, update, update_self,
  update_ne, ℕ_discrete, Bool-cases, inl, inr, if-true, if-false, arith,
}
use chenlongos.Prelude.Int.{ℤ, pos}
use chenlongos.Sched.Cfs.{
  Entry, CfScheduler, vruntime_of, get_vruntime, insert, find_key, min_or_zero, add_task,
  remove_found, remove_at, remove_task, in_range, prioritised, set_priority,
}
use chenlongos.Sched.Cfs.Queue.{insert-found, insert-removed, insert-unfound}
use chenlongos.Sched.Cfs.Laws.{Ordered, vruntime_total, vruntime_set}

-- The run times after `set_priority` of task `t`, whose run time was `v`.
set_vruntime :
    (q : CfScheduler) (t v : ℕ) (prio : ℤ)
    → in_range prio ≡ true
    → get_vruntime q t ≡ some v
    → (u : ℕ)
    → vruntime_of (update q.init_vruntime t v u) (update q.delta t 0 u) (update q.nice t prio u)
      ≡ get_vruntime q u
set_vruntime q t v prio h e u = elim (ℕ_discrete u t) [
  | yes same ↦
      subst
        (λ x.
          vruntime_of (update q.init_vruntime t v x) (update q.delta t 0 x) (update q.nice t prio x)
          ≡ get_vruntime q x)
        (sym same)
        (ap (λ x. vruntime_of x (update q.delta t 0 t) (update q.nice t prio t))
            (update_self q.init_vruntime t v)
          ∙ ap (λ x. vruntime_of v x (update q.nice t prio t)) (update_self q.delta t 0)
          ∙ ap (vruntime_of v 0) (update_self q.nice t prio)
          ∙ vruntime_set v prio h
          ∙ sym e)
  | no other ↦
      ap (λ x. vruntime_of x (update q.delta t 0 u) (update q.nice t prio u))
        (update_ne q.init_vruntime t v other)
      ∙ ap (λ x. vruntime_of (q.init_vruntime u) x (update q.nice t prio u))
          (update_ne q.delta t 0 other)
      ∙ ap (vruntime_of (q.init_vruntime u) (q.delta u)) (update_ne q.nice t prio other)
]

set_nice :
    (q : CfScheduler) (t : ℕ) (prio : ℤ)
    → in_range prio ≡ true
    → ((u : ℕ) → in_range (q.nice u) ≡ true)
    → (u : ℕ) → in_range (update q.nice t prio u) ≡ true
set_nice q t prio h all u = elim (ℕ_discrete u t) [
  | yes same ↦
      ap (λ x. in_range (update q.nice t prio x)) same ∙ ap in_range (update_self q.nice t prio) ∙ h
  | no other ↦ ap in_range (update_ne q.nice t prio other) ∙ all u
]

-- What `set_priority` does when its priority is in range.
accepted :
    (q : CfScheduler) (t : ℕ) (prio : ℤ)
    → in_range prio ≡ true
    → Ordered q
    → (q' : CfScheduler) × (prioritised q t prio (get_vruntime q t) ≡ some (q', true))
      × ((u : ℕ) → get_vruntime q' u ≡ get_vruntime q u)
      × (q'.ready_queue ≡ q.ready_queue)
      × Ordered q'
accepted q t prio h o =
    let v = vruntime_total (q.init_vruntime t) (q.delta t) (q.nice t) (o.nices t) in
    (
      record q {
        init_vruntime = update q.init_vruntime t v.0;
        delta = update q.delta t 0;
        nice = update q.nice t prio;
      },
      ap (prioritised q t prio) v.1,
      set_vruntime q t v.0 prio h v.1,
      refl,
      record { sorted = o.sorted; ids = o.ids; nices = set_nice q t prio h o.nices },
    )

-- `set_priority` takes exactly the priorities from -20 to 19. Whatever the priority, it panics never
-- and changes neither the queue nor the run time of any task, so that keys stay right.
pub set_priority_keeps_vruntimes :
    (q : CfScheduler) (t : ℕ) (prio : ℤ)
    → Ordered q
    → (q' : CfScheduler) × (set_priority q t prio ≡ some (q', in_range prio))
      × ((u : ℕ) → get_vruntime q' u ≡ get_vruntime q u)
      × (q'.ready_queue ≡ q.ready_queue)
      × Ordered q'
unfolding set_priority
set_priority_keeps_vruntimes q t prio o = elim (Bool-cases (in_range prio)) [
  | inl h ↦
      let a = accepted q t prio h o in
      (
        a.0,
        if-true (prioritised q t prio (get_vruntime q t)) (some (q, false)) h
            ∙ a.1
            ∙ ap (λ b. some (a.0, b)) (sym h),
        a.2,
        a.3,
        a.4,
      )
  | inr h ↦ (
    q,
    if-false (prioritised q t prio (get_vruntime q t)) (some (q, false)) h
        ∙ ap (λ b. some (q, b)) (sym h),
    λ u. refl,
    refl,
    o,
  )
]

abbrev added_entry : CfScheduler → ℕ → Entry
added_entry q t = record { vruntime = min_or_zero q.min_vruntime; id = q.id_pool; task = t }

-- Where `remove_task` looks for a task that was just added.
looked_up :
    (q : CfScheduler) (t v : ℕ)
    → vruntime_of (min_or_zero q.min_vruntime) (q.delta t) (q.nice t) ≡ some v
    → remove_task (add_task q t) t
      ≡ some (
          remove_found
            (add_task q t)
            v
            q.id_pool
            (find_key v q.id_pool (insert (added_entry q t) q.ready_queue)))
unfolding add_task remove_task
looked_up q t v e =
    let m = min_or_zero q.min_vruntime in
    ap
      (λ x.
        remove_at (add_task q t) (update q.id t q.id_pool t) (vruntime_of x (q.delta t) (q.nice t)))
      (update_self q.init_vruntime t m)
    ∙ ap (remove_at (add_task q t) (update q.id t q.id_pool t)) e
    ∙ ap (λ i. remove_at (add_task q t) i (some v)) (update_self q.id t q.id_pool)

-- A task that has not run since its run time was set is found again after it was added: taking it
-- out gives the queue as it was.
pub add-remove :
    (q : CfScheduler) (t : ℕ)
    → Ordered q
    → q.delta t ≡ 0
    → (q' : CfScheduler) × (remove_task (add_task q t) t ≡ some (q', some t))
      × (q'.ready_queue ≡ q.ready_queue)
unfolding add_task remove_task
add-remove q t o still =
    let m = min_or_zero q.min_vruntime in
    let set : vruntime_of m (q.delta t) (q.nice t) ≡ some m =
      ap (λ d. vruntime_of m d (q.nice t)) still ∙ vruntime_set m (q.nice t) (o.nices t) in
    (
      (remove_found (add_task q t) m q.id_pool (some t)).0,
      looked_up q t m set
          ∙ ap (λ f. some (remove_found (add_task q t) m q.id_pool f))
              (insert-found (added_entry q t) q.ready_queue o.ids),
      insert-removed (added_entry q t) q.ready_queue o.ids,
    )

-- A task of the default priority that has run is not found after it was added: its key has the least
-- run time, but its own run time has its ticks on top.
pub woken_task_lost :
    (q : CfScheduler) (t : ℕ)
    → Ordered q
    → q.nice t ≡ pos 0
    → 0 < q.delta t
    → remove_task (add_task q t) t ≡ some (add_task q t, none)
unfolding add_task remove_task
woken_task_lost q t o normal ran =
    let m = min_or_zero q.min_vruntime in
    looked_up q t (m + q.delta t) (ap (vruntime_of m (q.delta t)) normal)
    ∙ ap (λ f. some (remove_found (add_task q t) (m + q.delta t) q.id_pool f))
        (insert-unfound (added_entry q t) (m + q.delta t) q.ready_queue (λ e. omega (arith, e, ran))
          o.ids)

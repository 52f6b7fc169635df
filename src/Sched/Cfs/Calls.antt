-- ===== src/Sched/Cfs/Calls.antt =====
-- Calls of crates/scheduler/src/cfs.rs one after another.
use chenlongos.Prelude.{
  ℕ, ◌+◌, ◌≡◌, refl, ap, ◌∙◌, Bool, Option, none, some, List, [], ◌∷◌, Perm, update,
}
use chenlongos.Prelude.Int.{ℤ}
use chenlongos.Sched.Cfs.{
  CfScheduler, find_key, remove_key, min_or_zero, add_task, remove_found, remove_at, remove_task,
  pick_next_task, put_prev_task, exceeds, ticked, task_tick, set_priority,
}
use chenlongos.Sched.Cfs.Queue.{
  tasks, insert-Perm, remove_key-Sorted, remove_key-IdsBelow, TakenOut, remove_key-TakenOut,
}
use chenlongos.Sched.Cfs.Laws.{
  Ordered, waiting, vruntime_total, inserted-Ordered, put_prev_task-Ordered, pick_next_task_lem,
  Picked,
}
use chenlongos.Sched.Cfs.Keys.{set_priority_keeps_vruntimes}

pub data Call : Type 0 where
  add remove tick : ℕ → Call
  pick : Call
  put : ℕ → Bool → Call
  prioritise : ℕ → ℤ → Call

abbrev pub state_of {ℓ} : {A : Type ℓ} → Option (CfScheduler × A) → Option CfScheduler
state_of none = none
state_of (some (q, a)) = some q

abbrev pub picked_state : CfScheduler → Option (ℕ × CfScheduler) → CfScheduler
picked_state q none = q
picked_state q (some (t, q')) = q'

abbrev pub call : CfScheduler → Call → Option CfScheduler
call q (add t) = some (add_task q t)
call q (remove t) = state_of (remove_task q t)
call q (tick t) = state_of (task_tick q t)
call q pick = some (picked_state q (pick_next_task q))
call q (put t preempt) = put_prev_task q t preempt
call q (prioritise t prio) = state_of (set_priority q t prio)

abbrev pub bind : Option CfScheduler → (CfScheduler → Option CfScheduler) → Option CfScheduler
bind none f = none
bind (some q) f = f q

abbrev pub run : List Call → CfScheduler → Option CfScheduler
run [] q = some q
run (c ∷ cs) q = bind (call q c) (run cs)

-- A task that is added waits with all that did, and the queue stays in order.
pub add_task_lem :
    (q : CfScheduler) (t : ℕ)
    → Ordered q
    → Perm (waiting (add_task q t)) (t ∷ waiting q) × Ordered (add_task q t)
unfolding add_task
add_task_lem q t o =
    let v = min_or_zero q.min_vruntime in
    (
      insert-Perm (record { vruntime = v; id = q.id_pool; task = t }) q.ready_queue o.ids,
      inserted-Ordered q v t o _ refl refl refl,
    )

found-Ordered :
    (q : CfScheduler) (v i : ℕ) (f : Option ℕ) → Ordered q → Ordered (remove_found q v i f).0
found-Ordered q v i none o = o
found-Ordered q v i (some t) o = record {
  sorted = remove_key-Sorted v i q.ready_queue o.sorted;
  ids = remove_key-IdsBelow q.id_pool v i q.ready_queue o.ids;
  nices = o.nices;
}

found-TakenOut :
    (q : CfScheduler) (v i : ℕ) (f : Option ℕ)
    → TakenOut (waiting q) (tasks (remove_key v i q.ready_queue)) f
    → TakenOut (waiting q) (waiting (remove_found q v i f).0) (remove_found q v i f).1
found-TakenOut q v i none h = tt
found-TakenOut q v i (some t) h = h

-- `remove_task` never panics, and the task that it gives is the one it takes out of the queue.
pub remove_task_lem :
    (q : CfScheduler) (t : ℕ)
    → Ordered q
    → (q' : CfScheduler) × (r : Option ℕ) × (remove_task q t ≡ some (q', r))
      × TakenOut (waiting q) (waiting q') r
      × Ordered q'
unfolding remove_task
remove_task_lem q t o =
    let v = vruntime_total (q.init_vruntime t) (q.delta t) (q.nice t) (o.nices t) in
    let f = find_key v.0 (q.id t) q.ready_queue in
    (
      (remove_found q v.0 (q.id t) f).0,
      (remove_found q v.0 (q.id t) f).1,
      ap (remove_at q (q.id t)) v.1,
      found-TakenOut q v.0 (q.id t) f (remove_key-TakenOut v.0 (q.id t) q.ready_queue),
      found-Ordered q v.0 (q.id t) f o,
    )

ticked-Ordered :
    (q : CfScheduler) (t : ℕ) (least : Option ℕ)
    → Ordered q
    → (q' : CfScheduler) × (state_of (ticked q t least) ≡ some q') × Ordered q'
ticked-Ordered q t none o = (q, refl, o)
ticked-Ordered q t (some least) o =
    let v = vruntime_total (q.init_vruntime t) (q.delta t) (q.nice t) (o.nices t) in
    (q, ap (λ x. state_of (exceeds q least x)) v.1, o)

tick-Ordered :
    (q : CfScheduler) (t : ℕ)
    → Ordered q
    → (q' : CfScheduler) × (state_of (task_tick q t) ≡ some q') × Ordered q'
unfolding task_tick
tick-Ordered q t o =
    ticked-Ordered (record q { delta = update q.delta t (q.delta t + 1) }) t q.min_vruntime
      (record { sorted = o.sorted; ids = o.ids; nices = o.nices })

after_pick-Ordered :
    (q : CfScheduler) (r : Option (ℕ × CfScheduler))
    → Picked q r
    → Ordered q
    → Ordered (picked_state q r)
after_pick-Ordered q none p o = o
after_pick-Ordered q (some (t, q')) p o = p.2

call-Ordered :
    (q : CfScheduler) (c : Call)
    → Ordered q
    → (q' : CfScheduler) × (call q c ≡ some q') × Ordered q'
call-Ordered q (add t) o = (add_task q t, refl, (add_task_lem q t o).1)
call-Ordered q (remove t) o = let r = remove_task_lem q t o in (r.0, ap state_of r.2, r.4)
call-Ordered q (tick t) o = tick-Ordered q t o
call-Ordered q pick o = (
  picked_state q (pick_next_task q),
  refl,
  after_pick-Ordered q (pick_next_task q) (pick_next_task_lem q o) o,
)
call-Ordered q (put t preempt) o = let r = put_prev_task-Ordered q t preempt o in (r.0, r.1, r.3)
call-Ordered q (prioritise t prio) o =
    let r = set_priority_keeps_vruntimes q t prio o in (r.0, ap state_of r.1, r.4)

-- No sequence of calls panics, whatever tasks and priorities they are given, and the queue stays in
-- order: by run time and ID, with no ID that is still to be given out, and with priorities in range.
pub run-Ordered :
    (cs : List Call) (q : CfScheduler)
    → Ordered q
    → (q' : CfScheduler) × (run cs q ≡ some q') × Ordered q'
run-Ordered [] q o = (q, refl, o)
run-Ordered (c ∷ cs) q o =
    let s = call-Ordered q c o in
    let r = run-Ordered cs s.0 s.2 in (r.0, ap (λ x. bind x (run cs)) s.1 ∙ r.1, r.2)

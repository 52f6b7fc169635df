-- ===== src/Sched/RoundRobin/Laws.antt =====
-- The round-robin policy as a scheduler: its laws, and who runs next.
use chenlongos.Prelude.{
  ℕ, zero, suc, ◌≡◌, refl, sym, ◌∙◌, ◌⊎◌, Bool, true, false, Option, none, some, List, [], ◌∷◌,
  ◌++◌, Perm, append-nil, append_assoc, arith, length,
}
use mathlib.Core.List.Perm
use chenlongos.Prelude.Int.{pos}
use chenlongos.Sched.{BaseScheduler}
use chenlongos.Sched.RoundRobin.{
  RrScheduler, is_positive, new, add_task, remove_task, pick_next_task, put_prev_task, task_tick,
  set_priority,
}

-- `impl BaseScheduler for RrScheduler`
abbrev pub round_robin : ℕ → BaseScheduler
round_robin s = record {
  Queue = RrScheduler;
  waiting = λ q. q.ready_queue;
  new = new s;
  add_task = add_task;
  remove_task = remove_task;
  pick_next_task = pick_next_task;
  put_prev_task = put_prev_task;
  task_tick = task_tick;
  set_priority = set_priority;
}

-- A task that is preempted with some of its slice left is the next to run, with the same slice; one
-- that yields, or whose slice is used up, gets a full slice and goes behind every other.
pub put_prev_task_lem :
    (q : RrScheduler) (t : ℕ) (preempt : Bool)
    → let q' = put_prev_task q t preempt in
      ((is_positive (q.time_slice t) ≡ true
        → preempt ≡ true
        → (q'.ready_queue ≡ t ∷ q.ready_queue) × (q'.time_slice t ≡ q.time_slice t)))
      × ((is_positive (q.time_slice t) ≡ false) ⊎ (preempt ≡ false)
          → (q'.ready_queue ≡ q.ready_queue ++ (t ∷ [])) × (q'.time_slice t ≡ pos q.max_time_slice))
unfolding put_prev_task
put_prev_task_lem q t preempt = (λ a b. ground arith, λ h. ground arith)

-- The tasks that run in the next `n` turns, and the queue behind them.
pub turns : ℕ → RrScheduler → Option (List ℕ × RrScheduler)
turns zero q = some ([], q)
turns (suc n) q = elim (pick_next_task q) [
  | none ↦ none
  | some (t, q') ↦ elim (turns n (put_prev_task q' t false)) [
    | none ↦ none
    | some (ts, q'') ↦ some (t ∷ ts, q'')
  ]
]

put-yield :
    (q : RrScheduler) (t : ℕ) → (put_prev_task q t false).ready_queue ≡ q.ready_queue ++ (t ∷ [])
unfolding put_prev_task
put-yield q t = ground arith

pick-front :
    (q : RrScheduler) (t : ℕ) (ts : List ℕ)
    → q.ready_queue ≡ t ∷ ts
    → pick_next_task q ≡ some (t, record q { ready_queue = ts })
unfolding pick_next_task
pick-front q t ts e = rw e refl

turns-append :
    (xs ys : List ℕ) (q : RrScheduler)
    → q.ready_queue ≡ xs ++ ys
    → (q' : RrScheduler) × (turns (length xs) q ≡ some (xs, q')) × (q'.ready_queue ≡ ys ++ xs)
unfolding turns
turns-append [] ys q e = (q, refl, e ∙ sym (append-nil ys))
turns-append (x ∷ xs) ys q e =
    let (q', runs, order) =
      turns-append xs (ys ++ (x ∷ [])) (put_prev_task (record q { ready_queue = xs ++ ys }) x false)
        (put-yield _ x ∙ append_assoc xs ys (x ∷ [])) in
    (q', rw (turns, pick-front q x (xs ++ ys) e, runs) refl, order ∙ append_assoc ys (x ∷ []) xs)

-- If every task yields, then in as many turns as there are tasks waiting each runs once, in the
-- order of the queue, and the queue is back in its order.
pub turns_fair :
    (q : RrScheduler)
    → (q' : RrScheduler) × (turns (length q.ready_queue) q ≡ some (q.ready_queue, q'))
      × (q'.ready_queue ≡ q.ready_queue)
turns_fair q = turns-append q.ready_queue [] q (sym (append-nil q.ready_queue))

-- ===== src/Sched/Cfs/Tests.antt =====
-- The completely fair policy of crates/scheduler/src/cfs.rs on concrete queues.
use chenlongos.Prelude.{ℕ, ◌+◌, ◌≡◌, refl, true, false, none, some, List, [], ◌∷◌, arith}
use chenlongos.Prelude.Int.{pos, negsuc}
use chenlongos.Sched.Cfs.{CfScheduler, new, get_vruntime, add_task, remove_task, set_priority}
use chenlongos.Sched.Cfs.Laws.{Ordered}
use chenlongos.Sched.Cfs.Calls.{Call, add, remove, tick, pick, put, prioritise, run, run-Ordered}
use chenlongos.Sched.Cfs.Keys.{set_priority_keeps_vruntimes, woken_task_lost}

abbrev some_calls : List Call
some_calls =
    add 1 ∷ add 2 ∷ pick ∷ tick 1 ∷ put 1 false ∷ prioritise 2 (negsuc 4) ∷ remove 2 ∷ tick 7 ∷ []

new-Ordered : Ordered new
new-Ordered = record { sorted = tt; ids = tt; nices = λ t. refl }

-- Two tasks wait; each has run for five ticks since its run time was set.
abbrev two_waiting : CfScheduler
two_waiting = record {
  ready_queue =
      record { vruntime = 5; id = 3; task = 1 } ∷ record { vruntime = 5; id = 4; task = 2 } ∷ [];
  min_vruntime = some 5;
  id_pool = 5;
  init_vruntime = λ t. 0;
  delta = λ t. 5;
  nice = λ t. pos 0;
  id = λ t. t + 2;
}

two_waiting-Ordered : Ordered two_waiting
two_waiting-Ordered = record {
  sorted = ((refl, tt), (tt, tt));
  ids = (omega arith, (omega arith, tt));
  nices = λ t. refl;
}

-- A task of higher priority ages at a fraction of the time: 5 * 1024 / 3121.
weighted_time : get_vruntime (record two_waiting { nice = λ t. negsuc 4 }) 1 ≡ some 1
weighted_time = refl

run-Ordered_example : (q' : CfScheduler) × (run some_calls new ≡ some q') × Ordered q'
run-Ordered_example = run-Ordered some_calls new new-Ordered

set_priority_keeps_vruntimes_example :
    (q' : CfScheduler) × (set_priority two_waiting 1 (negsuc 9) ≡ some (q', true))
    × ((u : ℕ) → get_vruntime q' u ≡ get_vruntime two_waiting u)
    × (q'.ready_queue ≡ two_waiting.ready_queue)
    × Ordered q'
set_priority_keeps_vruntimes_example =
    set_priority_keeps_vruntimes two_waiting 1 (negsuc 9) two_waiting-Ordered

woken_task_lost_example :
    remove_task (add_task two_waiting 9) 9 ≡ some (add_task two_waiting 9, none)
woken_task_lost_example = woken_task_lost two_waiting 9 two_waiting-Ordered refl (omega arith)

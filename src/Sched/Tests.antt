-- ===== src/Sched/Tests.antt =====
-- The policies on concrete queues.
use chenlongos.Prelude.{ℕ, ◌≡◌, refl, Option, none, some, List, [], ◌∷◌, ◌++◌, arith, leb}
use chenlongos.Prelude.Int.{pos}
use chenlongos.Sched.{erase}
use chenlongos.Sched.Fifo.{TaskLists}
use chenlongos.Sched.RoundRobin.{RrScheduler, task_tick}
use chenlongos.Sched.RoundRobin.Laws.{turns, turns_fair}
use chenlongos.Sched.RoundRobin.Quantum.{ticks, task_tick_due}

-- Lists of tasks as lists.
abbrev pop : List ℕ → Option (ℕ × List ℕ)
pop [] = none
pop (t ∷ ts) = some (t, ts)

pop-none : (l : List ℕ) → pop l ≡ none → l ≡ []
pop-none [] e = refl
pop-none (t ∷ ts) e = cc

pop-some : (l : List ℕ) (t : ℕ) (l' : List ℕ) → pop l ≡ some (t, l') → l ≡ t ∷ l'
pop-some [] t l' e = cc
pop-some (x ∷ l) t l' e = cc e

abbrev plain : TaskLists
plain = record {
  TaskList = List ℕ;
  to_list = λ l. l;
  new = [];
  push_back = λ l t. l ++ (t ∷ []);
  pop_front = pop;
  remove = λ l t. (erase t l, some t);
  to_list-new = refl;
  to_list-push_back = λ l t. refl;
  pop_front-none = pop-none;
  pop_front-some = pop-some;
  remove_lem = λ l t m. (refl, refl);
}

abbrev queue : RrScheduler
queue = record { max_time_slice = 3; ready_queue = 4 ∷ 5 ∷ 6 ∷ []; time_slice = λ t. pos 3 }

turns_fair_example :
    (q' : RrScheduler) × (turns 3 queue ≡ some (4 ∷ 5 ∷ 6 ∷ [], q'))
    × (q'.ready_queue ≡ 4 ∷ 5 ∷ 6 ∷ [])
turns_fair_example = turns_fair queue

task_tick_due_example : (task_tick (ticks 2 queue 4) 4).1 ≡ leb 3 3
task_tick_due_example = task_tick_due 2 3 queue 4 refl (omega arith)

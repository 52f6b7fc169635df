-- ===== src/Task/Collect.antt =====
-- The collector of exited tasks, `gc_entry` of modules/axtask/src/run_queue.rs.
use chenlongos.Prelude.{
  ℕ, ◌≡◌, sym, ap, ◌∙◌, inl, inr, Bool, List, [], ◌∷◌, ◌++◌, if◌then◌else◌, Bool-cases, length,
  append-nil, append_assoc,
}
use chenlongos.Sched.{BaseScheduler}
use chenlongos.Task.State.{System}
use chenlongos.Task.RunQueue.{gc_rounds, gc_pass}

-- The tasks that others still hold, in their order.
abbrev pub still_held : (ℕ → Bool) → List ℕ → List ℕ
still_held last_holder [] = []
still_held last_holder (t ∷ ts) =
    if last_holder t then still_held last_holder ts else t ∷ still_held last_holder ts

gc_rounds-append :
    (last_holder : ℕ → Bool) (xs ys : List ℕ)
    → gc_rounds (length xs) last_holder (xs ++ ys) ≡ ys ++ still_held last_holder xs
unfolding gc_rounds
gc_rounds-append h [] ys = sym (append-nil ys)
gc_rounds-append h (x ∷ xs) ys = elim (Bool-cases (h x)) [
  | inl e ↦ rw e (gc_rounds-append h xs ys)
  | inr e ↦ rw e (
      ap (gc_rounds (length xs) h) (append_assoc xs ys (x ∷ []))
      ∙ gc_rounds-append h xs (ys ++ (x ∷ []))
      ∙ append_assoc ys (x ∷ []) (still_held h xs))
]

-- A pass of the collector drops every exited task of which it is the last holder, and keeps the
-- others in their order.
pub gc_pass_lem :
    {S : BaseScheduler} (s : System S) (last_holder : ℕ → Bool)
    → (gc_pass s last_holder).exited_tasks ≡ still_held last_holder s.exited_tasks
unfolding gc_pass
gc_pass_lem s h =
    ap (gc_rounds (length s.exited_tasks) h) (sym (append-nil s.exited_tasks))
    ∙ gc_rounds-append h s.exited_tasks []

-- ===== src/TimerList/Tests.antt =====
-- Timers at concrete times.
use chenlongos.Prelude.{ℕ, ◌≡◌, refl, ◌++◌, map, some, [], ◌∷◌, Perm, arith}
use chenlongos.TimerList.{TimerEventWrapper, TimerList, next_deadline, expire_all}
use chenlongos.TimerList.Expiry.{AllFrom, Ascends, expire_all_lem, wrap}

abbrev at : ℕ → ℕ → TimerEventWrapper ℕ
at t e = record { deadline = t; event = e }

abbrev timers : TimerList ℕ
timers = record { events = at 30 1 ∷ at 10 2 ∷ at 20 3 ∷ [] }

earliest_of_three : next_deadline timers ≡ some 10
unfolding next_deadline
earliest_of_three = refl

two_are_due : (expire_all 4 timers 25).1 ≡ (10, 2) ∷ (20, 3) ∷ []
unfolding expire_all
two_are_due = refl

expire_all_lem_example :
    let (l', out) = expire_all 4 timers 25 in
    Ascends 5 25 out × AllFrom 26 l'.events × Perm (map wrap out ++ l'.events) timers.events
expire_all_lem_example = expire_all_lem 4 timers 5 25 (omega arith) (omega arith)

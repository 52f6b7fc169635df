-- ===== src/Sched/RoundRobin/Quantum.antt =====
-- The time slice of the running task, tick by tick.
use chenlongos.Prelude.{
  ℕ, zero, suc, ◌+◌, ◌-◌, ◌^◌, ◌≡◌, ◌<◌, ap, ◌∙◌, true, arith, dec_lt, leb, if◌then◌else◌,
}
use chenlongos.Prelude.Int.{ℤ, pos, negsuc}
use chenlongos.Sched.RoundRobin.{RrScheduler, task_tick, dec}

-- `n` timer ticks while one task runs.
pub ticks : ℕ → RrScheduler → ℕ → RrScheduler
ticks zero q t = q
ticks (suc n) q t = ticks n (task_tick q t).0 t

-- What is left of a slice of `s` ticks after `n`.
lt→leb : (a b : ℕ) → a < b → leb a b ≡ true
lt→leb a b h = ground arith

leb_refl : (a : ℕ) → leb a a ≡ true
leb_refl a = ground arith

abbrev left_of : ℕ → ℕ → ℤ
left_of s n = if leb n s then pos (s - n) else negsuc (n - s - 1)

zero_left : (n : ℕ) → dec (left_of n n) ≡ left_of n (n + 1)
zero_left n = let e : n - n ≡ 0 = omega arith in rw (leb_refl n, e) (ground arith)

dec-left_of : (s n : ℕ) → n < 2 ^ 63 → dec (left_of s n) ≡ left_of s (n + 1)
dec-left_of s n h = elim (dec_lt n s) [
  | yes p ↦ let e : s - n ≡ suc (s - (n + 1)) = omega arith in rw (lt→leb n s p, e) (ground arith)
  | no p ↦ elim (dec_lt s n) [
    | yes q ↦ ground arith
    | no q ↦ let e : s ≡ n = omega arith in rw e (zero_left n)
  ]
]

time_slice-ticks :
    (n m s : ℕ) (q : RrScheduler) (t : ℕ)
    → q.time_slice t ≡ left_of s m
    → m + n < 2 ^ 63
    → (ticks n q t).time_slice t ≡ left_of s (m + n)
unfolding ticks task_tick
time_slice-ticks zero m s q t e h = e ∙ ap (left_of s) (omega arith)
time_slice-ticks (suc n) m s q t e h =
    time_slice-ticks n (m + 1) s (task_tick q t).0 t (ground (arith, dec-left_of s m)) (omega arith)
    ∙ ap (left_of s) (omega arith)

-- A task that starts with a slice of `s` ticks is told to reschedule by its `n + 1`-th tick, for
-- `n` below 2 ^ 63, exactly when that is the `s`-th or a later one.
pub task_tick_due :
    (n s : ℕ) (q : RrScheduler) (t : ℕ)
    → q.time_slice t ≡ pos s
    → n < 2 ^ 63
    → (task_tick (ticks n q t) t).1 ≡ leb s (n + 1)
unfolding task_tick
task_tick_due n s q t e h =
    rw (time_slice-ticks n 0 s q t (ground arith) (omega arith)) (ground arith)

-- ===== src/Posix/Pipe/Tests.antt =====
-- Pipes on concrete contents.
use chenlongos.Prelude.{
  ◌<◌, ◌≡◌, refl, ◌⊎◌, true, some, List, [], ◌∷◌, ◌++◌, arith, length, replicate,
}
use chenlongos.Posix.Pipe.{PipeRingBuffer, Shared, normal, available_read, read_pass, again}
use chenlongos.Posix.Pipe.Ring.{IsValid, contents}
use chenlongos.Posix.Pipe.Session.{
  Session, Turn, reads, writes, closes, step, run, stream, run_delivers, no_deadlock,
  exact_read_waits,
}

-- The three bytes 5, 6, 7 stand at the end of the array and its start.
abbrev ring : PipeRingBuffer
ring = record { arr = 7 ∷ replicate 253 0 ++ (5 ∷ 6 ∷ []); head = 254; tail = 1; status = normal }

length-ring : length ring.arr ≡ 256
length-ring = refl

ring-IsValid : IsValid ring
ring-IsValid = record {
  storage = length-ring;
  head_in = omega arith;
  tail_in = omega arith;
  status_agrees = omega arith;
}

contents-ring : contents ring ≡ 5 ∷ 6 ∷ 7 ∷ []
unfolding available_read
contents-ring = refl

abbrev shared : Shared
shared = record { ring = ring; strong_count = 2 }

abbrev session : Session
session = record {
  shared = shared;
  reading = true;
  room = 4;
  got = [];
  writing = true;
  left = 8 ∷ 9 ∷ [];
}

abbrev turns : List Turn
turns = writes ∷ reads ∷ closes ∷ reads ∷ []

run_delivers_example :
    (t : Session) × (run session turns ≡ some t)
    × IsValid t.shared.ring
    × (stream t ≡ stream session)
run_delivers_example = run_delivers session turns ring-IsValid

no_deadlock_example :
    ((t : Session) × (step session reads ≡ some t) × (t.room < 4))
    ⊎ ((t : Session) × (step session writes ≡ some t) × (length t.left < 2))
no_deadlock_example = no_deadlock session ring-IsValid refl refl (omega arith) (omega arith)

exact_read_waits_example :
    (t : Shared) × (read_pass shared (available_read ring) ≡ some (again, t, contents ring))
    × (read_pass t 0 ≡ some (again, t, []))
unfolding available_read
exact_read_waits_example = exact_read_waits shared ring-IsValid (omega arith) (omega arith)

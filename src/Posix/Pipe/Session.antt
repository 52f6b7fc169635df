-- ===== src/Posix/Pipe/Session.antt =====
-- A reader and a writer of one pipe, whose passes interleave in any order: each pass runs under the
-- lock of the buffer, and between two passes the task yields.
use chenlongos.Prelude.{
  ℕ, ◌-◌, ◌<◌, ◌≡◌, refl, ap, ap₂, ◌∙◌, ◌≢◌, Option, some, List, true, false, Bool, [], ◌∷◌, ◌++◌,
  length, arith, ◌==◌, if◌then◌else◌, ◌>>=◌, append_assoc, append-nil_of_length, ==_iff, Bool-cases,
  inl, inr, ◌⊎◌,
}
use chenlongos.Posix.Pipe.{
  Shared, Ending, returns, again, available_read, read_pass, write_end_close, write_pass,
  write_end_close,
}
use chenlongos.Posix.Pipe.Ring.{IsValid, contents, length-contents, available_read-available_write}
use chenlongos.Posix.Pipe.Transfer.{read_pass_lem, write_pass_lem}

-- One call of `read`, with the room left in its buffer and what it has read, and one call of
-- `write`, with what it has left to write. `reading` and `writing` are true until the call returns.
pub record Session : Type 0 where
  pub shared : Shared
  pub reading : Bool
  pub room : ℕ
  pub got : List ℕ
  pub writing : Bool
  pub left : List ℕ

pub data Turn : Type 0 where
  reads writes : Turn
  -- The writer drops its end.
  closes : Turn

abbrev still : Ending → Bool
still returns = false
still again = true

-- What the next task to run does; a call that has returned takes no further pass.
pub step : Session → Turn → Option Session
step s reads =
    let pass : Option Session = read_pass s.shared s.room >>= λ (e, sh, cs).
    some
      (record s { shared = sh; reading = still e; room = s.room - length cs; got = s.got ++ cs }) in
    if s.reading then pass else some s
step s writes =
    let pass : Option Session = write_pass s.shared s.left >>= λ (e, sh, rest).
    some (record s { shared = sh; writing = still e; left = rest }) in
    if s.writing then pass else some s
step s closes =
    some (record s { shared = record (s.shared) { strong_count = s.shared.strong_count - 1 } })

pub run : Session → List Turn → Option Session
run s [] = some s
run s (t ∷ ts) = step s t >>= λ s'. run s' ts

-- All bytes, in order: read, in the ring, and still to be written.
abbrev pub stream : Session → List ℕ
stream s = s.got ++ (contents s.shared.ring ++ s.left)

record Stepped (s : Session) (t : Turn) : Type 0 where
  next : Session
  steps : step s t ≡ some next
  valid : IsValid next.shared.ring
  same : stream next ≡ stream s

step-Stepped : (s : Session) (t : Turn) → IsValid s.shared.ring → Stepped s t
unfolding step
step-Stepped s reads v =
    let p = read_pass_lem s.shared s.room v in
    elim (Bool-cases s.reading) [
      | inl e ↦ record {
        next = record s {
          shared = p.after;
          reading = still p.ending;
          room = s.room - length p.bytes;
          got = s.got ++ p.bytes;
        };
        steps = rw (e, p.runs) refl;
        valid = p.valid;
        same = rw (append_assoc, p.order, append_assoc) refl;
      }
      | inr e ↦ record { next = s; steps = rw e refl; valid = v; same = refl }
    ]
step-Stepped s writes v =
    let p = write_pass_lem s.shared s.left v in
    elim (Bool-cases s.writing) [
      | inl e ↦ record {
        next = record s { shared = p.after; writing = still p.ending; left = p.left };
        steps = rw (e, p.runs) refl;
        valid = p.valid;
        same = ap (λ xs. s.got ++ xs) p.order;
      }
      | inr e ↦ record { next = s; steps = rw e refl; valid = v; same = refl }
    ]
step-Stepped s closes v = record { next = _; steps = refl; valid = v; same = refl }

-- From a valid ring, however the passes of one `read` and one `write` interleave, and wherever the
-- writer closes its end, none panics and the ring stays valid; the bytes read, followed by those
-- in the ring and those left to write, stay the same sequence: no byte is lost, doubled or
-- overtaken.
pub run_delivers :
    (s : Session) (ts : List Turn)
    → IsValid s.shared.ring
    → (t : Session) × (run s ts ≡ some t) × IsValid t.shared.ring × (stream t ≡ stream s)
unfolding run
run_delivers s [] v = (s, refl, v, refl)
run_delivers s (t ∷ ts) v =
    let p = step-Stepped s t v in
    let (u, runs, valid, same) = run_delivers p.next ts p.valid in
    (u, rw (p.steps, ◌>>=◌) runs, valid, same ∙ p.same)

-- On a valid ring, while a `read` that has room and a `write` that has bytes left go on, the next
-- turn of one of them moves a byte: the two never wait for each other.
pub no_deadlock :
    (s : Session)
    → IsValid s.shared.ring
    → s.reading ≡ true
    → s.writing ≡ true
    → 0 < s.room
    → 0 < length s.left
    → ((t : Session) × (step s reads ≡ some t) × (t.room < s.room))
      ⊎ ((t : Session) × (step s writes ≡ some t) × (length t.left < length s.left))
unfolding step
no_deadlock s v er ew hr hl =
    let p = read_pass_lem s.shared s.room v in
    let q = write_pass_lem s.shared s.left v in
    elim (Bool-cases (available_read s.shared.ring == 0)) [
      | inl e ↦ inr (
        record s { shared = q.after; writing = still q.ending; left = q.left },
        rw (ew, q.runs) refl,
        omega (
          arith,
          q.count,
          (==_iff (available_read s.shared.ring) 0).0 e,
          available_read-available_write s.shared.ring v,
        ),
      )
      | inr e ↦ inl (
        record s {
          shared = p.after;
          reading = still p.ending;
          room = s.room - length p.bytes;
          got = s.got ++ p.bytes;
        },
        rw (er, p.runs) refl,
        ground (arith, p.count),
      )
    ]

read_pass-empty :
    (s : Shared) (room : ℕ)
    → available_read s.ring ≡ 0
    → s.strong_count ≢ 1
    → read_pass s room ≡ some (again, s, [])
unfolding read_pass write_end_close
read_pass-empty s room e open_end = ground arith

-- On a valid ring, a pass of `read` that is asked for exactly the bytes at hand, at least one,
-- takes them all and does not return while the writer has its end open; the next pass, which has
-- no room left, changes nothing and does not return either.
pub exact_read_waits :
    (s : Shared)
    → IsValid s.ring
    → 0 < available_read s.ring
    → s.strong_count ≢ 1
    → (t : Shared) × (read_pass s (available_read s.ring) ≡ some (again, t, contents s.ring))
      × (read_pass t 0 ≡ some (again, t, []))
exact_read_waits s v h open_end =
    let p = read_pass_lem s (available_read s.ring) v in
    let (rest, all) =
      append-nil_of_length (contents s.ring) p.bytes (contents p.after.ring) p.order
        (omega (arith, p.count, length-contents s.ring)) in
    let ending : p.ending ≡ again = p.ends ∙ ground arith in
    (
      p.after,
      p.runs ∙ ap₂ (λ e cs. some (e, p.after, cs)) ending all,
      read_pass-empty p.after 0 (omega (arith, ap length rest, length-contents p.after.ring))
          (rw p.holders open_end),
    )

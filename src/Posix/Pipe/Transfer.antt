-- ===== src/Posix/Pipe/Transfer.antt =====
-- The loops of `Pipe::read` and `Pipe::write`, pass by pass: what a pass moves, and how it ends.
use chenlongos.Prelude.{
  ℕ, zero, suc, ◌+◌, ◌≤◌, ◌≡◌, refl, ap, ◌∙◌, some, List, min, [], ◌∷◌, ◌++◌, length, length-append,
  arith, ltb, ◌==◌, if◌then◌else◌, ◌>>=◌, append_assoc, ==_iff, Bool-cases, inl, inr,
}
use chenlongos.Posix.Pipe.{
  PipeRingBuffer, Shared, Ending, returns, again, available_read, available_write, read_rounds,
  returns, again, read_pass, write_end_close, write_rounds, write_pass, write_end_close,
}
use chenlongos.Posix.Pipe.Ring.{
  IsValid, contents, length-contents, read_byte_takes, write_byte_appends,
  available_read-available_write,
}

-- What `k` rounds of the inner loop of `read` do, with `room` bytes of the buffer left.
record ReadRounds (r : PipeRingBuffer) (k room : ℕ) : Type 0 where
  ending : Ending
  ring : PipeRingBuffer
  bytes : List ℕ
  runs : read_rounds k r room ≡ some (ending, ring, bytes)
  order : contents r ≡ bytes ++ contents ring
  valid : IsValid ring
  count : length bytes ≡ min k room
  ends : ending ≡ (if ltb room k then returns else again)

ReadRounds-runs :
    (k : ℕ) (r : PipeRingBuffer) (room : ℕ) → IsValid r → k ≤ available_read r → ReadRounds r k room
unfolding read_rounds
ReadRounds-runs zero r room v h = record {
  ending = again;
  ring = r;
  bytes = [];
  runs = refl;
  order = refl;
  valid = v;
  count = omega arith;
  ends = ground arith;
}
ReadRounds-runs (suc k) r zero v h = record {
  ending = returns;
  ring = r;
  bytes = [];
  runs = refl;
  order = refl;
  valid = v;
  count = omega arith;
  ends = ground arith;
}
ReadRounds-runs (suc k) r (suc room) v h =
    let (c, r', read, order, v') = read_byte_takes r v (omega arith) in
    let rest =
      ReadRounds-runs k r' room v'
        (omega (arith, ap length order, length-contents r, length-contents r')) in
    record {
      ending = rest.ending;
      ring = rest.ring;
      bytes = c ∷ rest.bytes;
      runs = rw (read, ◌>>=◌, rest.runs);
      order = order ∙ ap (λ cs. c ∷ cs) rest.order;
      valid = rest.valid;
      count = omega (arith, rest.count);
      ends = rest.ends ∙ ground arith;
    }

record WriteRounds (r : PipeRingBuffer) (k : ℕ) (bytes : List ℕ) : Type 0 where
  ending : Ending
  ring : PipeRingBuffer
  left : List ℕ
  runs : write_rounds k r bytes ≡ some (ending, ring, left)
  order : contents ring ++ left ≡ contents r ++ bytes
  valid : IsValid ring
  count : length left + min k (length bytes) ≡ length bytes
  ends : ending ≡ (if ltb (length bytes) k then returns else again)

WriteRounds-runs :
    (k : ℕ) (r : PipeRingBuffer) (bytes : List ℕ)
    → IsValid r
    → k ≤ available_write r
    → WriteRounds r k bytes
unfolding write_rounds
WriteRounds-runs zero r bytes v h = record {
  ending = again;
  ring = r;
  left = bytes;
  runs = refl;
  order = refl;
  valid = v;
  count = omega arith;
  ends = ground arith;
}
WriteRounds-runs (suc k) r [] v h = record {
  ending = returns;
  ring = r;
  left = [];
  runs = refl;
  order = refl;
  valid = v;
  count = omega arith;
  ends = ground arith;
}
WriteRounds-runs (suc k) r (b ∷ bytes) v h =
    let (r', wrote, order, v') = write_byte_appends r b v (omega arith) in
    let rest = WriteRounds-runs k r' bytes v' (
      omega (
        arith,
        ap length order,
        length-append (contents r) (b ∷ []),
        length-contents r,
        length-contents r',
        available_read-available_write r v,
        available_read-available_write r' v',
      )) in
    record {
      ending = rest.ending;
      ring = rest.ring;
      left = rest.left;
      runs = rw (wrote, ◌>>=◌, rest.runs);
      order = rest.order ∙ rw (order, append_assoc);
      valid = rest.valid;
      count = omega (arith, rest.count);
      ends = rest.ends ∙ ground arith;
    }

-- What a pass of `read` with `room` bytes of its buffer left does to a pipe.
pub record ReadPass (s : Shared) (room : ℕ) : Type 0 where
  pub ending : Ending
  pub after : Shared
  pub bytes : List ℕ
  pub runs : read_pass s room ≡ some (ending, after, bytes)
  pub order : contents s.ring ≡ bytes ++ contents after.ring
  pub valid : IsValid after.ring
  pub holders : after.strong_count ≡ s.strong_count
  pub count : length bytes ≡ min (available_read s.ring) room
  pub ends : ending ≡ (
      if available_read s.ring == 0
      then (if s.strong_count == 1 then returns else again)
      else (if ltb room (available_read s.ring) then returns else again))

-- On a valid ring a pass of `read` does not panic and leaves a valid ring. It takes the oldest
-- bytes in order, as many as there are or as there is room for. It returns if the ring is empty
-- and the writer is gone, or if there are more bytes than room; otherwise the loop goes on.
pub read_pass_lem : (s : Shared) (room : ℕ) → IsValid s.ring → ReadPass s room
unfolding read_pass write_end_close
read_pass_lem s room v =
    let all = ReadRounds-runs (available_read s.ring) s.ring room v (omega arith) in
    elim (Bool-cases (available_read s.ring == 0)) [
      | inl e ↦ record {
        ending = if s.strong_count == 1 then returns else again;
        after = s;
        bytes = [];
        runs = rw e refl;
        order = refl;
        valid = v;
        holders = refl;
        count = omega (arith, (==_iff (available_read s.ring) 0).0 e);
        ends = rw e refl;
      }
      | inr e ↦ record {
        ending = all.ending;
        after = record s { ring = all.ring };
        bytes = all.bytes;
        runs = rw (e, all.runs) refl;
        order = all.order;
        valid = all.valid;
        holders = refl;
        count = all.count;
        ends = rw e all.ends;
      }
    ]

-- What a pass of `write` with `bytes` left to write does to a pipe.
pub record WritePass (s : Shared) (bytes : List ℕ) : Type 0 where
  pub ending : Ending
  pub after : Shared
  pub left : List ℕ
  pub runs : write_pass s bytes ≡ some (ending, after, left)
  pub order : contents after.ring ++ left ≡ contents s.ring ++ bytes
  pub valid : IsValid after.ring
  pub holders : after.strong_count ≡ s.strong_count
  pub count : length left + min (available_write s.ring) (length bytes) ≡ length bytes
  pub ends : ending ≡ (if ltb (length bytes) (available_write s.ring) then returns else again)

-- On a valid ring a pass of `write` does not panic and leaves a valid ring. It appends the first
-- bytes in order, as many as there is space for, and returns only if there is more space than
-- bytes; otherwise the loop goes on.
pub write_pass_lem : (s : Shared) (bytes : List ℕ) → IsValid s.ring → WritePass s bytes
unfolding write_pass
write_pass_lem s bytes v =
    let all = WriteRounds-runs (available_write s.ring) s.ring bytes v (omega arith) in
    elim (Bool-cases (available_write s.ring == 0)) [
      | inl e ↦ record {
        ending = again;
        after = s;
        left = bytes;
        runs = rw e refl;
        order = refl;
        valid = v;
        holders = refl;
        count = omega (arith, (==_iff (available_write s.ring) 0).0 e);
        ends = ground (arith, (==_iff (available_write s.ring) 0).0 e);
      }
      | inr e ↦ record {
        ending = all.ending;
        after = record s { ring = all.ring };
        left = all.left;
        runs = rw (e, all.runs) refl;
        order = all.order;
        valid = all.valid;
        holders = refl;
        count = all.count;
        ends = all.ends;
      }
    ]

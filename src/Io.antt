-- ===== src/Io.antt =====
-- Streams of bytes: the trait `Read` of crates/axio/src/lib.rs and its reads from buffers of
-- buffered/bufreader.rs. A read gives the bytes that it puts in front of the caller's buffer; a
-- byte is any number.
pub mod Buffered
pub mod Exact
mod Tests
use chenlongos.Prelude.{
  ℕ, zero, suc, ◌+◌, ◌-◌, ◌≡◌, ◌<◌, ◌≤◌, Bool, true, false, ◌&&◌, Option, none, some, List, [], ◌∷◌,
  ◌++◌, length, take, drop, min, replicate, leb, ltb, ◌==◌, if◌then◌else◌,
}

pub data IoError : Type 0 where
  unexpected_eof : IoError
  other_error : ℕ → IoError

pub data IoResult (A : Type 0) : Type 0 where
  ok : A → IoResult A
  err : IoError → IoResult A

-- The operation that a reader has to give, `read`, for the length of the caller's buffer.
pub record Reader : Type 1 where
  pub State : Type 0
  pub read : State → ℕ → State × IoResult (List ℕ)

module _ (R : Reader) where
  -- The bytes of a read stand in front of those of the reads that follow.
  abbrev pub put_before :
      List ℕ → R.State × Option (IoResult (List ℕ)) → R.State × Option (IoResult (List ℕ))
  put_before bs (t, none) = (t, none)
  put_before bs (t, some (err e)) = (t, some (err e))
  put_before bs (t, some (ok cs)) = (t, some (ok (bs ++ cs)))

  -- What the loop of `read_exact` does after a read, where `again` is the loop.
  abbrev pub after_read :
      (R.State → ℕ → R.State × Option (IoResult (List ℕ)))
      → ℕ
      → R.State × IoResult (List ℕ)
      → R.State × Option (IoResult (List ℕ))
  after_read again n (s, err e) = (s, some (err e))
  after_read again n (s, ok []) = (s, some (err unexpected_eof))
  after_read again n (s, ok (x ∷ xs)) = put_before (x ∷ xs) (again s (n - length (x ∷ xs)))

  -- `none` is out of fuel.
  abbrev pub read_exact : ℕ → R.State → ℕ → R.State × Option (IoResult (List ℕ))
  read_exact zero s n = (s, none)
  read_exact (suc fuel) s zero = (s, some (ok []))
  read_exact (suc fuel) s (suc n) = after_read (read_exact fuel) (suc n) (R.read s (suc n))

  pub record BufReader : Type 0 where
    pub inner : R.State
    pub pos : ℕ
    pub filled : ℕ
    pub buf : List ℕ

  abbrev pub capacity : ℕ
  capacity = 1024

  abbrev pub new : R.State → BufReader
  new inner = record { inner = inner; pos = 0; filled = 0; buf = replicate capacity 0 }

  abbrev pub buffer : BufReader → List ℕ
  buffer b = take (b.filled - b.pos) (drop b.pos b.buf)

  abbrev pub discard_buffer : BufReader → BufReader
  discard_buffer b = record b { pos = 0; filled = 0 }

  abbrev pub is_empty : BufReader → Bool
  is_empty b = leb b.filled b.pos

  abbrev pub filled_by : BufReader → R.State × IoResult (List ℕ) → BufReader × IoResult (List ℕ)
  filled_by b (s, err e) = (record b { inner = s }, err e)
  filled_by b (s, ok bs) =
      let c : BufReader = record {
        inner = s;
        pos = 0;
        filled = length bs;
        buf = bs ++ drop (length bs) b.buf;
      } in
      (c, ok (buffer c))

  abbrev pub fill_buf : BufReader → BufReader × IoResult (List ℕ)
  fill_buf b = if is_empty b then filled_by b (R.read b.inner capacity) else (b, ok (buffer b))

  abbrev pub consume : BufReader → ℕ → BufReader
  consume b amt = record b { pos = min (b.pos + amt) b.filled }

  abbrev pub bypassed : BufReader → R.State × IoResult (List ℕ) → BufReader × IoResult (List ℕ)
  bypassed b (s, r) = (record (discard_buffer b) { inner = s }, r)

  -- The read of the slice `rem` is the one of impls.rs.
  abbrev pub copied : ℕ → BufReader × IoResult (List ℕ) → BufReader × IoResult (List ℕ)
  copied n (b, err e) = (b, err e)
  copied n (b, ok rem) = (consume b (min n (length rem)), ok (take n rem))

  unfoldable pub read : BufReader → ℕ → BufReader × IoResult (List ℕ)
  read b n =
      if is_empty b && leb capacity n then bypassed b (R.read b.inner n) else copied n (fill_buf b)

  abbrev pub inner_exact :
      BufReader → R.State × Option (IoResult (List ℕ)) → BufReader × Option (IoResult (List ℕ))
  inner_exact b (s, r) = (record b { inner = s }, r)

  unfoldable pub read_exact_buffered : ℕ → BufReader → ℕ → BufReader × Option (IoResult (List ℕ))
  read_exact_buffered fuel b n =
      if leb n (length (buffer b))
      then (record b { pos = b.pos + n }, some (ok (take n (buffer b))))
      else inner_exact b (read_exact fuel b.inner n)

  abbrev pub buf_reader : Reader
  buf_reader = record { State = BufReader; read = read }

  -- What the users of a reader rely on: a read gives the next bytes of the stream, at most as many
  -- as asked for, and none only if none are left; a failed read takes none.
  abbrev pub ReadsFrom :
      (R.State → Type 0) → (R.State → List ℕ) → R.State → ℕ → R.State × IoResult (List ℕ) → Type 0
  ReadsFrom Valid left s n (t, err e) = Valid t × (left t ≡ left s)
  ReadsFrom Valid left s n (t, ok bs) =
      Valid t × (left s ≡ bs ++ left t) × (length bs ≤ n) × (bs ≡ [] → 0 < n → left s ≡ [])

-- `left` is what the stream is still to give.
pub record ReaderLaws (R : Reader) : Type 1 where
  pub Valid : R.State → Type 0
  pub left : R.State → List ℕ
  pub reads : (s : R.State) (n : ℕ) → Valid s → ReadsFrom R Valid left s n (R.read s n)

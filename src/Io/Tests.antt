-- ===== src/Io/Tests.antt =====
-- Streams of crates/axio over a list of bytes that comes in pieces of at most three.
use chenlongos.Prelude.{
  ℕ, ◌≡◌, ◌<◌, refl, sym, ap, replicate, length-replicate, some, List, [], ◌∷◌, length, length-take,
  take, drop, take-append-drop, min, eq-nil_of_length, arith,
}
use chenlongos.Io.{
  ok, Reader, ReaderLaws, ReadsFrom, BufReader, read, read_exact, read_exact_buffered, buf_reader,
}
use chenlongos.Io.Exact.{Exact, read_exact-Exact, Skipped, read_exact_skips}
use chenlongos.Io.Buffered.{BufValid, buf_left, read-ReadsFrom}

nothing_read :
    (s : List ℕ) (n : ℕ)
    → length (take (min n 3) s) ≡ min (min n 3) (length s)
    → take (min n 3) s ≡ []
    → 0 < n
    → length s ≡ 0
nothing_read s n taken e asked = omega (arith, taken, ap length e, asked)

abbrev pieces : Reader
pieces = record { State = List ℕ; read = λ s n. (drop (min n 3) s, ok (take (min n 3) s)) }

abbrev pieces_laws : ReaderLaws pieces
pieces_laws = record {
  Valid = λ s. Unit {0};
  left = λ s. s;
  reads = λ s n v. (
    tt,
    sym (take-append-drop (min n 3) s),
    omega (arith, length-take (min n 3) s),
    λ e asked. eq-nil_of_length s (nothing_read s n (length-take (min n 3) s) e asked),
  );
}

-- Two bytes are buffered of a stream that goes on with three more.
abbrev two_buffered : BufReader pieces
two_buffered = record {
  inner = 12 ∷ 13 ∷ 14 ∷ [];
  pos = 0;
  filled = 2;
  buf = 10 ∷ 11 ∷ replicate 1022 0;
}

two_buffered-BufValid : BufValid pieces pieces_laws two_buffered
two_buffered-BufValid = record {
  inner_valid = tt;
  in_order = omega arith;
  inside = omega (arith, length-replicate {A = ℕ} 1022 0);
  size = omega (arith, length-replicate {A = ℕ} 1022 0);
}

skips_two : (read_exact_buffered pieces 4 two_buffered 3).1 ≡ some (ok (12 ∷ 13 ∷ 14 ∷ []))
unfolding read_exact_buffered
skips_two = refl

read_exact-Exact_example :
    Exact pieces pieces_laws (1 ∷ 2 ∷ 3 ∷ 4 ∷ []) 4 (read_exact pieces 5 (1 ∷ 2 ∷ 3 ∷ 4 ∷ []) 4)
read_exact-Exact_example =
    read_exact-Exact pieces pieces_laws 5 (1 ∷ 2 ∷ 3 ∷ 4 ∷ []) 4 tt (omega arith)

read_exact_skips_example :
    Skipped pieces pieces_laws two_buffered 3 (read_exact_buffered pieces 4 two_buffered 3)
read_exact_skips_example =
    read_exact_skips pieces pieces_laws 4 two_buffered 3 tt (omega arith) (omega arith)

read-ReadsFrom_example :
    ReadsFrom
      (buf_reader pieces)
      (BufValid pieces pieces_laws)
      (buf_left pieces pieces_laws)
      two_buffered
      5
      (read pieces two_buffered 5)
read-ReadsFrom_example = read-ReadsFrom pieces pieces_laws two_buffered 5 two_buffered-BufValid

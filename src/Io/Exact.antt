-- ===== src/Io/Exact.antt =====
-- What `read_exact` of crates/axio/src/lib.rs and of its buffered reader give.
use chenlongos.Prelude.{
  ℕ, zero, suc, ◌+◌, ◌-◌, ◌≡◌, ◌<◌, ◌≤◌, refl, sym, ap, ◌∙◌, subst, true, false, Option, none, some,
  List, [], ◌∷◌, ◌++◌, append_assoc, length, length-append, take, if-false, arith,
}
use chenlongos.Io.{
  IoResult, ok, err, Reader, ReaderLaws, ReadsFrom, put_before, after_read, read_exact, BufReader,
  buffer, inner_exact, read_exact_buffered,
}

module _ (R : Reader) (L : ReaderLaws R) where
  -- All bytes asked for, or an error; never out of fuel.
  abbrev pub Exact : R.State → ℕ → R.State × Option (IoResult (List ℕ)) → Type 0
  Exact s n (t, none) = false ≡ true
  Exact s n (t, some (err e)) = L.Valid t × ((bs : List ℕ) × (L.left s ≡ bs ++ L.left t))
  Exact s n (t, some (ok bs)) = L.Valid t × (L.left s ≡ bs ++ L.left t) × (length bs ≡ n)

  joined :
      (s t u : R.State) (front bs : List ℕ)
      → L.left s ≡ front ++ L.left t
      → L.left t ≡ bs ++ L.left u
      → L.left s ≡ (front ++ bs) ++ L.left u
  joined s t u front bs e f = e ∙ ap (λ l. front ++ l) f ∙ sym (append_assoc front bs (L.left u))

  goes_on :
      (s t : R.State) (n : ℕ) (front : List ℕ)
      → L.left s ≡ front ++ L.left t
      → length front ≤ n
      → (r : R.State × Option (IoResult (List ℕ))) → Exact t (n - length front) r
      → Exact s n (put_before R front r)
  goes_on s t n front e small (u, none) h = h
  goes_on s t n front e small (u, some (err f)) h =
      (h.0, (front ++ h.1.0, joined s t u front h.1.0 e h.1.1))
  goes_on s t n front e small (u, some (ok cs)) h =
      (h.0, joined s t u front cs e h.1, omega (arith, length-append front cs, h.2, small))

  after-Exact :
      (s : R.State) (n : ℕ) (again : R.State → ℕ → R.State × Option (IoResult (List ℕ)))
      → ((t : R.State) (k : ℕ) → L.Valid t → k < n → Exact t k (again t k))
      → (r : R.State × IoResult (List ℕ)) → ReadsFrom R L.Valid L.left s n r
      → Exact s n (after_read R again n r)
  after-Exact s n again h (t, err e) k = (k.0, ([], sym k.1))
  after-Exact s n again h (t, ok []) k = (k.0, ([], k.1))
  after-Exact s n again h (t, ok (x ∷ xs)) k =
      goes_on s t n (x ∷ xs) k.1 k.2 (again t (n - length (x ∷ xs)))
        (h t (n - length (x ∷ xs)) k.0 (omega (arith, k.2)))

  -- With fuel above the length of the caller's buffer the loop ends; it gives exactly that many bytes,
  -- the next ones of the stream, or an error.
  pub read_exact-Exact :
      (fuel : ℕ) (s : R.State) (n : ℕ) → L.Valid s → n < fuel → Exact s n (read_exact R fuel s n)
  read_exact-Exact zero s n v h = absurd (omega (arith, h))
  read_exact-Exact (suc fuel) s zero v h = (v, refl, refl)
  read_exact-Exact (suc fuel) s (suc n) v h =
      after-Exact s (suc n) (read_exact R fuel)
        (λ t k w small. read_exact-Exact fuel t k w (omega (arith, small, h))) (R.read s (suc n))
        (L.reads s (suc n) v)

  -- The bytes in the buffer stay there, and the caller gets the bytes after them.
  abbrev pub Skipped : BufReader R → ℕ → BufReader R × Option (IoResult (List ℕ)) → Type 0
  Skipped b n (c, none) = false ≡ true
  Skipped b n (c, some (err e)) = buffer R c ≡ buffer R b
  Skipped b n (c, some (ok bs)) =
      (buffer R c ≡ buffer R b) × (L.left b.inner ≡ bs ++ L.left c.inner) × (length bs ≡ n)

  inner-Skipped :
      (b : BufReader R) (n : ℕ) (r : R.State × Option (IoResult (List ℕ)))
      → Exact b.inner n r
      → Skipped b n (inner_exact R b r)
  inner-Skipped b n (t, none) h = h
  inner-Skipped b n (t, some (err e)) h = refl
  inner-Skipped b n (t, some (ok bs)) h = (refl, h.1, h.2)

  -- If fewer bytes are buffered than asked for, `read_exact` of the buffered reader leaves them in the
  -- buffer and gives the bytes that follow them in the stream, or an error.
  pub read_exact_skips :
      (fuel : ℕ) (b : BufReader R) (n : ℕ)
      → L.Valid b.inner
      → n < fuel
      → length (buffer R b) < n
      → Skipped b n (read_exact_buffered R fuel b n)
  unfolding read_exact_buffered
  read_exact_skips fuel b n v h short =
      subst (Skipped b n)
        (sym (
          if-false (record b { pos = b.pos + n }, some (ok (take n (buffer R b))))
            (inner_exact R b (read_exact R fuel b.inner n)) (ground (arith, short))))
        (inner-Skipped b n (read_exact R fuel b.inner n) (read_exact-Exact fuel b.inner n v h))

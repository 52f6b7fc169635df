-- ===== src/Io/Buffered.antt =====
-- The buffered reader of crates/axio/src/buffered/bufreader.rs is a reader of the same stream.
use chenlongos.Prelude.{
  ℕ, zero, suc, ◌+◌, ◌-◌, ◌≡◌, ◌≤◌, refl, sym, ap, ap₂, ◌∙◌, subst, Bool, true, false, ◌&&◌, List,
  [], ◌∷◌, ◌++◌, append_assoc, length, length-append, length-take, length-drop, take, drop,
  take-append-drop, min, leb, eq-nil_of_length, if-true, if-false, Bool-cases, inl, inr, arith,
}
use chenlongos.Io.{
  IoResult, ok, err, Reader, ReaderLaws, ReadsFrom, BufReader, capacity, buffer, is_empty,
  filled_by, fill_buf, consume, bypassed, copied, read, buf_reader,
}

take_front : (xs ys : List ℕ) → take (length xs) (xs ++ ys) ≡ xs
take_front [] ys = refl
take_front (x ∷ xs) ys = ap (λ l. x ∷ l) (take_front xs ys)

drop-nil : (k : ℕ) → drop {A = ℕ} k [] ≡ []
drop-nil zero = refl
drop-nil (suc k) = refl

take-nil : (k : ℕ) → take {A = ℕ} k [] ≡ []
take-nil zero = refl
take-nil (suc k) = refl

drop-drop : (a b : ℕ) (xs : List ℕ) → drop a (drop b xs) ≡ drop (b + a) xs
drop-drop a zero xs = let same : a ≡ zero + a = omega arith in ap (λ k. drop k xs) same
drop-drop a (suc b) [] = drop-nil a ∙ sym (drop-nil (suc b + a))
drop-drop a (suc b) (x ∷ xs) =
    let same : suc (b + a) ≡ suc b + a = omega arith in
    drop-drop a b xs ∙ ap (λ k. drop k (x ∷ xs)) same

drop-take : (n k : ℕ) (xs : List ℕ) → drop n (take k xs) ≡ take (k - n) (drop n xs)
drop-take zero k xs = let same : k ≡ k - zero = omega arith in ap (λ m. take m xs) same
drop-take (suc n) zero xs =
    let same : zero ≡ zero - suc n = omega arith in ap (λ m. take m (drop (suc n) xs)) same
drop-take (suc n) (suc k) [] = sym (take-nil (suc k - suc n))
drop-take (suc n) (suc k) (x ∷ xs) =
    let same : k - n ≡ suc k - suc n = omega arith in
    drop-take n k xs ∙ ap (λ m. take m (drop n xs)) same

drop-min : (n : ℕ) (xs : List ℕ) → drop (min n (length xs)) xs ≡ drop n xs
drop-min zero xs = let same : min zero (length xs) ≡ zero = omega arith in ap (λ k. drop k xs) same
drop-min (suc n) [] = drop-nil (min (suc n) zero)
drop-min (suc n) (x ∷ xs) =
    let same : min (suc n) (suc (length xs)) ≡ suc (min n (length xs)) = omega arith in
    ap (λ k. drop k (x ∷ xs)) same ∙ drop-min n xs

module _ (R : Reader) (L : ReaderLaws R) where
  -- The positions are in order and in the buffer of 1024 bytes.
  pub record BufValid (b : BufReader R) : Type 0 where
    pub inner_valid : L.Valid b.inner
    pub in_order : b.pos ≤ b.filled
    pub inside : b.filled ≤ length b.buf
    pub size : length b.buf ≡ capacity R

  abbrev pub buf_left : BufReader R → List ℕ
  buf_left b = buffer R b ++ L.left b.inner

  empty_buffer : (b : BufReader R) → is_empty R b ≡ true → buffer R b ≡ []
  empty_buffer b e =
      eq-nil_of_length (buffer R b)
        (let taken = length-take (b.filled - b.pos) (drop b.pos b.buf) in ground (arith, taken, e))

  at_end : (b : BufReader R) → is_empty R b ≡ true → buf_left b ≡ L.left b.inner
  at_end b e = ap (λ l. l ++ L.left b.inner) (empty_buffer b e)

  bypassed_lem :
      (b : BufReader R) (n : ℕ) (r : R.State × IoResult (List ℕ))
      → BufValid b
      → is_empty R b ≡ true
      → ReadsFrom R L.Valid L.left b.inner n r
      → ReadsFrom (buf_reader R) BufValid buf_left b n (bypassed R b r)
  bypassed_lem b n (t, err e) v empty h = (
    record { inner_valid = h.0; in_order = omega arith; inside = omega arith; size = v.size },
    h.1 ∙ sym (at_end b empty),
  )
  bypassed_lem b n (t, ok bs) v empty h = (
    record { inner_valid = h.0; in_order = omega arith; inside = omega arith; size = v.size },
    at_end b empty ∙ h.1,
    h.2,
    λ none_read asked. at_end b empty ∙ h.3 none_read asked,
  )

  -- What `fill_buf` gives: the bytes that are then in the buffer, and none only at the end.
  abbrev pub Filled : BufReader R → BufReader R × IoResult (List ℕ) → Type 0
  Filled b (c, err e) = BufValid c × (buf_left c ≡ buf_left b)
  Filled b (c, ok rem) =
      BufValid c × (buf_left c ≡ buf_left b) × (rem ≡ buffer R c) × (rem ≡ [] → buf_left b ≡ [])

  filled_by-Filled :
      (b : BufReader R) (r : R.State × IoResult (List ℕ))
      → BufValid b
      → is_empty R b ≡ true
      → ReadsFrom R L.Valid L.left b.inner (capacity R) r
      → Filled b (filled_by R b r)
  filled_by-Filled b (t, err e) v empty h = (
    record { inner_valid = h.0; in_order = v.in_order; inside = v.inside; size = v.size },
    ap (λ l. buffer R b ++ l) h.1,
  )
  filled_by-Filled b (t, ok bs) v empty h =
      let whole : take (length bs - 0) (bs ++ drop (length bs) b.buf) ≡ bs =
        ap (λ k. take k (bs ++ drop (length bs) b.buf)) (omega arith)
        ∙ take_front bs (drop (length bs) b.buf) in
      (
        record {
          inner_valid = h.0;
          in_order = omega arith;
          inside = omega (arith, length-append bs (drop (length bs) b.buf));
          size = omega (
            arith,
            length-append bs (drop (length bs) b.buf),
            length-drop (length bs) b.buf,
            v.size,
            h.2,
          );
        },
        ap (λ l. l ++ L.left t) whole ∙ sym h.1 ∙ sym (at_end b empty),
        refl,
        λ e. at_end b empty ∙ h.3 (sym whole ∙ e) (omega arith),
      )

  -- Consuming bytes takes them off the front of the buffer.
  consumed :
      (c : BufReader R) (n : ℕ) (rem : List ℕ)
      → BufValid c
      → rem ≡ buffer R c
      → length rem ≡ c.filled - c.pos
      → buffer R (consume R c (min n (length rem))) ≡ drop n rem
  consumed c n rem v same seen =
      let amt = min n (length rem) in
      let at : min (c.pos + amt) c.filled ≡ c.pos + amt = omega (arith, seen, v.in_order) in
      ap (λ p. take (c.filled - p) (drop p c.buf)) at
      ∙ ap₂ take (omega arith) (sym (drop-drop amt c.pos c.buf))
      ∙ sym (drop-take amt (c.filled - c.pos) (drop c.pos c.buf))
      ∙ ap (drop amt) (sym same)
      ∙ drop-min n rem

  copied_lem :
      (b : BufReader R) (n : ℕ) (r : BufReader R × IoResult (List ℕ))
      → Filled b r
      → ReadsFrom (buf_reader R) BufValid buf_left b n (copied R n r)
  copied_lem b n (c, err e) h = h
  copied_lem b n (c, ok rem) h =
      let v = h.0 in
      let seen : length rem ≡ c.filled - c.pos =
        ap length h.2
        ∙ omega (
          arith,
          length-take (c.filled - c.pos) (drop c.pos c.buf),
          length-drop c.pos c.buf,
          v.inside,
          v.in_order,
        ) in
      (
        record {
          inner_valid = v.inner_valid;
          in_order = omega arith;
          inside = v.inside;
          size = v.size;
        },
        sym h.1
            ∙ ap (λ l. l ++ L.left c.inner) (sym h.2 ∙ sym (take-append-drop n rem))
            ∙ append_assoc (take n rem) (drop n rem) (L.left c.inner)
            ∙ ap (λ l. take n rem ++ (l ++ L.left c.inner)) (sym (consumed c n rem v h.2 seen)),
        omega (arith, length-take n rem),
        λ e asked.
            h.3 (eq-nil_of_length rem (omega (arith, length-take n rem, ap length e, asked))),
      )

  fill_buf-Filled : (b : BufReader R) → BufValid b → Filled b (fill_buf R b)
  fill_buf-Filled b v = elim (Bool-cases (is_empty R b)) [
    | inl e ↦ subst (Filled b) (sym (if-true _ _ e)) (
        filled_by-Filled b (R.read b.inner (capacity R)) v e
          (L.reads b.inner (capacity R) v.inner_valid))
    | inr e ↦ subst (Filled b) (sym (if-false _ _ e)) (
      v,
      refl,
      refl,
      λ none_left. absurd (
          ground (
            arith,
            length-take (b.filled - b.pos) (drop b.pos b.buf),
            length-drop b.pos b.buf,
            v.inside,
            ap length none_left,
            e,
          )),
    )
  ]

  and_left : (x y : Bool) → (x && y) ≡ true → x ≡ true
  and_left true y e = refl
  and_left false y e = e

  -- A buffered reader over a reader that gives the bytes of a stream in order, loses none and ends only
  -- where the stream ends does so itself, for any lengths of the callers' buffers: the stream that is
  -- left is what is buffered followed by what is left of the inner one.
  pub read-ReadsFrom :
      (b : BufReader R) (n : ℕ)
      → BufValid b
      → ReadsFrom (buf_reader R) BufValid buf_left b n (read R b n)
  unfolding read
  read-ReadsFrom b n v = elim (Bool-cases (is_empty R b && leb (capacity R) n)) [
    | inl e ↦ subst (ReadsFrom (buf_reader R) BufValid buf_left b n) (sym (if-true _ _ e)) (
        bypassed_lem b n (R.read b.inner n) v (and_left (is_empty R b) (leb (capacity R) n) e)
          (L.reads b.inner n v.inner_valid))
    | inr e ↦
        subst (ReadsFrom (buf_reader R) BufValid buf_left b n) (sym (if-false _ _ e))
          (copied_lem b n (fill_buf R b) (fill_buf-Filled b v))
  ]

  -- The laws of a reader, for a reader with a buffer.
  pub buf_reader_laws : ReaderLaws (buf_reader R)
  buf_reader_laws = record { Valid = BufValid; left = buf_left; reads = read-ReadsFrom }

-- ===== src/FlattenObjects/Bitmap.antt =====
-- `Bitmap<1024>` of the crate `bitmaps`, as crates/flatten_objects/src/lib.rs uses it: its
-- operations, and what its documentation says of them.
use chenlongos.Prelude.{
  ℕ, zero, suc, ◌+◌, ◌<◌, ◌≤◌, ◌≡◌, refl, Bool, true, false, Option, none, some, ◌==◌,
  if◌then◌else◌, arith, Bool-cases, inl, inr, dec_lt,
}

abbrev pub size : ℕ
size = 1024

pub record BitmapOps : Type 1 where
  pub Bitmap : Type 0
  pub zeroed : Bitmap
  pub get : Bitmap → ℕ → Bool
  pub set : Bitmap → ℕ → Bool → Bitmap
  pub first_false_index : Bitmap → Option ℕ

pub record BitmapLaws (B : BitmapOps) : Type 0 where
  pub get-zeroed : (i : ℕ) → i < size → B.get B.zeroed i ≡ false
  pub get-set :
      (b : B.Bitmap) (i j : ℕ) (v : Bool)
      → i < size
      → j < size
      → B.get (B.set b i v) j ≡ (if i == j then v else B.get b j)
  pub first_some :
      (b : B.Bitmap) (i : ℕ)
      → B.first_false_index b ≡ some i
      → (i < size) × (B.get b i ≡ false) × ((j : ℕ) → j < i → B.get b j ≡ true)
  pub first_none :
      (b : B.Bitmap) → B.first_false_index b ≡ none → (j : ℕ) → j < size → B.get b j ≡ true

-- A bitmap as a function, which meets the laws.
pub scan : ℕ → ℕ → (ℕ → Bool) → Option ℕ
scan zero i f = none
scan (suc n) i f = let rest = scan n (i + 1) f in if f i then rest else some i

abbrev pub functions : BitmapOps
functions = record {
  Bitmap = ℕ → Bool;
  zeroed = λ i. false;
  get = λ f i. f i;
  set = λ f i v j. if i == j then v else f j;
  first_false_index = scan size 0;
}

scan-some :
    (n i : ℕ) (f : ℕ → Bool) (k : ℕ)
    → scan n i f ≡ some k
    → (i ≤ k) × (k < i + n) × (f k ≡ false) × ((j : ℕ) → i ≤ j → j < k → f j ≡ true)
unfolding scan
scan-some zero i f k h = cc
scan-some (suc n) i f k h = elim (Bool-cases (f i)) [
  | inl e ↦
      let (a, b, c, d) = scan-some n (i + 1) f k (rw e at h) in
      (
        omega arith,
        omega arith,
        c,
        λ j p q. elim (dec_lt i j) [
          | yes lt ↦ d j (omega arith) q
          | no ge ↦ let at_i : j ≡ i = omega arith in rw at_i e
        ],
      )
  | inr e ↦
      let at_i : i ≡ k = ground (arith, h) in
      rw (← at_i) (omega arith, omega arith, e, λ j p q. absurd (omega arith))
]

scan-none : (n i : ℕ) (f : ℕ → Bool) → scan n i f ≡ none → (j : ℕ) → i ≤ j → j < i + n → f j ≡ true
unfolding scan
scan-none zero i f h j p q = absurd (omega arith)
scan-none (suc n) i f h j p q = elim (Bool-cases (f i)) [
  | inl e ↦ elim (dec_lt i j) [
    | yes lt ↦ scan-none n (i + 1) f (rw e at h) j (omega arith) (omega arith)
    | no ge ↦ let at_i : j ≡ i = omega arith in rw at_i e
  ]
  | inr e ↦ cc (rw e at h)
]

pub functions_laws : BitmapLaws functions
unfolding scan
functions_laws = record {
  get-zeroed = λ i h. refl;
  get-set = λ b i j v p q. refl;
  first_some = λ b i e.
      let (a, b, c, d) = scan-some size 0 b i e in (omega arith, c, λ j. d j (omega arith));
  first_none = λ b e j. scan-none size 0 b e j (omega arith);
}

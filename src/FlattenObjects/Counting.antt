-- ===== src/FlattenObjects/Counting.antt =====
-- How many of the first IDs a bitmap marks, and how a single write changes that number.
use chenlongos.Prelude.{
  ℕ, zero, suc, ◌+◌, ◌≤◌, ◌<◌, ◌≡◌, refl, ◌∙◌, ◌≢◌, Bool, true, arith, if◌then◌else◌, dec_lt,
}
use chenlongos.FlattenObjects.Bitmap.{BitmapOps, BitmapLaws, size}

abbrev pub assigned_below : (B : BitmapOps) → ℕ → B.Bitmap → ℕ
assigned_below B zero b = 0
assigned_below B (suc n) b = (if B.get b n then 1 else 0) + assigned_below B n b

module _ {B : BitmapOps} (L : BitmapLaws B) where
  pub get-set_self : (b : B.Bitmap) (i : ℕ) (v : Bool) → i < size → B.get (B.set b i v) i ≡ v
  get-set_self b i v h = L.get-set b i i v h h ∙ ground arith

  pub get-set_ne :
      (b : B.Bitmap) (i j : ℕ) (v : Bool)
      → i < size
      → j < size
      → i ≢ j
      → B.get (B.set b i v) j ≡ B.get b j
  get-set_ne b i j v h k ne = L.get-set b i j v h k ∙ ground arith

  assigned_below-set_above :
      (n i : ℕ) (b : B.Bitmap) (v : Bool)
      → n ≤ i
      → i < size
      → assigned_below B n (B.set b i v) ≡ assigned_below B n b
  assigned_below-set_above zero i b v h k = refl
  assigned_below-set_above (suc n) i b v h k =
      rw
        (
          get-set_ne b i n v k (omega arith) (omega arith),
          assigned_below-set_above n i b v (omega arith) k,
        )
        refl

  -- Marking a free ID adds one; freeing a marked one takes one away.
  pub assigned_below-set :
      (n i : ℕ) (b : B.Bitmap) (v : Bool)
      → i < n
      → n ≤ size
      → assigned_below B n (B.set b i v) + (if B.get b i then 1 else 0)
        ≡ assigned_below B n b + (if v then 1 else 0)
  assigned_below-set zero i b v h k = absurd (omega arith)
  assigned_below-set (suc n) i b v h k = elim (dec_lt i n) [
    | yes p ↦
        rw (get-set_ne b i n v (omega arith) (omega arith) (omega arith))
          (omega (arith, assigned_below-set n i b v p (omega arith)))
    | no p ↦
        let at_n : i ≡ n = omega arith in
        rw
          (
            at_n,
            get-set_self b n v (omega arith),
            assigned_below-set_above n n b v (omega arith) (omega arith),
          )
          (omega arith)
  ]

pub assigned_below_all :
    (B : BitmapOps) (n : ℕ) (b : B.Bitmap)
    → ((j : ℕ) → j < n → B.get b j ≡ true)
    → assigned_below B n b ≡ n
assigned_below_all B zero b h = refl
assigned_below_all B (suc n) b h =
    rw (h n (omega arith), assigned_below_all B n b (λ j p. h j (omega arith))) (omega arith)

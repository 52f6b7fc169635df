-- ===== src/Ratio/Precision.antt =====
-- How close a ratio of a shift is to the ratio that it stands for.
use chenlongos.Prelude.{
  ℕ, zero, suc, ◌+◌, ◌-◌, ◌*◌, ◌/◌, ◌%◌, ◌^◌, ◌≡◌, ◌<◌, ◌≤◌, refl, sym, ap, ◌∙◌, Bool, true, false,
  none, some, leb, ◌==◌, ==_iff, leb→le, if◌then◌else◌, arith, mod-eq_of_lt, mod-lt,
}
use native.Mathlib.Nat.{div-add-mod, mul_assoc, mul_comm, pow-le-pow_right, mul-le-mul_left}
use native.Mathlib.Nat.{mul-le-mul, div-lt_iff_lt-mul, pow-suc}
use chenlongos.Prelude.{subst, if-false, not, ◌&&◌}
use chenlongos.Ratio.{Ratio, scaled, find_mult, halve, new}

-- `mult / 2 ^ shift` is within half of a unit of the last place of `num / den`.
pub record Close (num den : ℕ) (r : ℕ × ℕ) : Type 0 where
  pub below : 2 * (r.0 * den) ≤ 2 * (num * 2 ^ r.1) + den
  pub above : 2 * (num * 2 ^ r.1) ≤ 2 * (r.0 * den) + den

module _ (num den : ℕ) (small_num : num < 2 ^ 32) (small_den : den < 2 ^ 32)
    (positive : 0 < den) where
  -- No wrap: the numerator shifted by at most 32 bits has 64.
  scaled_exact : (shift : ℕ) → shift ≤ 32 → scaled num den shift ≡ (num * 2 ^ shift + den / 2) / den
  scaled_exact shift h =
      let fits : num * 2 ^ shift ≤ (2 ^ 32 - 1) * 2 ^ 32 =
        mul-le-mul {n₁ = num} {m₁ = 2 ^ shift} {n₂ = 2 ^ 32 - 1} {m₂ = 2 ^ 32}
          (omega (arith, small_num))
          (pow-le-pow_right {n = 2} (omega arith) {i = shift} {j = 32} h) in
      ap (λ (x : ℕ). x / den) (omega (arith, fits, small_den))

  scaled-Close : (shift : ℕ) → shift ≤ 32 → Close num den (scaled num den shift, shift)
  scaled-Close shift h =
      let q : ℕ = (num * 2 ^ shift + den / 2) / den in
      let whole = div-add-mod (num * 2 ^ shift + den / 2) den in
      let rest : (num * 2 ^ shift + den / 2) % den < den =
        mod-lt (num * 2 ^ shift + den / 2) positive in
      let turned : q * den ≡ den * q = mul_comm q den in
      subst (λ (m : ℕ). Close num den (m, shift)) (sym (scaled_exact shift h))
        (record {
          below = omega (arith, whole, rest, turned);
          above = omega (arith, whole, rest, turned);
        })

  scaled_last : scaled num den 0 < 2 ^ 32
  scaled_last =
      let grows : num * 1 ≤ num * den = mul-le-mul_left num positive in
      let more : suc num * den ≡ num * den + den = omega arith in
      let at_most : (num * 2 ^ 0 + den / 2) / den < suc num =
        (div-lt_iff_lt-mul {k = den} {x = num * 2 ^ 0 + den / 2} {y = suc num} positive).1
          (omega (arith, grows, more, positive)) in
      omega (arith, scaled_exact 0 (omega arith), at_most, small_num)

  -- A product of 32 bits with a shift of at most 32 that is close.
  abbrev Found : ℕ × ℕ → Type 0
  Found r = Close num den r × (r.0 < 2 ^ 32) × (r.1 ≤ 32)

  find_mult-Found : (shift : ℕ) → shift ≤ 32 → Found (find_mult num den shift)
  unfolding find_mult
  find_mult-Found zero h = (scaled-Close 0 h, scaled_last, h)
  find_mult-Found (suc shift) h =
      by (leb (scaled num den (suc shift)) (2 ^ 32 - 1)) refl
        (find_mult-Found shift (omega (arith, h)))
    where
      by :
          (b : Bool)
          → leb (scaled num den (suc shift)) (2 ^ 32 - 1) ≡ b
          → Found (find_mult num den shift)
          → Found (if b then (scaled num den (suc shift), suc shift) else find_mult num den shift)
      by true e rest = (
        scaled-Close (suc shift) h,
        omega (arith, leb→le (scaled num den (suc shift)) (2 ^ 32 - 1) e),
        h,
      )
      by false e rest = rest

  half_product : (m n : ℕ) → m % 2 ≡ 0 → m * n ≡ 2 * (m / 2 * n)
  half_product m n e =
      let twice : m ≡ 2 * (m / 2) = omega (arith, e) in
      ap (λ (x : ℕ). x * n) twice ∙ mul_assoc 2 (m / 2) n

  double_power : (shift : ℕ) → num * 2 ^ suc shift ≡ 2 * (num * 2 ^ shift)
  double_power shift =
      ap (λ (x : ℕ). num * x) (pow-suc 2 shift)
      ∙ sym (mul_assoc num (2 ^ shift) 2)
      ∙ mul_comm (num * 2 ^ shift) 2

  halve-Found : (mult shift : ℕ) → Found (mult, shift) → Found (halve mult shift)
  unfolding halve
  halve-Found mult zero f = f
  halve-Found mult (suc shift) f = by (mult % 2 == 0) refl (halve-Found (mult / 2) shift)
    where
      by :
          (b : Bool)
          → (mult % 2 == 0) ≡ b
          → (Found (mult / 2, shift) → Found (halve (mult / 2) shift))
          → Found (if b then halve (mult / 2) shift else (mult, suc shift))
      by true e rest =
          let even : mult % 2 ≡ 0 = (==_iff (mult % 2) 0).0 e in
          let c = f.0 in
          rest (
            record {
              below = omega (arith, c.below, half_product mult den even, double_power shift);
              above = omega (arith, c.above, half_product mult den even, double_power shift);
            },
            omega (arith, f.1),
            omega (arith, f.2),
          )
      by false e rest = f

-- For 32-bit numbers, the numerator and the denominator above zero, `new` gives a product that was not
-- cut to 32 bits and a shift of at most 32, such that `mult / 2 ^ shift` is no further from the ratio
-- than half of `1 / 2 ^ shift`.
pub new-Close :
    (num den : ℕ)
    → 0 < num
    → num < 2 ^ 32
    → 0 < den
    → den < 2 ^ 32
    → (r : Ratio) × (new num den ≡ some r)
      × (r.mult < 2 ^ 32)
      × (r.shift ≤ 32)
      × Close num den (r.mult, r.shift)
unfolding new
new-Close num den pn hn pd hd =
    let a = find_mult-Found num den hn hd pd 32 (omega arith) in
    let h = halve (find_mult num den 32).0 (find_mult num den 32).1 in
    let b = halve-Found num den hn hd pd (find_mult num den 32).0 (find_mult num den 32).1 a in
    let whole : h.0 % 2 ^ 32 ≡ h.0 = mod-eq_of_lt b.1 in
    let r : Ratio = record {
      numerator = num;
      denominator = den;
      mult = h.0 % 2 ^ 32;
      shift = h.1;
    } in
    let nonzero : (num == 0) ≡ false = ground (arith, pn) in
    let passes : (den == 0 && not (num == 0)) ≡ false = ground (arith, pd) in
    (
      r,
      if-false none
            (if num == 0
              then some (record { numerator = num; denominator = den; mult = 0; shift = 0 })
              else some r)
            passes
          ∙ if-false (some (record { numerator = num; denominator = den; mult = 0; shift = 0 }))
              (some r) nonzero,
      omega (arith, whole, b.1),
      b.2,
      subst (λ (m : ℕ). Close num den (m, h.1)) (sym whole) b.0,
    )

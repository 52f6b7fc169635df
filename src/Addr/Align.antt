-- ===== src/Addr/Align.antt =====
-- Alignment to a power of two.
use chenlongos.Prelude.{
  ℕ, ◌+◌, ◌-◌, ◌%◌, ◌^◌, ◌*◌, ◌/◌, ◌≡◌, ◌<◌, ◌≤◌, ◌↔◌, ◌⊎◌, inl, inr, dec_lt, ap, ◌∙◌, true, ==_iff,
  arith, mod-lt, mod-eq_of_lt,
}
use chenlongos.Prelude.Bits.{bit_and-low, bit_and-high, two_pow_positive}
use native.Mathlib.Nat.{pow-le-pow_right, div-add-mod, mul-add-mod_self_left}
use Prim.Native.Nat.{bit_and}
use chenlongos.Addr.{
  align_down, align_up, align_offset, is_aligned, wrapping_sub, wrapping_add, bit_not,
}

below_word : {k : ℕ} → k < 64 → 2 ^ k < 2 ^ 64
below_word {k = k} h =
    omega (arith, pow-le-pow_right {n = 2} (omega arith) {i = k} {j = 63} (omega (arith, h)))

mask : (k : ℕ) → k < 64 → wrapping_sub (2 ^ k) 1 ≡ 2 ^ k - 1
mask k h = omega (arith, two_pow_positive k, below_word h)

mask_not : (k : ℕ) → k < 64 → bit_not (wrapping_sub (2 ^ k) 1) ≡ 2 ^ 64 - 2 ^ k
mask_not k h = omega (arith, mask k h, two_pow_positive k, below_word h)

pub align_offset_lem : (k addr : ℕ) → k < 64 → align_offset addr (2 ^ k) ≡ addr % 2 ^ k
unfolding align_offset
align_offset_lem k addr h = ap (bit_and addr) (mask k h) ∙ bit_and-low k addr

and_mask :
    (k addr : ℕ)
    → k < 64
    → addr < 2 ^ 64
    → bit_and addr (bit_not (wrapping_sub (2 ^ k) 1)) ≡ addr - addr % 2 ^ k
and_mask k addr h b = ap (bit_and addr) (mask_not k h) ∙ bit_and-high k 64 addr b (omega (arith, h))

-- What is left of a number without its remainder is a multiple.
sub_mod : (a p : ℕ) → 0 < p → (a - a % p) % p ≡ 0
sub_mod a p h =
    let whole : a - a % p ≡ p * (a / p) + 0 = omega (arith, div-add-mod a p) in
    ap (λ (x : ℕ). x % p) whole ∙ mul-add-mod_self_left p (a / p) 0 ∙ mod-eq_of_lt h

-- For an address of 64 bits and a power of two below 2 ^ 64, `align_down` gives a multiple that is
-- not above the address and less than one alignment below it, and `align_offset` gives what it takes
-- away; `is_aligned` says whether that is zero.
pub align_down_lem :
    (k addr : ℕ)
    → k < 64
    → addr < 2 ^ 64
    → (align_down addr (2 ^ k) % 2 ^ k ≡ 0)
      × (align_down addr (2 ^ k) ≤ addr)
      × (addr < align_down addr (2 ^ k) + 2 ^ k)
      × (align_down addr (2 ^ k) + align_offset addr (2 ^ k) ≡ addr)
      × ((is_aligned addr (2 ^ k) ≡ true) ↔ (align_down addr (2 ^ k) ≡ addr))
unfolding align_down
align_down_lem k addr h b =
    let down = and_mask k addr h b in
    let off = align_offset_lem k addr h in
    let small : addr % 2 ^ k < 2 ^ k = mod-lt addr (two_pow_positive k) in
    let part : addr % 2 ^ k ≤ addr = omega (arith, div-add-mod addr (2 ^ k)) in
    (
      ap (λ (x : ℕ). x % 2 ^ k) down ∙ sub_mod addr (2 ^ k) (two_pow_positive k),
      omega (arith, down),
      omega (arith, down, small),
      omega (arith, down, off, part),
      (
        λ e.
            let z : align_offset addr (2 ^ k) ≡ 0 = (==_iff (align_offset addr (2 ^ k)) 0).0 e in
            omega (arith, down, off, z),
        λ e. (==_iff (align_offset addr (2 ^ k)) 0).1 (omega (arith, down, off, e, part)),
      ),
    )

-- For an address of 64 bits and a power of two below 2 ^ 64, `align_up` gives the least multiple that
-- is not below the address, if there is one of 64 bits; else it wraps round to zero.
pub align_up_lem :
    (k addr : ℕ)
    → k < 64
    → addr < 2 ^ 64
    → (align_up addr (2 ^ k) % 2 ^ k ≡ 0)
      × (((addr ≤ align_up addr (2 ^ k)) × (align_up addr (2 ^ k) < addr + 2 ^ k))
          ⊎ ((2 ^ 64 < addr + 2 ^ k) × (align_up addr (2 ^ k) ≡ 0)))
unfolding align_up
align_up_lem k addr h b = elim (dec_lt (addr + 2 ^ k - 1) (2 ^ 64)) [
  | yes fits ↦
      let x : ℕ = addr + 2 ^ k - 1 in
      let sum : wrapping_sub (wrapping_add addr (2 ^ k)) 1 ≡ x =
        omega (arith, fits, two_pow_positive k, below_word h) in
      let up =
        ap (λ (y : ℕ). bit_and y (bit_not (wrapping_sub (2 ^ k) 1))) sum ∙ and_mask k x h fits in
      let small : x % 2 ^ k < 2 ^ k = mod-lt x (two_pow_positive k) in
      let part : x % 2 ^ k ≤ x = omega (arith, div-add-mod x (2 ^ k)) in
      (
        ap (λ (y : ℕ). y % 2 ^ k) up ∙ sub_mod x (2 ^ k) (two_pow_positive k),
        inl (
          omega (arith, up, small, part, two_pow_positive k),
          omega (arith, up, two_pow_positive k),
        ),
      )
  | no over ↦
      let x : ℕ = addr + 2 ^ k - 1 - 2 ^ 64 in
      let beyond : 2 ^ 64 ≤ addr + 2 ^ k - 1 = omega (arith, over) in
      let small : x < 2 ^ k = omega (arith, b, two_pow_positive k) in
      let word : x < 2 ^ 64 = omega (arith, small, below_word h) in
      let sum : wrapping_sub (wrapping_add addr (2 ^ k)) 1 ≡ x =
        omega (arith, beyond, b, below_word h) in
      let up =
        ap (λ (y : ℕ). bit_and y (bit_not (wrapping_sub (2 ^ k) 1))) sum ∙ and_mask k x h word in
      let whole : x % 2 ^ k ≡ x = mod-eq_of_lt small in
      (
        ap (λ (y : ℕ). y % 2 ^ k) up ∙ sub_mod x (2 ^ k) (two_pow_positive k),
        inr (omega (arith, beyond, two_pow_positive k), omega (arith, up, whole)),
      )
]

-- ===== src/Ratio.antt =====
-- Ratios of 32-bit numbers, crates/ratio/src/lib.rs: `mult / 2 ^ shift` for a numerator and a
-- denominator. `none` is a failed assertion. Both loops count the shift down.
pub mod Precision
mod Tests
use chenlongos.Prelude.{
  ℕ, zero, suc, ◌+◌, ◌-◌, ◌*◌, ◌/◌, ◌%◌, ◌^◌, Bool, true, false, not, ◌&&◌, Option, none, some, leb,
  ◌==◌, if◌then◌else◌,
}

pub record Ratio : Type 0 where
  pub numerator : ℕ
  pub denominator : ℕ
  pub mult : ℕ
  pub shift : ℕ

-- `Ratio::zero`
abbrev pub zero_ratio : Ratio
zero_ratio = record { numerator = 0; denominator = 0; mult = 0; shift = 0 }

abbrev pub scaled : ℕ → ℕ → ℕ → ℕ
scaled num den shift = (num * 2 ^ shift % 2 ^ 64 + den / 2) % 2 ^ 64 / den

-- The first loop, from a shift of 32 down to one at which the product has 32 bits.
unfoldable pub find_mult : ℕ → ℕ → ℕ → ℕ × ℕ
find_mult num den zero = (scaled num den 0, 0)
find_mult num den (suc shift) =
    let rest = find_mult num den shift in
    if leb (scaled num den (suc shift)) (2 ^ 32 - 1)
    then (scaled num den (suc shift), suc shift)
    else rest

-- The second loop.
unfoldable pub halve : ℕ → ℕ → ℕ × ℕ
halve mult zero = (mult, 0)
halve mult (suc shift) =
    let rest = halve (mult / 2) shift in if mult % 2 == 0 then rest else (mult, suc shift)

unfoldable pub new : ℕ → ℕ → Option Ratio
new num den =
    let found = find_mult num den 32 in
    let halved = halve found.0 found.1 in
    if den == 0 && not (num == 0)
    then none
    else (if num == 0
        then some (record { numerator = num; denominator = den; mult = 0; shift = 0 })
        else some (record {
          numerator = num;
          denominator = den;
          mult = halved.0 % 2 ^ 32;
          shift = halved.1;
        }))

abbrev pub inverse : Ratio → Option Ratio
inverse r = new r.denominator r.numerator

abbrev pub mul_trunc : Ratio → ℕ → ℕ
mul_trunc r value = value * r.mult % 2 ^ 128 / 2 ^ r.shift % 2 ^ 64

abbrev pub mul_round : Ratio → ℕ → ℕ
mul_round r value = (value * r.mult + 2 ^ r.shift / 2) % 2 ^ 128 / 2 ^ r.shift % 2 ^ 64

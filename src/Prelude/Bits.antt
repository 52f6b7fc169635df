-- ===== src/Prelude/Bits.antt =====
-- The native `bit_and` with a mask of the low bits, and with one of the bits above them.
use Prim.Native.Nat.{
  ℕ, zero, suc, ◌+◌, ◌-◌, ◌*◌, ◌/◌, ◌%◌, ◌^◌, ◌≤◌, ◌<◌, min, bit_and, digits, bit_and-bitwise,
}
use mathlib.Core.Path.{◌≡◌, refl, ap, ◌∙◌}
use native.Mathlib.Omega.{arith}
use native.Mathlib.Nat.{
  mul-add-mod_self_left, mod-eq_of_lt, mod-lt, div-add-mod, two-pow-succ, mul_assoc,
  pow-le-pow_right,
}

-- What `bit_and` stands for, with any fuel that is large enough.
abbrev and_with : ℕ → ℕ → ℕ → ℕ
and_with fuel a b = digits (λ c. zero) min fuel a b

more_fuel : (f g a b : ℕ) → a ≤ f → a ≤ g → and_with f a b ≡ and_with g a b
more_fuel zero g (suc a) b hf hg = absurd (omega arith)
more_fuel (suc f) zero (suc a) b hf hg = absurd (omega arith)
more_fuel zero zero zero b hf hg = refl
more_fuel zero (suc g) zero b hf hg = refl
more_fuel (suc f) zero zero b hf hg = refl
more_fuel (suc f) (suc g) zero b hf hg = refl
more_fuel (suc f) (suc g) (suc a) b hf hg =
    omega (arith, more_fuel f g (suc a / 2) (b / 2) (omega arith) (omega arith))

bit_and_nothing : (b : ℕ) → bit_and 0 b ≡ 0
bit_and_nothing b = bit_and-bitwise 0 b

-- The lowest bit and those above it.
bit_and_halves : (a b : ℕ) → bit_and a b ≡ 2 * bit_and (a / 2) (b / 2) + min (a % 2) (b % 2)
bit_and_halves zero b = omega (arith, bit_and_nothing b, bit_and_nothing (b / 2))
bit_and_halves (suc a) b = omega (
  arith,
  bit_and-bitwise (suc a) b,
  bit_and-bitwise (suc a / 2) (b / 2),
  more_fuel a (suc a / 2) (suc a / 2) (b / 2) (omega arith) (omega arith),
)

bit_and_zero : (n a : ℕ) → a ≤ n → bit_and a 0 ≡ 0
bit_and_zero n zero h = bit_and_nothing 0
bit_and_zero zero (suc a) h = absurd (omega arith)
bit_and_zero (suc n) (suc a) h =
    omega (arith, bit_and_halves (suc a) 0, bit_and_zero n (suc a / 2) (omega arith))

double : (k : ℕ) → 2 ^ suc k ≡ 2 * 2 ^ k
double k = omega (arith, two-pow-succ k)

pub two_pow_positive : (k : ℕ) → 0 < 2 ^ k
two_pow_positive zero = omega arith
two_pow_positive (suc k) = omega (arith, double k, two_pow_positive k)

-- A remainder by a double, from the half.
mod_double : (a p : ℕ) → 0 < p → a % (2 * p) ≡ 2 * (a / 2 % p) + a % 2
mod_double a p h =
    let r : a / 2 % p < p = mod-lt (a / 2) h in
    let whole : a ≡ 2 * p * (a / 2 / p) + (2 * (a / 2 % p) + a % 2) =
      omega (arith, div-add-mod (a / 2) p, mul_assoc 2 p (a / 2 / p)) in
    ap (λ (x : ℕ). x % (2 * p)) whole
    ∙ mul-add-mod_self_left (2 * p) (a / 2 / p) (2 * (a / 2 % p) + a % 2)
    ∙ mod-eq_of_lt (omega (arith, r))

pow_le : {k w : ℕ} → k ≤ w → 2 ^ k ≤ 2 ^ w
pow_le h = pow-le-pow_right {n = 2} (omega arith) h

-- The bits below `k`.
pub bit_and-low : (k a : ℕ) → bit_and a (2 ^ k - 1) ≡ a % 2 ^ k
bit_and-low zero a = omega (arith, bit_and_zero a a (omega arith))
bit_and-low (suc k) a =
    let half : (2 ^ suc k - 1) / 2 ≡ 2 ^ k - 1 = omega (arith, double k, two_pow_positive k) in
    let odd : (2 ^ suc k - 1) % 2 ≡ 1 = omega (arith, double k, two_pow_positive k) in
    omega (
      arith,
      bit_and_halves a (2 ^ suc k - 1),
      ap (bit_and (a / 2)) half,
      odd,
      bit_and-low k (a / 2),
      ap (λ (p : ℕ). a % p) (double k),
      mod_double a (2 ^ k) (two_pow_positive k),
    )

-- The bits from `k` on, of a number of `w` bits.
pub bit_and-high : (k w a : ℕ) → a < 2 ^ w → k ≤ w → bit_and a (2 ^ w - 2 ^ k) ≡ a - a % 2 ^ k
bit_and-high zero w a h kw =
    let all : a % 2 ^ w ≡ a = mod-eq_of_lt h in omega (arith, bit_and-low w a, all)
bit_and-high (suc k) zero a h kw = absurd (omega arith)
bit_and-high (suc k) (suc w) a h kw =
    let le : 2 ^ k ≤ 2 ^ w = pow_le (omega arith) in
    let half : (2 ^ suc w - 2 ^ suc k) / 2 ≡ 2 ^ w - 2 ^ k =
      omega (arith, double k, double w, le) in
    let even : (2 ^ suc w - 2 ^ suc k) % 2 ≡ 0 = omega (arith, double k, double w, le) in
    omega (
      arith,
      bit_and_halves a (2 ^ suc w - 2 ^ suc k),
      ap (bit_and (a / 2)) half,
      even,
      bit_and-high k w (a / 2) (omega (arith, h, double w)) (omega arith),
      ap (λ (p : ℕ). a % p) (double k),
      mod_double a (2 ^ k) (two_pow_positive k),
    )

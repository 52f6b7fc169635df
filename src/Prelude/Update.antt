-- ===== src/Prelude/Update.antt =====
-- A function on numbers with one value replaced.
use Prim.Native.Nat.{ℕ}
use mathlib.Core.Path.{◌≡◌}
use mathlib.Core.Logic.{◌≢◌}
use native.Mathlib.Omega.{arith}
use chenlongos.Prelude.Tests.{◌==◌, ==_iff, ==-refl, if◌then◌else◌, if-true}

abbrev pub update {ℓ} : {A : Type ℓ} → (ℕ → A) → ℕ → A → ℕ → A
update f i a j = if j == i then a else f j

module _ {ℓ} {A : Type ℓ} (f : ℕ → A) where
  pub update_self : (i : ℕ) (a : A) → update f i a i ≡ a
  update_self i a = if-true a (f i) (==-refl i)

  pub update_ne : (i : ℕ) (a : A) {j : ℕ} → j ≢ i → update f i a j ≡ f j
  update_ne i a {j = j} h = ground (arith, ==_iff j i)

-- ===== src/Prelude/Permutation.antt =====
-- What a rearrangement of a list keeps, over the native numbers.
use Prim.Native.Nat.{ℕ, suc, ◌+◌}
use mathlib.Core.Path.{◌≡◌, refl, ap, ◌∙◌}
use mathlib.Core.Logic.{∥∥₁_elim}
use mathlib.Core.List.{List, [], ◌∷◌, Perm, Permᴰ}
use native.Mathlib.Omega.{arith}
use native.Mathlib.Nat.{ℕ_set}
use chenlongos.Prelude.Tests.{◌==◌, if◌then◌else◌}
use chenlongos.Prelude.Lists.{length}

-- How often a number stands in a list.
abbrev pub count : ℕ → List ℕ → ℕ
count a [] = 0
count a (x ∷ xs) = (if x == a then 1 else 0) + count a xs

module _ {ℓ} {A : Type ℓ} where
  length-permᴰ : {xs ys : List A} → Permᴰ xs ys → length xs ≡ length ys
  length-permᴰ Permᴰ.nil = refl
  length-permᴰ (Permᴰ.cons e d) = ap suc (length-permᴰ d)
  length-permᴰ (Permᴰ.swap e f) = refl
  length-permᴰ (Permᴰ.trans d e) = length-permᴰ d ∙ length-permᴰ e

  pub length-perm : {xs ys : List A} → Perm xs ys → length xs ≡ length ys
  length-perm p = ∥∥₁_elim p (ℕ_set _ _) length-permᴰ

count-permᴰ : (a : ℕ) {xs ys : List ℕ} → Permᴰ xs ys → count a xs ≡ count a ys
count-permᴰ a Permᴰ.nil = refl
count-permᴰ a (Permᴰ.cons {a = x} {b = y} {l₁ = xs} e d) = rw (e, count-permᴰ a d) refl
count-permᴰ a (Permᴰ.swap {l = l} e f) = rw (e, f) (omega arith)
count-permᴰ a (Permᴰ.trans d e) = count-permᴰ a d ∙ count-permᴰ a e

pub count-perm : (a : ℕ) {xs ys : List ℕ} → Perm xs ys → count a xs ≡ count a ys
count-perm a p = ∥∥₁_elim p (ℕ_set _ _) (count-permᴰ a)

-- ===== src/Prelude/Text.antt =====
-- Strings as lists of code points, with the operations of `str` that the code uses.
use Prim.Native.Nat.{ℕ}
use Prim.Native.Char.{code}
use Prim.Native.String.{String}
use mathlib.Core.Path.{◌≡◌, refl, ap₂}
use mathlib.Core.Bool.{Bool, true, false, ◌&&◌}
use mathlib.Core.List.{List, [], ◌∷◌, reverse}
use native.Mathlib.Omega.{arith}
use chenlongos.Prelude.Tests.{◌==◌, ==_iff, ==-refl, if◌then◌else◌}

abbrev pub Str : Type 0
Str = List ℕ

abbrev pub codes : String → Str
codes String.[] = []
codes (String.◌∷◌ c s) = code c ∷ codes s

abbrev pub is_empty {ℓ} : {A : Type ℓ} → List A → Bool
is_empty [] = true
is_empty (x ∷ xs) = false

abbrev pub str_eq : Str → Str → Bool
str_eq [] [] = true
str_eq [] (d ∷ ds) = false
str_eq (c ∷ cs) [] = false
str_eq (c ∷ cs) (d ∷ ds) = (c == d) && str_eq cs ds

pub str_eq_refl : (s : Str) → str_eq s s ≡ true
str_eq_refl [] = refl
str_eq_refl (c ∷ cs) = rw (==-refl c) (str_eq_refl cs)

pub str_eq→≡ : (s t : Str) → str_eq s t ≡ true → s ≡ t
str_eq→≡ [] [] h = refl
str_eq→≡ [] (d ∷ ds) h = cc
str_eq→≡ (c ∷ cs) [] h = cc
str_eq→≡ (c ∷ cs) (d ∷ ds) h =
    let here : (c == d) ≡ true = ground (arith, h) in
    let rest : str_eq cs ds ≡ true = ground (arith, h) in
    ap₂ (λ x xs. x ∷ xs) (ground (arith, ==_iff c d, here)) (str_eq→≡ cs ds rest)

-- `starts_with` a prefix, and what stands behind it (`strip_prefix`).
abbrev pub starts_with : Str → Str → Bool
starts_with s [] = true
starts_with [] (d ∷ ds) = false
starts_with (c ∷ cs) (d ∷ ds) = (c == d) && starts_with cs ds

abbrev pub ends_with : Str → Str → Bool
ends_with s t = starts_with (reverse s) (reverse t)

abbrev pub trim_start : ℕ → Str → Str
trim_start d [] = []
trim_start d (c ∷ cs) = elim (c == d) [ true ↦ trim_start d cs | false ↦ c ∷ cs ]

-- `trim_matches`, at both ends.
abbrev pub trim : ℕ → Str → Str
trim d s = reverse (trim_start d (reverse (trim_start d s)))

-- The part before the first separator, and those behind it.
abbrev pub split_first : ℕ → Str → Str × List Str
split_first d [] = ([], [])
split_first d (c ∷ cs) =
    let rest = split_first d cs in if c == d then ([], rest.0 ∷ rest.1) else (c ∷ rest.0, rest.1)

abbrev pub split : ℕ → Str → List Str
split d s = (split_first d s).0 ∷ (split_first d s).1

abbrev pub lacks : ℕ → Str → Bool
lacks d [] = true
lacks d (c ∷ cs) = elim (c == d) [ true ↦ false | false ↦ lacks d cs ]

-- ===== src/Fs/Tree/Map.antt =====
-- A map from names, `BTreeMap`: entries in the order of their names, one for a name.
use chenlongos.Prelude.{
  ◌≡◌, refl, ap, Bool, true, false, Option, none, some, List, [], ◌∷◌, ltb, ◌==◌, if◌then◌else◌,
  Str, str_eq, str_eq→≡, str_eq_refl, arith,
}

abbrev pub NameMap {ℓ} : Type ℓ → Type ℓ
NameMap V = List (Str × V)

abbrev pub str_ltb : Str → Str → Bool
str_ltb s [] = false
str_ltb [] (d ∷ ds) = true
str_ltb (c ∷ cs) (d ∷ ds) = if c == d then str_ltb cs ds else ltb c d

str_eq_left : (n k j : Str) → str_eq n k ≡ true → str_eq n j ≡ str_eq k j
str_eq_left n k j h = ap (λ (s : Str). str_eq s j) (str_eq→≡ n k h)

module _ {ℓ} {V : Type ℓ} where
  abbrev pub map_get : NameMap V → Str → Option V
  map_get [] k = none
  map_get ((n, v) ∷ m) k = elim (str_eq n k) [ true ↦ some v | false ↦ map_get m k ]

  abbrev pub map_insert : NameMap V → Str → V → NameMap V
  map_insert [] k x = (k, x) ∷ []
  map_insert ((n, v) ∷ m) k x =
      let later = map_insert m k x in
      if str_eq n k
      then (k, x) ∷ m
      else (if str_ltb k n then (k, x) ∷ (n, v) ∷ m else (n, v) ∷ later)

  abbrev pub map_remove : NameMap V → Str → NameMap V
  map_remove [] k = []
  map_remove ((n, v) ∷ m) k = elim (str_eq n k) [
    | true ↦ map_remove m k
    | false ↦ (n, v) ∷ map_remove m k
  ]

  pub map_get-insert_self :
      (m : NameMap V) (k : Str) (x : V) → map_get (map_insert m k x) k ≡ some x
  map_get-insert_self [] k x = ground (arith, str_eq_refl k)
  map_get-insert_self ((n, v) ∷ m) k x = ground (arith, str_eq_refl k, map_get-insert_self m k x)

  pub map_get-insert_ne :
      (m : NameMap V) (k j : Str) (x : V)
      → str_eq k j ≡ false
      → map_get (map_insert m k x) j ≡ map_get m j
  map_get-insert_ne [] k j x h = ground (arith, h)
  map_get-insert_ne ((n, v) ∷ m) k j x h =
      ground (arith, h, str_eq_left n k j, map_get-insert_ne m k j x h)

  pub map_get-remove_self : (m : NameMap V) (k : Str) → map_get (map_remove m k) k ≡ none
  map_get-remove_self [] k = refl
  map_get-remove_self ((n, v) ∷ m) k = ground (arith, map_get-remove_self m k)

  pub map_get-remove_ne :
      (m : NameMap V) (k j : Str) → str_eq k j ≡ false → map_get (map_remove m k) j ≡ map_get m j
  map_get-remove_ne [] k j h = refl
  map_get-remove_ne ((n, v) ∷ m) k j h =
      ground (arith, h, str_eq_left n k j, map_get-remove_ne m k j h)

  map_remove_missing : (m : NameMap V) (k : Str) → map_get m k ≡ none → map_remove m k ≡ m
  map_remove_missing [] k h = refl
  map_remove_missing ((n, v) ∷ m) k h =
      let here : str_eq n k ≡ false = ground (arith, h) in
      let rest : map_get m k ≡ none = ground (arith, h) in
      ground (arith, here, map_remove_missing m k rest)

  pub map_remove-insert :
      (m : NameMap V) (k : Str) (x : V) → map_get m k ≡ none → map_remove (map_insert m k x) k ≡ m
  map_remove-insert [] k x h = ground (arith, str_eq_refl k)
  map_remove-insert ((n, v) ∷ m) k x h =
      let here : str_eq n k ≡ false = ground (arith, h) in
      let rest : map_get m k ≡ none = ground (arith, h) in
      ground (arith, here, str_eq_refl k, map_remove-insert m k x rest, map_remove_missing m k rest)

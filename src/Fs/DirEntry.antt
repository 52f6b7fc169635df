-- ===== src/Fs/DirEntry.antt =====
-- Entries of directories, `VfsDirEntry` of crates/axfs_vfs/src/structs.rs: a name in 63 bytes, with
-- zeros behind it. `none` is a panic: a slice beyond the end.
use chenlongos.Prelude.{
  ℕ, zero, suc, ◌-◌, ◌<◌, ◌≤◌, ◌≡◌, refl, ap, Bool, true, false, ◌&&◌, not, Option, none, some,
  List, [], ◌∷◌, ◌++◌, length, take, replicate, leb, ◌==◌, if◌then◌else◌, arith,
}
use chenlongos.Fs.Types.{VfsNodeType, file}

pub record VfsDirEntry : Type 0 where
  pub d_type : VfsNodeType
  pub d_name : List ℕ

abbrev pub default : VfsDirEntry
default = record { d_type = file; d_name = replicate 63 0 }

unfoldable pub new : List ℕ → VfsNodeType → Option VfsDirEntry
new name ty =
    if leb (length name) 63
    then some (record { d_type = ty; d_name = name ++ replicate (63 - length name) 0 })
    else none

-- Where the first zero stands, or else the length.
abbrev position : List ℕ → ℕ
position [] = 0
position (c ∷ cs) = if c == 0 then 0 else suc (position cs)

pub name_as_bytes : VfsDirEntry → List ℕ
name_as_bytes d = take (position d.d_name) d.d_name

abbrev pub no_zero : List ℕ → Bool
no_zero [] = true
no_zero (c ∷ cs) = not (c == 0) && no_zero cs

take-position :
    (name : List ℕ) (n : ℕ)
    → no_zero name ≡ true
    → take (position (name ++ replicate n 0)) (name ++ replicate n 0) ≡ name
take-position [] zero h = refl
take-position [] (suc n) h = refl
take-position (c ∷ cs) n h =
    let here : (c == 0) ≡ false = ground (arith, h) in
    let rest : no_zero cs ≡ true = ground (arith, h) in
    rw here (ap (λ l. c ∷ l) (take-position cs n rest))

-- A name without a zero byte is read back from its entry if it has at most 63 bytes; a longer name
-- is not cut, although there is a warning for it: `new` panics.
pub name_as_bytes-new :
    (name : List ℕ) (ty : VfsNodeType)
    → no_zero name ≡ true
    → (length name ≤ 63
        → (d : VfsDirEntry) × (new name ty ≡ some d) × (name_as_bytes d ≡ name) × (d.d_type ≡ ty))
      × (63 < length name → new name ty ≡ none)
unfolding new name_as_bytes
name_as_bytes-new name ty h = (
  λ short. (
    record { d_type = ty; d_name = name ++ replicate (63 - length name) 0 },
    ground arith,
    take-position name (63 - length name) h,
    refl,
  ),
  λ long. ground arith,
)

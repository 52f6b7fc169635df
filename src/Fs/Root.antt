-- ===== src/Fs/Root.antt =====
-- The root directory with its mount points and the current directory, modules/axfs/src/root.rs, over
-- the file systems that are mounted. A call leaves a state and a result; `none` is a panic, or a run
-- of a file system that does not end.
pub mod Mount
pub mod Calls
pub mod Current
pub mod Table
pub mod Trees
mod Tests
use chenlongos.Prelude.{
  ℕ, zero, suc, ◌-◌, Bool, true, false, not, ◌&&◌, Option, none, some, List, [], ◌∷◌, ◌++◌, length,
  drop, get_elem?, ltb, ◌==◌, if◌then◌else◌, Str, codes, is_empty, str_eq, starts_with, ends_with,
  trim,
}
use chenlongos.Fs.Types.{
  AxError, AxResult, ok, err, invalid_input, permission_denied, VfsNodeAttr, VfsNodeType, dir,
}

abbrev pub Outcome : Type 0 → Type 0 → Type 0
Outcome S A = Option (S × AxResult A)

-- The operator `?`.
abbrev pub and_do : {S A B : Type 0} → Outcome S A → (S → A → Outcome S B) → Outcome S B
and_do none f = none
and_do (some (s, err e)) f = some (s, err e)
and_do (some (s, ok a)) f = f s a

-- A call that only reads, with the state that stays.
abbrev pub reading : {S A : Type 0} → S → Option (AxResult A) → Outcome S A
reading s none = none
reading s (some r) = some (s, r)

-- `VfsNodeOps` and `VfsOps`, on the state of all file systems.
pub record VfsNodes : Type 1 where
  pub State : Type 0
  pub Node : Type 0
  pub Fs : Type 0
  pub root_dir : Fs → Node
  pub lookup : State → Node → Str → Option (AxResult Node)
  pub create : State → Node → Str → VfsNodeType → Outcome State (Unit {0})
  pub remove : State → Node → Str → Outcome State (Unit {0})
  pub rename : State → Node → Str → Str → Outcome State (Unit {0})
  pub get_attr : State → Node → AxResult VfsNodeAttr
  pub mount_fs : State → Fs → Str → Node → Outcome State (Unit {0})
  pub umount_fs : State → Fs → State

pub record MountPoint (F : Type 0) : Type 0 where
  pub path : Str
  pub fs : F

pub record RootDirectory (F : Type 0) : Type 0 where
  pub main_fs : F
  pub mounts : List (MountPoint F)

-- The recursion on a path that starts with "./".
unfoldable pub strip : ℕ → Str → Str
strip zero path = trim 47 path
strip (suc fuel) path =
    let rest = strip fuel (drop 2 (trim 47 path)) in
    if starts_with (trim 47 path) (codes "./") then rest else trim 47 path

module _ {F : Type 0} where
  abbrev pub new : F → RootDirectory F
  new main = record { main_fs = main; mounts = [] }

  -- `any(|mp| mp.path == path)`
  abbrev pub has_path : List (MountPoint F) → Str → Bool
  has_path [] path = false
  has_path (mp ∷ mps) path = if str_eq mp.path path then true else has_path mps path

  abbrev pub contains : RootDirectory F → Str → Bool
  contains r path = has_path r.mounts path

  abbrev pub retain : List (MountPoint F) → Str → List (MountPoint F)
  retain [] path = []
  retain (mp ∷ mps) path = if str_eq mp.path path then retain mps path else mp ∷ retain mps path

  -- The path below a mount point starts with its path, less the first separator.
  abbrev pub matches : Str → MountPoint F → Bool
  matches path mp = starts_with path (drop 1 mp.path)

  -- The loop over the mount points from the index `i`: the index and the length of the best so far.
  unfoldable pub longest : Str → List (MountPoint F) → ℕ → ℕ × ℕ → ℕ × ℕ
  longest path [] i best = best
  longest path (mp ∷ mps) i best =
      longest path mps (suc i) (
        if matches path mp && ltb best.1 (length mp.path - 1)
        then (i, length mp.path - 1)
        else best)

  abbrev pub below_mount :
      {A : Type 0} → Option (MountPoint F) → Str → (F → Str → Option A) → Option A
  below_mount none rest f = none
  below_mount (some mp) rest f = f mp.fs rest

  abbrev pub select_fs :
      {A : Type 0} → RootDirectory F → Str → ℕ × ℕ → (F → Str → Option A) → Option A
  select_fs r path (idx, zero) f = f r.main_fs path
  select_fs r path (idx, suc n) f = below_mount (get_elem? r.mounts idx) (drop (suc n) path) f

  unfoldable pub lookup_mounted_fs :
      {A : Type 0} → RootDirectory F → Str → (F → Str → Option A) → Option A
  lookup_mounted_fs r path f =
      let stripped = strip (length path) path in
      select_fs r stripped (longest stripped r.mounts 0 (0, 0)) f

module _ (V : VfsNodes) where
  abbrev pub root_lookup : V.State → RootDirectory V.Fs → Str → Option (AxResult V.Node)
  root_lookup s r path = lookup_mounted_fs r path (λ fs rest. V.lookup s (V.root_dir fs) rest)

  abbrev pub root_create :
      V.State → RootDirectory V.Fs → Str → VfsNodeType → Outcome V.State (Unit {0})
  root_create s r path ty =
      lookup_mounted_fs r path
        (λ fs rest. if is_empty rest then some (s, ok tt) else V.create s (V.root_dir fs) rest ty)

  abbrev pub root_remove : V.State → RootDirectory V.Fs → Str → Outcome V.State (Unit {0})
  root_remove s r path = lookup_mounted_fs r path (λ fs rest.
      if is_empty rest then some (s, err permission_denied) else V.remove s (V.root_dir fs) rest)

  abbrev pub root_rename : V.State → RootDirectory V.Fs → Str → Str → Outcome V.State (Unit {0})
  root_rename s r src dst = lookup_mounted_fs r src (λ fs rest.
      if is_empty rest
      then some (s, err permission_denied)
      else V.rename s (V.root_dir fs) rest dst)

  abbrev pub root_attr : V.State → RootDirectory V.Fs → AxResult VfsNodeAttr
  root_attr s r = V.get_attr s (V.root_dir r.main_fs)

  -- The new mount point, once the file system has agreed.
  abbrev pub push_mount :
      RootDirectory V.Fs
      → Str
      → V.Fs
      → Option (V.State × AxResult (Unit {0}))
      → Outcome (V.State × RootDirectory V.Fs) (Unit {0})
  push_mount r path fs none = none
  push_mount r path fs (some (s, err e)) = some ((s, r), err e)
  push_mount r path fs (some (s, ok u)) = some (
    (s, record { main_fs = r.main_fs; mounts = r.mounts ++ record { path = path; fs = fs } ∷ [] }),
    ok tt,
  )

  unfoldable pub mount :
      V.State → RootDirectory V.Fs → Str → V.Fs → Outcome (V.State × RootDirectory V.Fs) (Unit {0})
  mount s r path fs =
      let main = V.root_dir r.main_fs in
      let mounts = push_mount r path fs (
        and_do (V.create s main path dir) (λ s1 u.
          and_do (reading s1 (V.lookup s1 main path)) (λ s2 node. V.mount_fs s2 fs path node))) in
      if str_eq path (codes "/")
      then some ((s, r), err invalid_input)
      else (if not (starts_with path (codes "/"))
          then some ((s, r), err invalid_input)
          else (if contains r path then some ((s, r), err invalid_input) else mounts))

  -- The file systems at a path, which are told when their mount points are dropped.
  abbrev pub dropped : V.State → List (MountPoint V.Fs) → Str → V.State
  dropped s [] path = s
  dropped s (mp ∷ mps) path =
      if str_eq mp.path path then dropped (V.umount_fs s mp.fs) mps path else dropped s mps path

  abbrev pub umount : V.State → RootDirectory V.Fs → Str → V.State × RootDirectory V.Fs
  umount s r path =
      (dropped s r.mounts path, record { main_fs = r.main_fs; mounts = retain r.mounts path })

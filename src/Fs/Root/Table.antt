-- ===== src/Fs/Root/Table.antt =====
-- The table of mount points: what `mount` and `_umount` do to it.
use chenlongos.Prelude.{
  ◌≡◌, refl, ap, ◌∙◌, Bool, true, false, not, ◌&&◌, none, some, List, [], ◌∷◌, ◌++◌, if◌then◌else◌,
  Str, codes, str_eq, str_eq→≡, str_eq_refl, starts_with, arith,
}
use chenlongos.Fs.Types.{AxResult, ok, err, dir, invalid_input}
use chenlongos.Fs.Root.{
  VfsNodes, Outcome, and_do, reading, MountPoint, RootDirectory, has_path, contains, retain,
  push_mount, mount, umount,
}
use chenlongos.Fs.Root.Current.{After, After-some}

-- Each path starts with a separator, is not the root, and stands once.
abbrev pub mounts_ok : {F : Type 0} → List (MountPoint F) → Bool
mounts_ok [] = true
mounts_ok (mp ∷ mps) =
    starts_with mp.path (codes "/")
    && (not (str_eq mp.path (codes "/")) && (not (has_path mps mp.path) && mounts_ok mps))

str_eq_sym : (s t : Str) → str_eq s t ≡ false → str_eq t s ≡ false
str_eq_sym s t h = by (str_eq t s) refl
  where
    by : (b : Bool) → str_eq t s ≡ b → b ≡ false
    by true e =
        let same : t ≡ s = str_eq→≡ t s e in
        let yes_it : str_eq s t ≡ true = ap (str_eq s) same ∙ str_eq_refl s in cc
    by false e = refl

module _ {F : Type 0} where
  has_path-append :
      (mps : List (MountPoint F)) (path name : Str) (fs : F)
      → has_path (mps ++ record { path = path; fs = fs } ∷ []) name
        ≡ (if has_path mps name then true else str_eq path name)
  has_path-append [] path name fs = ground arith
  has_path-append (mp ∷ mps) path name fs = ground (arith, has_path-append mps path name fs)

  has_path-head :
      (mp : MountPoint F) (mps : List (MountPoint F)) (path : Str)
      → has_path (mp ∷ mps) path ≡ false
      → (str_eq mp.path path ≡ false) × (has_path mps path ≡ false)
  has_path-head mp mps path h = (ground (arith, h), ground (arith, h))

  mounts_ok-append :
      (mps : List (MountPoint F)) (path : Str) (fs : F)
      → mounts_ok mps ≡ true
      → starts_with path (codes "/") ≡ true
      → str_eq path (codes "/") ≡ false
      → has_path mps path ≡ false
      → mounts_ok (mps ++ record { path = path; fs = fs } ∷ []) ≡ true
  mounts_ok-append [] path fs h a b c = ground (arith, a, b)
  mounts_ok-append (mp ∷ mps) path fs h a b c =
      let apart = has_path-head mp mps path c in
      let here : has_path mps mp.path ≡ false = ground (arith, h) in
      let rest : mounts_ok mps ≡ true = ground (arith, h) in
      let still : has_path (mps ++ record { path = path; fs = fs } ∷ []) mp.path ≡ false =
        has_path-append mps path mp.path fs
        ∙ ap (λ (x : Bool). if x then true else str_eq path mp.path) here
        ∙ str_eq_sym mp.path path apart.0 in
      ground (arith, h, still, mounts_ok-append mps path fs rest a b apart.1)

  has_path-retain :
      (mps : List (MountPoint F)) (path name : Str)
      → has_path mps name ≡ false
      → has_path (retain mps path) name ≡ false
  has_path-retain [] path name h = refl
  has_path-retain (mp ∷ mps) path name h =
      let apart = has_path-head mp mps name h in
      ground (arith, apart.0, has_path-retain mps path name apart.1)

  mounts_ok-retain :
      (mps : List (MountPoint F)) (path : Str)
      → mounts_ok mps ≡ true
      → mounts_ok (retain mps path) ≡ true
  mounts_ok-retain [] path h = refl
  mounts_ok-retain (mp ∷ mps) path h =
      let here : has_path mps mp.path ≡ false = ground (arith, h) in
      let rest : mounts_ok mps ≡ true = ground (arith, h) in
      ground (arith, h, has_path-retain mps path mp.path here, mounts_ok-retain mps path rest)

  -- What is unmounted is gone, and the rest stays.
  pub contains-umounted :
      (mps : List (MountPoint F)) (path : Str) → has_path (retain mps path) path ≡ false
  contains-umounted [] path = refl
  contains-umounted (mp ∷ mps) path = ground (arith, contains-umounted mps path)

module _ (V : VfsNodes) (s : V.State) (r : RootDirectory V.Fs) (path : Str) (fs : V.Fs) where
  abbrev Table : (V.State × RootDirectory V.Fs) × AxResult (Unit {0}) → Type 0
  Table ((t, q), x) = mounts_ok q.mounts ≡ true

  push_mount-Table :
      (o : Outcome V.State (Unit {0}))
      → mounts_ok r.mounts ≡ true
      → starts_with path (codes "/") ≡ true
      → str_eq path (codes "/") ≡ false
      → contains r path ≡ false
      → After Table (push_mount V r path fs o)
  push_mount-Table none h a b c x e = cc
  push_mount-Table (some (t, err u)) h a b c x e = After-some Table ((t, r), err u) h x e
  push_mount-Table (some (t, ok u)) h a b c x e =
      After-some Table
        (
          (
            t,
            record {
              main_fs = r.main_fs;
              mounts = r.mounts ++ record { path = path; fs = fs } ∷ [];
            },
          ),
          ok tt,
        )
        (mounts_ok-append r.mounts path fs h a b c) x e

  refused : mounts_ok r.mounts ≡ true → After Table (some ((s, r), err invalid_input))
  refused h = After-some Table ((s, r), err invalid_input) h

  mount-Table : mounts_ok r.mounts ≡ true → After Table (mount V s r path fs)
  unfolding mount
  mount-Table h =
      by (str_eq path (codes "/")) (starts_with path (codes "/")) (contains r path) refl refl refl (
        and_do (V.create s (V.root_dir r.main_fs) path dir) (λ s1 u.
          and_do (reading s1 (V.lookup s1 (V.root_dir r.main_fs) path))
            (λ s2 node. V.mount_fs s2 fs path node)))
    where
      by :
          (b a c : Bool)
          → str_eq path (codes "/") ≡ b
          → starts_with path (codes "/") ≡ a
          → contains r path ≡ c
          → (o : Outcome V.State (Unit {0}))
          → After Table (
              if b
              then some ((s, r), err invalid_input)
              else (if not a
                  then some ((s, r), err invalid_input)
                  else (if c then some ((s, r), err invalid_input) else push_mount V r path fs o)))
      by true a c eb ea ec o = refused h
      by false false c eb ea ec o = refused h
      by false true true eb ea ec o = refused h
      by false true false eb ea ec o = push_mount-Table o h ea eb ec

  -- The table of mount points stays one in which each path starts with a separator, is not "/" and
  -- stands once, through `mount` however it returns, and through `_umount`, which leaves no mount
  -- point at its path.
  pub mount-umount-mounts_ok :
      (q : (V.State × RootDirectory V.Fs) × AxResult (Unit {0}))
      → mounts_ok r.mounts ≡ true
      → mount V s r path fs ≡ some q
      → (mounts_ok q.0.1.mounts ≡ true)
        × (mounts_ok ((umount V s r path).1.mounts) ≡ true)
        × (contains (umount V s r path).1 path ≡ false)
  mount-umount-mounts_ok q h e =
      (mount-Table h q e, mounts_ok-retain r.mounts path h, contains-umounted r.mounts path)

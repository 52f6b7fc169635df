-- ===== src/Fs/Root/Mount.antt =====
-- Which file system a path of the root directory goes to.
use chenlongos.Prelude.{
  ℕ, zero, suc, ◌+◌, ◌-◌, ◌≡◌, ◌≤◌, ◌⊎◌, inl, inr, refl, sym, ap, ◌∙◌, subst, Bool, true, false,
  ◌&&◌, Option, some, List, [], ◌∷◌, reverse, reverse-append, length, length-append, drop,
  get_elem?, ltb, if◌then◌else◌, if-true, if-false, ==-refl, Str, codes, is_empty, starts_with,
  trim, trim_start, arith,
}
use chenlongos.Fs.Types.{AxResult, err, permission_denied}
use chenlongos.Fs.Root.{
  VfsNodes, MountPoint, RootDirectory, matches, longest, strip, lookup_mounted_fs, select_fs,
  below_mount, root_remove, root_rename,
}

length-reverse : (s : Str) → length (reverse s) ≡ length s
length-reverse [] = refl
length-reverse (c ∷ cs) =
    ap (λ (r : Str). length r) (reverse-append (c ∷ []) cs)
    ∙ length-append (reverse cs) (c ∷ [])
    ∙ omega (arith, length-reverse cs)

length-trim_start : (s : Str) → length (trim_start 47 s) ≤ length s
length-trim_start [] = omega arith
length-trim_start (c ∷ cs) = ground (arith, length-trim_start cs)

length-trim : (s : Str) → length (trim 47 s) ≤ length s
length-trim s = omega (
  arith,
  length-reverse (trim_start 47 (reverse (trim_start 47 s))),
  length-trim_start (reverse (trim_start 47 s)),
  length-reverse (trim_start 47 s),
  length-trim_start s,
)

dot_slash-longer : (s : Str) → starts_with s (codes "./") ≡ true → 2 ≤ length s
dot_slash-longer [] h = cc
dot_slash-longer (c ∷ []) h = ground (arith, h)
dot_slash-longer (c ∷ d ∷ ds) h = omega arith

length-drop2 : (s : Str) → length (drop 2 s) ≡ length s - 2
length-drop2 [] = omega arith
length-drop2 (c ∷ []) = omega arith
length-drop2 (c ∷ d ∷ ds) = omega arith

strip-strips :
    (fuel : ℕ) (path : Str)
    → length path ≤ fuel
    → starts_with (strip fuel path) (codes "./") ≡ false
unfolding strip
strip-strips zero [] h = refl
strip-strips zero (c ∷ cs) h = absurd (omega (arith, h))
strip-strips (suc fuel) path h =
    by (starts_with (trim 47 path) (codes "./")) refl (strip-strips fuel (drop 2 (trim 47 path)))
  where
    by :
        (b : Bool)
        → starts_with (trim 47 path) (codes "./") ≡ b
        → (length (drop 2 (trim 47 path)) ≤ fuel
            → starts_with (strip fuel (drop 2 (trim 47 path))) (codes "./") ≡ false)
        → starts_with (if b then strip fuel (drop 2 (trim 47 path)) else trim 47 path) (codes "./")
          ≡ false
    by true e rest = rest (
        omega (
          arith,
          h,
          length-trim path,
          dot_slash-longer (trim 47 path) e,
          length-drop2 (trim 47 path),
        ))
    by false e rest = e

module _ {F : Type 0} where
  -- How much of a path a mount point takes.
  abbrev pub span : MountPoint F → ℕ
  span mp = length mp.path - 1

  abbrev pub step : Str → MountPoint F → ℕ → ℕ × ℕ → ℕ × ℕ
  step path mp i best = if matches path mp && ltb best.1 (span mp) then (i, span mp) else best

  step-grows :
      (path : Str) (mp : MountPoint F) (i : ℕ) (best : ℕ × ℕ)
      → (best.1 ≤ (step path mp i best).1)
        × (matches path mp ≡ true → span mp ≤ (step path mp i best).1)
  step-grows path mp i best = by (matches path mp)
    where
      by :
          (m : Bool)
          → (best.1 ≤ (if m && ltb best.1 (span mp) then (i, span mp) else best).1)
            × (m ≡ true → span mp ≤ (if m && ltb best.1 (span mp) then (i, span mp) else best).1)
      by true = ground arith
      by false = (omega arith, λ e. cc)

  longest-grows :
      (path : Str) (mps : List (MountPoint F)) (i : ℕ) (best : ℕ × ℕ)
      → best.1 ≤ (longest path mps i best).1
  unfolding longest
  longest-grows path [] i best = omega arith
  longest-grows path (mp ∷ mps) i best =
      omega
        (arith, (step-grows path mp i best).0, longest-grows path mps (suc i) (step path mp i best))

  -- No mount point that matches takes more than this.
  abbrev pub Bounds : Str → List (MountPoint F) → ℕ → Type 0
  Bounds path mps n =
      (j : ℕ) (mp : MountPoint F) → get_elem? mps j ≡ some mp → matches path mp ≡ true → span mp ≤ n

  longest-Bounds :
      (path : Str) (mps : List (MountPoint F)) (i : ℕ) (best : ℕ × ℕ)
      → Bounds path mps (longest path mps i best).1
  unfolding longest
  longest-Bounds path [] i best j mp e m = cc
  longest-Bounds path (mq ∷ mps) i best zero mp e m =
      let same : mq ≡ mp = cc in
      let here : matches path mq ≡ true = ap (matches path) same ∙ m in
      let most : span mp ≤ (step path mq i best).1 =
        subst (λ (x : MountPoint F). span x ≤ (step path mq i best).1) same
          ((step-grows path mq i best).1 here) in
      omega (arith, most, longest-grows path mps (suc i) (step path mq i best))
  longest-Bounds path (mq ∷ mps) i best (suc j) mp e m =
      longest-Bounds path mps (suc i) (step path mq i best) j mp e m

  -- The best is as before, or one of these mount points.
  abbrev pub FoundIn : Str → List (MountPoint F) → ℕ → ℕ × ℕ → ℕ × ℕ → Type 0
  FoundIn path mps i best r =
      (r ≡ best)
      ⊎ ((j : ℕ) × (mp : MountPoint F) × (get_elem? mps j ≡ some mp)
          × (matches path mp ≡ true)
          × (r ≡ (i + j, span mp)))

  longest-FoundIn :
      (path : Str) (mps : List (MountPoint F)) (i : ℕ) (best : ℕ × ℕ)
      → FoundIn path mps i best (longest path mps i best)
  unfolding longest
  longest-FoundIn path [] i best = inl refl
  longest-FoundIn path (mp ∷ mps) i best =
      by (matches path mp && ltb best.1 (span mp)) refl
        (longest-FoundIn path mps (suc i) (step path mp i best))
    where
      taken : (a b : Bool) → (a && b) ≡ true → a ≡ true
      taken true b e = refl
      taken false b e = cc

      by :
          (b : Bool)
          → (matches path mp && ltb best.1 (span mp)) ≡ b
          → FoundIn path mps
              (suc i)
              (step path mp i best)
              (longest path mps (suc i) (step path mp i best))
          → FoundIn path (mp ∷ mps) i best (longest path mps (suc i) (step path mp i best))
      by b e (inr (j, mq, at, m, r)) =
          inr (suc j, mq, at, m, r ∙ ap (λ (k : ℕ). (k, span mq)) (omega arith))
      by true e (inl r) = inr (
        0,
        mp,
        refl,
        taken (matches path mp) (ltb best.1 (span mp)) e,
        r ∙ if-true (i, span mp) best e ∙ ap (λ (k : ℕ). (k, span mp)) (omega arith),
      )
      by false e (inl r) = inl (r ∙ if-false (i, span mp) best e)

  module _ {A : Type 0} (r : RootDirectory F) (f : F → Str → Option A) where
    -- The main file system with the whole path where nothing else matches, or else a mount point that
    -- matches with the rest of the path, such that none that matches takes more of it.
    abbrev pub Chosen : Str → Option A → Type 0
    Chosen p result =
        ((result ≡ f r.main_fs p) × Bounds p r.mounts 0)
        ⊎ ((j : ℕ) × (mp : MountPoint F) × (get_elem? r.mounts j ≡ some mp)
            × (matches p mp ≡ true)
            × Bounds p r.mounts (span mp)
            × (result ≡ f mp.fs (drop (span mp) p)))

    select_fs-Chosen :
        (p : Str) (best : ℕ × ℕ)
        → FoundIn p r.mounts 0 (0, 0) best
        → Bounds p r.mounts best.1
        → Chosen p (select_fs r p best f)
    select_fs-Chosen p best (inl e) bounds = inl (
      ap (λ (b : ℕ × ℕ). select_fs r p b f) e,
      subst (λ (b : ℕ × ℕ). Bounds p r.mounts b.1) e bounds,
    )
    select_fs-Chosen p best (inr (j, mp, at, m, e)) bounds = by (span mp) refl
      where
        by : (n : ℕ) → span mp ≡ n → Chosen p (select_fs r p best f)
        by zero z = inl (
          ap (λ (b : ℕ × ℕ). select_fs r p b f) (e ∙ ap (λ (k : ℕ). (0 + j, k)) z),
          subst (λ (k : ℕ). Bounds p r.mounts k) (ap (λ (b : ℕ × ℕ). b.1) e ∙ z) bounds,
        )
        by (suc n) z = inr (
          j,
          mp,
          at,
          m,
          subst (λ (k : ℕ). Bounds p r.mounts k) (ap (λ (b : ℕ × ℕ). b.1) e) bounds,
          ap (λ (b : ℕ × ℕ). select_fs r p b f) (e ∙ ap (λ (k : ℕ). (0 + j, k)) z)
              ∙ ap (λ (o : Option (MountPoint F)). below_mount o (drop (suc n) p) f)
                  (ap (get_elem? r.mounts) (omega arith) ∙ at)
              ∙ ap (λ (k : ℕ). f mp.fs (drop k p)) (sym z),
        )

    -- A path of the root directory, trimmed and without "./" in front, goes to the main file system
    -- with the whole path if no mount point of a longer path than "/" matches, or else to a mount point
    -- whose path less the first separator starts it, with what is behind that, and no mount point
    -- that matches has a longer path.
    pub lookup_mounted_fs-Chosen :
        (path : Str)
        → (starts_with (strip (length path) path) (codes "./") ≡ false)
          × Chosen (strip (length path) path) (lookup_mounted_fs r path f)
    unfolding lookup_mounted_fs
    lookup_mounted_fs-Chosen path =
        let p = strip (length path) path in
        (
          strip-strips (length path) path (omega arith),
          select_fs-Chosen p (longest p r.mounts 0 (0, 0)) (longest-FoundIn p r.mounts 0 (0, 0))
              (longest-Bounds p r.mounts 0 (0, 0)),
        )

starts_with_refl : (s : Str) → starts_with s s ≡ true
starts_with_refl [] = refl
starts_with_refl (c ∷ cs) = ground (arith, ==-refl c, starts_with_refl cs)

drop-all : (n : ℕ) (s : Str) → length s ≤ n → is_empty (drop n s) ≡ true
drop-all zero [] h = refl
drop-all zero (c ∷ cs) h = absurd (omega (arith, h))
drop-all (suc n) [] h = refl
drop-all (suc n) (c ∷ cs) h = drop-all n cs (omega (arith, h))

length-drop1 : (s : Str) → length (drop 1 s) ≡ length s - 1
length-drop1 [] = omega arith
length-drop1 (c ∷ cs) = omega arith

-- A path that names a mount point: trimmed it is the mount point's path less the first separator.
abbrev pub NamesMount : {F : Type 0} → RootDirectory F → Str → Type 0
NamesMount {F = F} r path =
    (j : ℕ) × (mp : MountPoint F) × (get_elem? r.mounts j ≡ some mp)
    × (strip (length path) path ≡ drop 1 mp.path)
    × (2 ≤ length mp.path)

module _ (V : VfsNodes) (s : V.State) (r : RootDirectory V.Fs) where
  -- Mount points can be neither removed nor renamed: both are refused and leave the state.
  pub mount_points_stay :
      (path dst : Str)
      → NamesMount r path
      → (root_remove V s r path ≡ some (s, err permission_denied))
        × (root_rename V s r path dst ≡ some (s, err permission_denied))
  mount_points_stay path dst (j, mp, at, e, long) = (
    refused
        (λ fs rest.
          if is_empty rest
          then some (s, err permission_denied)
          else V.remove s (V.root_dir fs) rest)
        (λ fs rest empty. if-true _ _ empty),
    refused
        (λ fs rest.
          if is_empty rest
          then some (s, err permission_denied)
          else V.rename s (V.root_dir fs) rest dst)
        (λ fs rest empty. if-true _ _ empty),
  )
    where
      p : Str
      p = strip (length path) path

      here : matches p mp ≡ true
      here = ap (λ (q : Str). starts_with q (drop 1 mp.path)) e ∙ starts_with_refl (drop 1 mp.path)

      size : length p ≡ span mp
      size = ap (λ (q : Str). length q) e ∙ length-drop1 mp.path

      refused :
          (f : V.Fs → Str → Option (V.State × AxResult (Unit {0})))
          → ((fs : V.Fs) (rest : Str)
              → is_empty rest ≡ true
              → f fs rest ≡ some (s, err permission_denied))
          → lookup_mounted_fs r path f ≡ some (s, err permission_denied)
      refused f empty = by (lookup_mounted_fs-Chosen r f path).1
        where
          by :
              Chosen r f p (lookup_mounted_fs r path f)
              → lookup_mounted_fs r path f ≡ some (s, err permission_denied)
          by (inl (_, bounds)) = absurd (omega (arith, bounds j mp at here, long))
          by (inr (k, mq, _, _, bounds, q)) =
              q
              ∙ empty mq.fs (drop (span mq) p)
                  (drop-all (span mq) p (omega (arith, size, bounds j mp at here)))

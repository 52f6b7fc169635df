-- ===== src/Fs/Tree/Termination.antt =====
-- The dispatch ends: what a directory passes on is a shorter path.
use chenlongos.Prelude.{
  ℕ, zero, suc, ◌≡◌, ◌<◌, ◌≤◌, refl, Option, none, some, [], ◌∷◌, length, Str, trim_start, arith,
}
use chenlongos.Fs.Types.{AxResult, ok, err, VfsNodeType, not_a_directory}
use chenlongos.Fs.Tree.{
  lookup_on, create_on, remove_on, lookup_fuel, create_fuel, remove_fuel, path_fuel, lookup, create,
  remove,
}
use chenlongos.Fs.Tree.Heap.{
  World, Node, DirNode, ram_file, ram_dir, dev_dir, null_dev, zero_dev, other, Others, cut,
  split_path, entry,
}
use chenlongos.Fs.Tree.Ram
use chenlongos.Fs.Tree.Device

cut-shorter : (s r : Str) → (cut s).1 ≡ some r → length r < length s
cut-shorter [] r h = cc
cut-shorter (c ∷ cs) r h = ground (arith, h, cut-shorter cs r)

length-trim_start : (s : Str) → length (trim_start 47 s) ≤ length s
length-trim_start [] = omega arith
length-trim_start (c ∷ cs) = ground (arith, length-trim_start cs)

pub rest-shorter : (path r : Str) → (split_path path).1 ≡ some r → length r < length path
rest-shorter path r h = omega (arith, cut-shorter (trim_start 47 path) r h, length-trim_start path)

-- Two runs that both end, with the same result.
abbrev pub Agree {ℓ} : {A : Type ℓ} → Option A → Option A → Type ℓ
Agree {A = A} o p = (a : A) × (o ≡ some a) × (p ≡ some a)

Agree-some {ℓ} : {A : Type ℓ} (a : A) → Agree (some a) (some a)
Agree-some a = (a, refl, refl)

-- The calls that a directory may make: on any node, with a rest of the path.
abbrev AgreeBelow {ℓ} : {A : Type ℓ} → Str → (ℕ → Str → Option A) → (ℕ → Str → Option A) → Type ℓ
AgreeBelow path go go' = (id : ℕ) (r : Str) → length r < length path → Agree (go id r) (go' id r)

module _ {O : Type 0} (w : World O) (self : ℕ) (d : DirNode) (path : Str) where
  lookup-Agree :
      (go go' : ℕ → Str → Option (AxResult ℕ))
      → AgreeBelow path go go'
      → Agree (Ram.lookup w go self d path) (Ram.lookup w go' self d path)
  unfolding Ram.lookup
  lookup-Agree go go' below = at_entry (entry w self d (split_path path).0) (split_path path).1 refl
    where
      at_entry :
          (e : AxResult ℕ) (rest : Option Str)
          → (split_path path).1 ≡ rest
          → Agree
              (elim e as (λ _. Option (AxResult ℕ)) [
                | err x ↦ some (err x)
                | ok id ↦ elim rest [ none ↦ some (ok id) | some r ↦ go id r ]
              ])
              (elim e as (λ _. Option (AxResult ℕ)) [
                | err x ↦ some (err x)
                | ok id ↦ elim rest [ none ↦ some (ok id) | some r ↦ go' id r ]
              ])
      at_entry (err x) rest h = Agree-some (err x)
      at_entry (ok id) none h = Agree-some (ok id)
      at_entry (ok id) (some r) h = below id r (rest-shorter path r h)

  -- `create` and `remove`: the rest is passed on, or there is none and the answer is `last`.
  passed-Agree :
      (go go' : ℕ → Str → Option (World O × AxResult (Unit {0}))) (e : AxResult ℕ)
      (rest : Option Str) (last : World O × AxResult (Unit {0}))
      → AgreeBelow path go go'
      → (split_path path).1 ≡ rest
      → Agree
          (elim rest as (λ _. Option (World O × AxResult (Unit {0}))) [
            | some r ↦ elim e [ err x ↦ some (w, err x) | ok id ↦ go id r ]
            | none ↦ some last
          ])
          (elim rest as (λ _. Option (World O × AxResult (Unit {0}))) [
            | some r ↦ elim e [ err x ↦ some (w, err x) | ok id ↦ go' id r ]
            | none ↦ some last
          ])
  passed-Agree go go' e none last below h = Agree-some last
  passed-Agree go go' (err x) (some r) last below h = Agree-some (w, err x)
  passed-Agree go go' (ok id) (some r) last below h = below id r (rest-shorter path r h)

module _ {O : Type 0} (others : Others O) (w : World O) (id : ℕ) (path : Str) where
  lookup_on-Agree :
      (go go' : ℕ → Str → Option (AxResult ℕ)) (n : Node O)
      → AgreeBelow path go go'
      → Agree (lookup_on others w go id path n) (lookup_on others w go' id path n)
  unfolding Device.lookup Ram.lookup
  lookup_on-Agree go go' (ram_dir d) below = lookup-Agree w id d path go go' below
  lookup_on-Agree go go' (dev_dir d) below = lookup-Agree w id d path go go' below
  lookup_on-Agree go go' (other o) below = Agree-some (others.other_lookup w o path)
  lookup_on-Agree go go' (ram_file n) below = Agree-some (err not_a_directory)
  lookup_on-Agree go go' null_dev below = Agree-some (err not_a_directory)
  lookup_on-Agree go go' zero_dev below = Agree-some (err not_a_directory)

  create_on-Agree :
      (go go' : ℕ → Str → Option (World O × AxResult (Unit {0}))) (ty : VfsNodeType) (n : Node O)
      → AgreeBelow path go go'
      → Agree (create_on others w go id path ty n) (create_on others w go' id path ty n)
  unfolding Device.create Ram.create
  create_on-Agree go go' ty (ram_dir d) below =
      passed-Agree w id d path go go' (entry w id d (split_path path).0) (split_path path).1 _ below
        refl
  create_on-Agree go go' ty (dev_dir d) below =
      passed-Agree w id d path go go' (entry w id d (split_path path).0) (split_path path).1 _ below
        refl
  create_on-Agree go go' ty (other o) below = Agree-some (others.other_create w o path ty)
  create_on-Agree go go' ty (ram_file n) below = Agree-some (w, err not_a_directory)
  create_on-Agree go go' ty null_dev below = Agree-some (w, err not_a_directory)
  create_on-Agree go go' ty zero_dev below = Agree-some (w, err not_a_directory)

  remove_on-Agree :
      (go go' : ℕ → Str → Option (World O × AxResult (Unit {0}))) (n : Node O)
      → AgreeBelow path go go'
      → Agree (remove_on others w go id path n) (remove_on others w go' id path n)
  unfolding Device.remove Ram.remove
  remove_on-Agree go go' (ram_dir d) below =
      passed-Agree w id d path go go' (entry w id d (split_path path).0) (split_path path).1 _ below
        refl
  remove_on-Agree go go' (dev_dir d) below =
      passed-Agree w id d path go go' (entry w id d (split_path path).0) (split_path path).1 _ below
        refl
  remove_on-Agree go go' (other o) below = Agree-some (others.other_remove w o path)
  remove_on-Agree go go' (ram_file n) below = Agree-some (w, err not_a_directory)
  remove_on-Agree go go' null_dev below = Agree-some (w, err not_a_directory)
  remove_on-Agree go go' zero_dev below = Agree-some (w, err not_a_directory)

module _ {O : Type 0} (others : Others O) (w : World O) where
  pub lookup_fuel-Agree :
      (f g id : ℕ) (path : Str)
      → length path < f
      → length path < g
      → Agree (lookup_fuel others f w id path) (lookup_fuel others g w id path)
  unfolding lookup_fuel
  lookup_fuel-Agree zero g id path hf hg = elim hf [ ]
  lookup_fuel-Agree (suc f) zero id path hf hg = elim hg [ ]
  lookup_fuel-Agree (suc f) (suc g) id path hf hg =
      lookup_on-Agree others w id path (lookup_fuel others f w) (lookup_fuel others g w)
        (w.nodes id)
        (λ i r below.
          lookup_fuel-Agree f g i r (omega (arith, below, hf)) (omega (arith, below, hg)))

  pub create_fuel-Agree :
      (f g id : ℕ) (path : Str) (ty : VfsNodeType)
      → length path < f
      → length path < g
      → Agree (create_fuel others f w id path ty) (create_fuel others g w id path ty)
  unfolding create_fuel
  create_fuel-Agree zero g id path ty hf hg = elim hf [ ]
  create_fuel-Agree (suc f) zero id path ty hf hg = elim hg [ ]
  create_fuel-Agree (suc f) (suc g) id path ty hf hg =
      create_on-Agree others w id path (λ i p. create_fuel others f w i p ty)
        (λ i p. create_fuel others g w i p ty) ty (w.nodes id)
        (λ i r below.
          create_fuel-Agree f g i r ty (omega (arith, below, hf)) (omega (arith, below, hg)))

  pub remove_fuel-Agree :
      (f g id : ℕ) (path : Str)
      → length path < f
      → length path < g
      → Agree (remove_fuel others f w id path) (remove_fuel others g w id path)
  unfolding remove_fuel
  remove_fuel-Agree zero g id path hf hg = elim hf [ ]
  remove_fuel-Agree (suc f) zero id path hf hg = elim hg [ ]
  remove_fuel-Agree (suc f) (suc g) id path hf hg =
      remove_on-Agree others w id path (remove_fuel others f w) (remove_fuel others g w)
        (w.nodes id)
        (λ i r below.
          remove_fuel-Agree f g i r (omega (arith, below, hf)) (omega (arith, below, hg)))

  -- On every tree, node and path, `lookup`, `create` and `remove` end: each gives a result within as
  -- many calls as the path has characters and one more, and more fuel does not change the result.
  pub dispatch_ends :
      (id : ℕ) (path : Str) (ty : VfsNodeType) (fuel : ℕ)
      → length path < fuel
      → Agree (lookup others w id path) (lookup_fuel others fuel w id path)
        × Agree (create others w id path ty) (create_fuel others fuel w id path ty)
        × Agree (remove others w id path) (remove_fuel others fuel w id path)
  dispatch_ends id path ty fuel h = (
    lookup_fuel-Agree (path_fuel path) fuel id path (omega arith) h,
    create_fuel-Agree (path_fuel path) fuel id path ty (omega arith) h,
    remove_fuel-Agree (path_fuel path) fuel id path (omega arith) h,
  )

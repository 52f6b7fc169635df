-- ===== src/Fs/Tree/Errors.antt =====
-- A call that fails changes nothing, whatever the path.
use chenlongos.Prelude.{
  ℕ, zero, suc, ◌≡◌, refl, sym, ap, ◌∙◌, Bool, true, false, Option, none, some, if◌then◌else◌, Str,
}
use chenlongos.Fs.Types.{
  AxError, AxResult, ok, err, VfsNodeType, already_exists, unsupported, not_found,
  directory_not_empty, permission_denied, invalid_input, not_a_directory,
}
use chenlongos.Fs.Tree.{
  TreeCall, create_call, remove_call, call, create_on, remove_on, create_fuel, remove_fuel,
  path_fuel,
}
use chenlongos.Fs.Tree.Map.{map_get}
use chenlongos.Fs.Tree.Heap.{
  World, Node, DirNode, ram_file, ram_dir, dev_dir, null_dev, zero_dev, other, Others, split_path,
  entry, alloc,
}
use chenlongos.Fs.Tree.Ram
use chenlongos.Fs.Tree.Ram.{
  is_dots, exist, node_for, create_node, remove_node, is_full, insert_child, remove_child,
}
use chenlongos.Fs.Tree.Device

module _ {O : Type 0} (w : World O) where
  -- A result that is an error comes with the world as it was.
  abbrev pub Keeps : World O × AxResult (Unit {0}) → Type 0
  Keeps r = (e : AxError) → r.1 ≡ err e → r.0 ≡ w

  abbrev pub KeepsIf : Option (World O × AxResult (Unit {0})) → Type 0
  KeepsIf o = (r : World O × AxResult (Unit {0})) → o ≡ some r → Keeps r

  KeepsIf-some : (r : World O × AxResult (Unit {0})) → Keeps r → KeepsIf (some r)
  KeepsIf-some r k s h e q =
      let same : r ≡ s = cc in
      ap (λ (t : World O × AxResult (Unit {0})). t.0) (sym same)
      ∙ k e (ap (λ (t : World O × AxResult (Unit {0})). t.1) same ∙ q)

  -- An error with the world, and a success with any.
  Keeps-same : (x : AxResult (Unit {0})) → Keeps (w, x)
  Keeps-same x e h = refl

  Keeps-ok : (v : World O) (u : Unit {0}) → Keeps (v, ok u)
  Keeps-ok v u e h = cc

  Keeps-if :
      (b : Bool) (x y : World O × AxResult (Unit {0}))
      → Keeps x
      → Keeps y
      → Keeps (if b then x else y)
  Keeps-if true x y kx ky = kx
  Keeps-if false x y kx ky = ky

  create_node-Keeps :
      (self : ℕ) (d : DirNode) (name : Str) (ty : VfsNodeType)
      → Keeps (create_node w self d name ty)
  unfolding create_node
  create_node-Keeps self d name ty =
      Keeps-if _ (w, err already_exists) _ (Keeps-same (err already_exists))
        (made (node_for self ty))
    where
      made :
          (o : Option (Node O))
          → Keeps (elim o as (λ _. World O × AxResult (Unit {0})) [
            | none ↦ (w, err unsupported)
            | some n ↦ (insert_child (alloc w n).0 self d name (alloc w n).1, ok tt)
          ])
      made none = Keeps-same (err unsupported)
      made (some n) = Keeps-ok (insert_child (alloc w n).0 self d name (alloc w n).1) tt

  remove_node-Keeps : (self : ℕ) (d : DirNode) (name : Str) → Keeps (remove_node w self d name)
  unfolding remove_node
  remove_node-Keeps self d name = found (map_get d.children name)
    where
      found :
          (o : Option ℕ)
          → Keeps (elim o as (λ _. World O × AxResult (Unit {0})) [
            | none ↦ (w, err not_found)
            | some id ↦
                if is_full (w.nodes id)
                then (w, err directory_not_empty)
                else (remove_child w self d name id, ok tt)
          ])
      found none = Keeps-same (err not_found)
      found (some id) =
          Keeps-if _ (w, err directory_not_empty) (remove_child w self d name id, ok tt)
            (Keeps-same (err directory_not_empty)) (Keeps-ok (remove_child w self d name id) tt)

  -- The rest of the path is passed on, or there is none.
  passed-Keeps :
      (go : ℕ → Str → Option (World O × AxResult (Unit {0}))) (e : AxResult ℕ) (rest : Option Str)
      (last : World O × AxResult (Unit {0}))
      → ((id : ℕ) (r : Str) → KeepsIf (go id r))
      → Keeps last
      → KeepsIf (elim rest as (λ _. Option (World O × AxResult (Unit {0}))) [
        | some r ↦ elim e [ err x ↦ some (w, err x) | ok id ↦ go id r ]
        | none ↦ some last
      ])
  passed-Keeps go e none last below k = KeepsIf-some last k
  passed-Keeps go (err x) (some r) last below k = KeepsIf-some (w, err x) (Keeps-same (err x))
  passed-Keeps go (ok id) (some r) last below k = below id r

module _ {O : Type 0} (others : Others O) (w : World O) where
  -- The other file systems change nothing either when they fail.
  abbrev pub OthersKeep : Type 0
  OthersKeep =
      (o : O) (path : Str)
      → ((ty : VfsNodeType) → Keeps w (others.other_create w o path ty))
        × Keeps w (others.other_remove w o path)

  refuses : (e : AxError) → KeepsIf w (some (w, err e))
  refuses e = KeepsIf-some w (w, err e) (Keeps-same w (err e))

  create_on-Keeps :
      (go : ℕ → Str → Option (World O × AxResult (Unit {0}))) (id : ℕ) (path : Str)
      (ty : VfsNodeType) (n : Node O)
      → OthersKeep
      → ((i : ℕ) (r : Str) → KeepsIf w (go i r))
      → KeepsIf w (create_on others w go id path ty n)
  unfolding Ram.create Device.create
  create_on-Keeps go id path ty (ram_dir d) others_keep below =
      passed-Keeps w go (entry w id d (split_path path).0) (split_path path).1
        (if is_dots (split_path path).0
          then (w, ok tt)
          else create_node w id d (split_path path).0 ty)
        below
        (Keeps-if w _ (w, ok tt) (create_node w id d (split_path path).0 ty) (Keeps-ok w w tt)
          (create_node-Keeps w id d (split_path path).0 ty))
  create_on-Keeps go id path ty (dev_dir d) others_keep below =
      passed-Keeps w go (entry w id d (split_path path).0) (split_path path).1
        (if is_dots (split_path path).0 then (w, ok tt) else (w, err permission_denied)) below
        (Keeps-if w _ (w, ok tt) (w, err permission_denied) (Keeps-ok w w tt)
          (Keeps-same w (err permission_denied)))
  create_on-Keeps go id path ty (other o) others_keep below =
      KeepsIf-some w (others.other_create w o path ty) ((others_keep o path).0 ty)
  create_on-Keeps go id path ty (ram_file f) others_keep below = refuses not_a_directory
  create_on-Keeps go id path ty null_dev others_keep below = refuses not_a_directory
  create_on-Keeps go id path ty zero_dev others_keep below = refuses not_a_directory

  remove_on-Keeps :
      (go : ℕ → Str → Option (World O × AxResult (Unit {0}))) (id : ℕ) (path : Str) (n : Node O)
      → OthersKeep
      → ((i : ℕ) (r : Str) → KeepsIf w (go i r))
      → KeepsIf w (remove_on others w go id path n)
  unfolding Ram.remove Device.remove
  remove_on-Keeps go id path (ram_dir d) others_keep below =
      passed-Keeps w go (entry w id d (split_path path).0) (split_path path).1
        (if is_dots (split_path path).0
          then (w, err invalid_input)
          else remove_node w id d (split_path path).0)
        below
        (Keeps-if w _ (w, err invalid_input) (remove_node w id d (split_path path).0)
          (Keeps-same w (err invalid_input)) (remove_node-Keeps w id d (split_path path).0))
  remove_on-Keeps go id path (dev_dir d) others_keep below =
      passed-Keeps w go (entry w id d (split_path path).0) (split_path path).1
        (w, err permission_denied) below (Keeps-same w (err permission_denied))
  remove_on-Keeps go id path (other o) others_keep below =
      KeepsIf-some w (others.other_remove w o path) (others_keep o path).1
  remove_on-Keeps go id path (ram_file f) others_keep below = refuses not_a_directory
  remove_on-Keeps go id path null_dev others_keep below = refuses not_a_directory
  remove_on-Keeps go id path zero_dev others_keep below = refuses not_a_directory

  create_fuel-Keeps :
      (fuel id : ℕ) (path : Str) (ty : VfsNodeType)
      → OthersKeep
      → KeepsIf w (create_fuel others fuel w id path ty)
  unfolding create_fuel
  create_fuel-Keeps zero id path ty others_keep r h = cc
  create_fuel-Keeps (suc fuel) id path ty others_keep r h =
      create_on-Keeps (λ i p. create_fuel others fuel w i p ty) id path ty (w.nodes id) others_keep
        (λ i p. create_fuel-Keeps fuel i p ty others_keep) r h

  remove_fuel-Keeps :
      (fuel id : ℕ) (path : Str) → OthersKeep → KeepsIf w (remove_fuel others fuel w id path)
  unfolding remove_fuel
  remove_fuel-Keeps zero id path others_keep r h = cc
  remove_fuel-Keeps (suc fuel) id path others_keep r h =
      remove_on-Keeps (remove_fuel others fuel w) id path (w.nodes id) others_keep
        (λ i p. remove_fuel-Keeps fuel i p others_keep) r h

  call-Keeps :
      OthersKeep → (id : ℕ) (path : Str) (c : TreeCall) → KeepsIf w (call others w id path c)
  call-Keeps others_keep id path (create_call ty) =
      create_fuel-Keeps (path_fuel path) id path ty others_keep
  call-Keeps others_keep id path remove_call =
      remove_fuel-Keeps (path_fuel path) id path others_keep

  -- A `create` or a `remove` that ends in an error leaves the tree as it was, at every node and path,
  -- where the other file systems do so too.
  pub failed_call_changes_nothing :
      OthersKeep
      → (id : ℕ) (path : Str) (c : TreeCall) (w' : World O) (e : AxError)
      → call others w id path c ≡ some (w', err e)
      → w' ≡ w
  failed_call_changes_nothing others_keep id path c w' e h =
      call-Keeps others_keep id path c (w', err e) h e refl

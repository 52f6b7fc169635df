-- ===== src/Fs/Tree/Linked/Calls.antt =====
-- `create` and `remove` keep the shape of a tree, whatever the path.
use chenlongos.Prelude.{
  ℕ, zero, suc, ◌≡◌, ◌<◌, refl, ap, ◌∙◌, subst, Bool, true, false, Option, none, some,
  if◌then◌else◌, Str,
}
use chenlongos.Fs.Types.{
  AxResult, ok, err, VfsNodeType, unsupported, not_found, directory_not_empty, not_a_directory,
  invalid_input, permission_denied,
}
use chenlongos.Fs.Tree.{
  TreeCall, create_call, remove_call, call, create_on, remove_on, create_fuel, remove_fuel,
  path_fuel,
}
use chenlongos.Fs.Tree.Map.{map_get}
use chenlongos.Fs.Tree.Heap.{
  World, Node, DirNode, ram_file, ram_dir, dev_dir, null_dev, zero_dev, other, Others, entry,
  split_path, ok_or_not_found, upgrade, is_self, is_parent,
}
use chenlongos.Fs.Tree.Ram
use chenlongos.Fs.Tree.Device
use chenlongos.Fs.Tree.Ram.{
  new_node, node_for, create_node, remove_node, remove_child, is_dots, exist, is_full,
}
use chenlongos.Fs.Tree.Child.{with_child}
use chenlongos.Fs.Tree.Linked.Made.{node_for-fresh, with_child-ChangedAt}
use chenlongos.Fs.Tree.Linked.Left.{remove_child-ChangedAt}
use chenlongos.Fs.Tree.Linked.{dir_of, child_in, Linked, ChangedAt-Linked}

pub found-some : (o : Option ℕ) (i : ℕ) → ok_or_not_found o ≡ ok i → o ≡ some i
found-some none i e = cc
found-some (some j) i e = cc

upgraded :
    {O : Type 0} (w : World O) (o : Option ℕ) (i : ℕ)
    → ok_or_not_found (upgrade w o) ≡ ok i
    → o ≡ some i
upgraded w none i e = cc
upgraded w (some j) i e = by (w.live j) e
  where
    by : (b : Bool) → ok_or_not_found (if b then some j else none) ≡ ok i → some j ≡ some i
    by true q = found-some (some j) i q
    by false q = cc

module _ {O : Type 0} (w : World O) (linked : Linked w) where
  abbrev LinkedAfter : World O × AxResult (Unit {0}) → Type 0
  LinkedAfter r = Linked r.0

  LinkedAfter-if :
      (b : Bool) (x y : World O × AxResult (Unit {0}))
      → LinkedAfter x
      → LinkedAfter y
      → LinkedAfter (if b then x else y)
  LinkedAfter-if true x y hx hy = hx
  LinkedAfter-if false x y hx hy = hy

  module _ (self : ℕ) (d : DirNode) (allocated : self < w.next) where
    create_node-Linked :
        (name : Str) (ty : VfsNodeType)
        → w.nodes self ≡ ram_dir d
        → LinkedAfter (create_node w self d name ty)
    unfolding create_node
    create_node-Linked name ty here = LinkedAfter-if _ _ _ linked (made (node_for self ty) refl)
      where
        made :
            (o : Option (Node O))
            → node_for self ty ≡ o
            → LinkedAfter (elim o as (λ _. World O × AxResult (Unit {0})) [
              | none ↦ (w, err unsupported)
              | some n ↦ (with_child w self d name n, ok tt)
            ])
        made none e = linked
        made (some n) e =
            ChangedAt-Linked self linked allocated
              (with_child-ChangedAt w self d name n here allocated (node_for-fresh self ty n e))

    remove_node-Linked :
        (name : Str) → w.nodes self ≡ ram_dir d → LinkedAfter (remove_node w self d name)
    unfolding remove_node
    remove_node-Linked name here = found (map_get d.children name)
      where
        found :
            (o : Option ℕ)
            → LinkedAfter (elim o as (λ _. World O × AxResult (Unit {0})) [
              | none ↦ (w, err not_found)
              | some id ↦
                  if is_full (w.nodes id)
                  then (w, err directory_not_empty)
                  else (remove_child w self d name id, ok tt)
            ])
        found none = linked
        found (some id) =
            LinkedAfter-if _ _ _ linked (
              ChangedAt-Linked self linked allocated (remove_child-ChangedAt w self d name id here))

    -- What a directory passes a path on to is a node of the world.
    entry-bounded :
        (name : Str) (i : ℕ)
        → dir_of (w.nodes self) ≡ some d
        → entry w self d name ≡ ok i
        → i < w.next
    unfolding entry
    entry-bounded name i here e = by (is_self name) (is_parent name) e
      where
        by :
            (a b : Bool)
            → (if a
                then ok self
                else (if b
                    then ok_or_not_found (upgrade w d.parent)
                    else ok_or_not_found (map_get d.children name)))
              ≡ ok i
            → i < w.next
        by true b q = let same : self ≡ i = cc in subst (λ (k : ℕ). k < w.next) same allocated
        by false true q = linked.parent_bounded self d i here (upgraded w d.parent i q)
        by false false q = linked.bounded self name i (
            ap (λ (o : Option DirNode). child_in o name) here
            ∙ found-some (map_get d.children name) i q)

  abbrev LinkedIf : Option (World O × AxResult (Unit {0})) → Type 0
  LinkedIf o = (r : World O × AxResult (Unit {0})) → o ≡ some r → LinkedAfter r

  LinkedIf-some : (r : World O × AxResult (Unit {0})) → LinkedAfter r → LinkedIf (some r)
  LinkedIf-some r h s e =
      let same : r ≡ s = cc in subst (λ (t : World O × AxResult (Unit {0})). LinkedAfter t) same h

  passed-Linked :
      (go : ℕ → Str → Option (World O × AxResult (Unit {0}))) (e : AxResult ℕ) (rest : Option Str)
      (last : World O × AxResult (Unit {0}))
      → ((id : ℕ) (r : Str) → id < w.next → LinkedIf (go id r))
      → ((id : ℕ) → e ≡ ok id → id < w.next)
      → LinkedAfter last
      → LinkedIf (elim rest as (λ _. Option (World O × AxResult (Unit {0}))) [
        | some r ↦ elim e [ err x ↦ some (w, err x) | ok id ↦ go id r ]
        | none ↦ some last
      ])
  passed-Linked go e none last below bound h = LinkedIf-some last h
  passed-Linked go (err x) (some r) last below bound h = LinkedIf-some (w, err x) linked
  passed-Linked go (ok id) (some r) last below bound h = below id r (bound id refl)

module _ {O : Type 0} (others : Others O) (w : World O) (linked : Linked w) where
  -- The other file systems keep the shape of the tree too.
  abbrev pub OthersLinked : Type 0
  OthersLinked =
      (o : O) (path : Str)
      → ((ty : VfsNodeType) → Linked ((others.other_create w o path ty).0))
        × Linked ((others.other_remove w o path).0)

  module _ (id : ℕ) (path : Str) (bound : id < w.next) (others_linked : OthersLinked)
      (go : ℕ → Str → Option (World O × AxResult (Unit {0})))
      (below : (i : ℕ) (r : Str) → i < w.next → LinkedIf w linked (go i r)) where
    create_on-Linked :
        (ty : VfsNodeType) (n : Node O)
        → w.nodes id ≡ n
        → LinkedIf w linked (create_on others w go id path ty n)
    unfolding Ram.create Device.create
    create_on-Linked ty (ram_dir d) here =
        passed-Linked w linked go (entry w id d (split_path path).0) (split_path path).1 _ below
          (λ i. entry-bounded w linked id d bound (split_path path).0 i (ap dir_of here))
          (LinkedAfter-if w linked (is_dots (split_path path).0) (w, ok tt)
            (create_node w id d (split_path path).0 ty) linked
            (create_node-Linked w linked id d bound (split_path path).0 ty here))
    create_on-Linked ty (dev_dir d) here =
        passed-Linked w linked go (entry w id d (split_path path).0) (split_path path).1 _ below
          (λ i. entry-bounded w linked id d bound (split_path path).0 i (ap dir_of here))
          (LinkedAfter-if w linked (is_dots (split_path path).0) (w, ok tt)
            (w, err permission_denied) linked linked)
    create_on-Linked ty (other o) here =
        LinkedIf-some w linked (others.other_create w o path ty) ((others_linked o path).0 ty)
    create_on-Linked ty (ram_file f) here = LinkedIf-some w linked (w, err not_a_directory) linked
    create_on-Linked ty null_dev here = LinkedIf-some w linked (w, err not_a_directory) linked
    create_on-Linked ty zero_dev here = LinkedIf-some w linked (w, err not_a_directory) linked

    remove_on-Linked :
        (n : Node O) → w.nodes id ≡ n → LinkedIf w linked (remove_on others w go id path n)
    unfolding Ram.remove Device.remove
    remove_on-Linked (ram_dir d) here =
        passed-Linked w linked go (entry w id d (split_path path).0) (split_path path).1 _ below
          (λ i. entry-bounded w linked id d bound (split_path path).0 i (ap dir_of here))
          (LinkedAfter-if w linked (is_dots (split_path path).0) (w, err invalid_input)
            (remove_node w id d (split_path path).0) linked
            (remove_node-Linked w linked id d bound (split_path path).0 here))
    remove_on-Linked (dev_dir d) here =
        passed-Linked w linked go (entry w id d (split_path path).0) (split_path path).1 _ below
          (λ i. entry-bounded w linked id d bound (split_path path).0 i (ap dir_of here)) linked
    remove_on-Linked (other o) here =
        LinkedIf-some w linked (others.other_remove w o path) (others_linked o path).1
    remove_on-Linked (ram_file f) here = LinkedIf-some w linked (w, err not_a_directory) linked
    remove_on-Linked null_dev here = LinkedIf-some w linked (w, err not_a_directory) linked
    remove_on-Linked zero_dev here = LinkedIf-some w linked (w, err not_a_directory) linked

  create_fuel-Linked :
      (fuel id : ℕ) (path : Str) (ty : VfsNodeType)
      → id < w.next
      → OthersLinked
      → LinkedIf w linked (create_fuel others fuel w id path ty)
  unfolding create_fuel
  create_fuel-Linked zero id path ty bound keep r e = cc
  create_fuel-Linked (suc fuel) id path ty bound keep r e =
      create_on-Linked id path bound keep (λ i p. create_fuel others fuel w i p ty)
        (λ i p b. create_fuel-Linked fuel i p ty b keep) ty (w.nodes id) refl r e

  remove_fuel-Linked :
      (fuel id : ℕ) (path : Str)
      → id < w.next
      → OthersLinked
      → LinkedIf w linked (remove_fuel others fuel w id path)
  unfolding remove_fuel
  remove_fuel-Linked zero id path bound keep r e = cc
  remove_fuel-Linked (suc fuel) id path bound keep r e =
      remove_on-Linked id path bound keep (remove_fuel others fuel w)
        (λ i p b. remove_fuel-Linked fuel i p b keep) (w.nodes id) refl r e

  call_fuel-Linked :
      OthersLinked
      → (id : ℕ) (path : Str) (c : TreeCall) → id < w.next
      → LinkedIf w linked (call others w id path c)
  call_fuel-Linked keep id path (create_call ty) bound =
      create_fuel-Linked (path_fuel path) id path ty bound keep
  call_fuel-Linked keep id path remove_call bound =
      remove_fuel-Linked (path_fuel path) id path bound keep

  -- In a tree where each entry is a node that was made and each directory among them has the directory
  -- that it stands in for its parent, this is so after every `create` and `remove`, at any node that
  -- was made and any path, where the other file systems keep it.
  pub call-Linked :
      OthersLinked
      → (id : ℕ) (path : Str) (c : TreeCall) (r : World O × AxResult (Unit {0})) → id < w.next
      → call others w id path c ≡ some r
      → Linked r.0
  call-Linked keep id path c r bound e = call_fuel-Linked keep id path c bound r e

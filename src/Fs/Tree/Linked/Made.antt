-- ===== src/Fs/Tree/Linked/Made.antt =====
-- A new child keeps the shape of a tree.
use chenlongos.Prelude.{
  ℕ, ◌≡◌, ◌<◌, ◌≤◌, ◌⊎◌, inl, inr, refl, sym, ap, ◌∙◌, subst, Option, none, some, Bool-cases,
  ℕ_discrete, Str, str_eq, str_eq→≡, arith,
}
use chenlongos.Fs.Types.{VfsNodeType, fifo, char_device, dir, block_device, file, sym_link, socket}
use chenlongos.Fs.Tree.Map.{map_get, map_insert, map_get-insert_self, map_get-insert_ne}
use chenlongos.Fs.Tree.Heap.{World, Node, DirNode, ram_dir}
use chenlongos.Fs.Tree.Ram.{new_node, node_for}
use chenlongos.Fs.Tree.Child.{
  inserted, with_child, with_child-fresh, with_child-dir, with_child-old,
}
use chenlongos.Fs.Tree.Linked.{dir_of, child_in, child_of, ChangedAt}

fresh_childless :
    (self : ℕ) (o : Option DirNode) (name : Str)
    → (o ≡ none) ⊎ (o ≡ some (new_node (some self)))
    → child_in o name ≡ none
fresh_childless self o name (inl e) = ap (λ (p : Option DirNode). child_in p name) e
fresh_childless self o name (inr e) = ap (λ (p : Option DirNode). child_in p name) e

fresh_parent :
    (self : ℕ) (o : Option DirNode) (d : DirNode)
    → (o ≡ none) ⊎ (o ≡ some (new_node (some self)))
    → o ≡ some d
    → d.parent ≡ some self
fresh_parent self o d (inl e) h = cc
fresh_parent self o d (inr e) h =
    let same : new_node (some self) ≡ d = cc in sym (ap (λ (x : DirNode). x.parent) same)

module _ {O : Type 0} where
  -- A node that `create_node` makes has no children, and its parent is the directory.
  pub node_for-fresh :
      (self : ℕ) (ty : VfsNodeType) (n : Node O)
      → node_for self ty ≡ some n
      → (dir_of n ≡ none) ⊎ (dir_of n ≡ some (new_node (some self)))
  node_for-fresh self file n e =
      inl (sym (ap (λ (o : Option (Node O)). elim o [ none ↦ none | some m ↦ dir_of m ]) e))
  node_for-fresh self dir n e =
      inr (sym (ap (λ (o : Option (Node O)). elim o [ none ↦ none | some m ↦ dir_of m ]) e))
  node_for-fresh self fifo n e = cc
  node_for-fresh self char_device n e = cc
  node_for-fresh self block_device n e = cc
  node_for-fresh self sym_link n e = cc
  node_for-fresh self socket n e = cc

  module _ (w : World O) (self : ℕ) (d : DirNode) (name : Str) (n : Node O)
      (here : w.nodes self ≡ ram_dir d) (allocated : self < w.next)
      (fresh : (dir_of n ≡ none) ⊎ (dir_of n ≡ some (new_node (some self)))) where
    abbrev made : World O
    made = with_child w self d name n

    abbrev Entered : ℕ → Str → ℕ → Type 0
    Entered i nm c =
        (child_of w i nm ≡ some c)
        ⊎ ((i ≡ self)
            × (c < made.next)
            × ((x : DirNode) → dir_of (made.nodes c) ≡ some x → x.parent ≡ some self))

    is_fresh : (x : DirNode) → dir_of (made.nodes w.next) ≡ some x → x.parent ≡ some self
    is_fresh x e =
        fresh_parent self (dir_of n) x fresh
          (sym (ap dir_of (with_child-fresh w self d name n allocated)) ∙ e)

    Entered-self :
        (nm : Str) (c : ℕ)
        → map_get (map_insert d.children name w.next) nm ≡ some c
        → Entered self nm c
    Entered-self nm c e = elim (Bool-cases (str_eq name nm)) [
      | inl same ↦
          let named : name ≡ nm = str_eq→≡ name nm same in
          let found : map_get (map_insert d.children name w.next) nm ≡ some w.next =
            ap (map_get (map_insert d.children name w.next)) (sym named)
            ∙ map_get-insert_self d.children name w.next in
          let it : w.next ≡ c = cc in
          subst (λ (k : ℕ). Entered self nm k) it (inr (refl, omega arith, is_fresh))
      | inr differs ↦ inl (
          ap (λ (m : Node O). child_in (dir_of m) nm) here
          ∙ sym (map_get-insert_ne d.children name nm w.next differs)
          ∙ e)
    ]

    entered : (i : ℕ) (nm : Str) (c : ℕ) → child_of made i nm ≡ some c → Entered i nm c
    entered i nm c e = elim (ℕ_discrete i self) [
      | yes at_self ↦
          subst (λ (k : ℕ). Entered k nm c) (sym at_self)
            (Entered-self nm c (
              sym (
                ap (λ (m : Node O). child_in (dir_of m) nm)
                  (ap made.nodes at_self ∙ with_child-dir w self d name n))
              ∙ e))
      | no apart ↦ elim (ℕ_discrete i w.next) [
        | yes at_new ↦
            let empty : child_of made i nm ≡ none =
              ap (λ (m : Node O). child_in (dir_of m) nm)
                (ap made.nodes at_new ∙ with_child-fresh w self d name n allocated)
              ∙ fresh_childless self (dir_of n) nm fresh in
            cc
        | no old ↦ inl (
            sym (
              ap (λ (m : Node O). child_in (dir_of m) nm)
                (with_child-old w self d name n apart old))
            ∙ e)
      ]
    ]

    made_dirs :
        (c : ℕ) (x : DirNode)
        → dir_of (made.nodes c) ≡ some x
        → ((w.next ≤ c) × (x.parent ≡ some self))
          ⊎ ((x0 : DirNode) × (dir_of (w.nodes c) ≡ some x0) × (x.parent ≡ x0.parent))
    made_dirs c x e = elim (ℕ_discrete c self) [
      | yes at_self ↦
          let seen : some (inserted d name w.next) ≡ some x =
            sym (ap dir_of (ap made.nodes at_self ∙ with_child-dir w self d name n)) ∙ e in
          let same : inserted d name w.next ≡ x = cc in
          inr (
            d,
            ap (λ (k : ℕ). dir_of (w.nodes k)) at_self ∙ ap dir_of here,
            sym (ap (λ (y : DirNode). y.parent) same),
          )
      | no apart ↦ elim (ℕ_discrete c w.next) [
        | yes at_new ↦ inl (
          omega (arith, at_new),
          is_fresh x (ap (λ (k : ℕ). dir_of (made.nodes k)) (sym at_new) ∙ e),
        )
        | no old ↦ inr (x, sym (ap dir_of (with_child-old w self d name n apart old)) ∙ e, refl)
      ]
    ]

    pub with_child-ChangedAt : ChangedAt self w made
    with_child-ChangedAt = record { grows = omega arith; entries = entered; dirs = made_dirs }

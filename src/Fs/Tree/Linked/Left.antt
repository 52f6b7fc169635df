-- ===== src/Fs/Tree/Linked/Left.antt =====
-- A child that is taken out keeps the shape of a tree.
use chenlongos.Prelude.{
  ℕ, ◌≡◌, ◌≢◌, inl, inr, refl, sym, ap, ◌∙◌, none, some, Bool-cases, ℕ_discrete, Str, str_eq,
  str_eq→≡, arith,
}
use chenlongos.Fs.Tree.Map.{map_get, map_remove, map_get-remove_self, map_get-remove_ne}
use chenlongos.Prelude.{update_self, update_ne}
use chenlongos.Fs.Tree.Heap.{World, Node, DirNode, ram_dir}
use chenlongos.Fs.Tree.Ram.{remove_child}
use chenlongos.Fs.Tree.Linked.{dir_of, child_in, child_of, ChangedAt}

module _ {O : Type 0} (w : World O) (self : ℕ) (d : DirNode) (name : Str) (id : ℕ)
    (here : w.nodes self ≡ ram_dir d) where
  abbrev left : World O
  left = remove_child w self d name id

  abbrev without : DirNode
  without = record { parent = d.parent; children = map_remove d.children name }

  left-dir : left.nodes self ≡ ram_dir without
  left-dir = update_self w.nodes self (ram_dir without)

  left-old : {j : ℕ} → j ≢ self → left.nodes j ≡ w.nodes j
  left-old h = update_ne w.nodes self (ram_dir without) h

  kept_self :
      (nm : Str) (c : ℕ)
      → map_get (map_remove d.children name) nm ≡ some c
      → child_of w self nm ≡ some c
  kept_self nm c e = elim (Bool-cases (str_eq name nm)) [
    | inl same ↦
        let gone : map_get (map_remove d.children name) nm ≡ none =
          ap (map_get (map_remove d.children name)) (sym (str_eq→≡ name nm same))
          ∙ map_get-remove_self d.children name in
        cc
    | inr differs ↦
        ap (λ (m : Node O). child_in (dir_of m) nm) here
        ∙ sym (map_get-remove_ne d.children name nm differs)
        ∙ e
  ]

  kept : (i : ℕ) (nm : Str) (c : ℕ) → child_of left i nm ≡ some c → child_of w i nm ≡ some c
  kept i nm c e = elim (ℕ_discrete i self) [
    | yes at_self ↦
        ap (λ (k : ℕ). child_of w k nm) at_self
        ∙ kept_self nm c (
            sym (ap (λ (m : Node O). child_in (dir_of m) nm) (ap left.nodes at_self ∙ left-dir))
            ∙ e)
    | no apart ↦ sym (ap (λ (m : Node O). child_in (dir_of m) nm) (left-old apart)) ∙ e
  ]

  kept_dirs :
      (c : ℕ) (x : DirNode)
      → dir_of (left.nodes c) ≡ some x
      → (x0 : DirNode) × (dir_of (w.nodes c) ≡ some x0) × (x.parent ≡ x0.parent)
  kept_dirs c x e = elim (ℕ_discrete c self) [
    | yes at_self ↦
        let seen : some without ≡ some x = sym (ap dir_of (ap left.nodes at_self ∙ left-dir)) ∙ e in
        let same : without ≡ x = cc in
        (
          d,
          ap (λ (k : ℕ). dir_of (w.nodes k)) at_self ∙ ap dir_of here,
          sym (ap (λ (y : DirNode). y.parent) same),
        )
    | no apart ↦ (x, sym (ap dir_of (left-old apart)) ∙ e, refl)
  ]

  pub remove_child-ChangedAt : ChangedAt self w left
  remove_child-ChangedAt = record {
    grows = omega arith;
    entries = λ i nm c e. inl (kept i nm c e);
    dirs = λ c x e. inr (kept_dirs c x e);
  }

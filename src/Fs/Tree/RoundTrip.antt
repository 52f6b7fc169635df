-- ===== src/Fs/Tree/RoundTrip.antt =====
-- A node that is made is found, and removing it gives the directory back.
use chenlongos.Prelude.{
  ℕ, ◌≡◌, ◌≢◌, ◌<◌, sym, ap, ◌∙◌, Bool, true, false, Option, none, some, if◌then◌else◌, if-false,
  ℕ_discrete, Str, str_eq, arith,
}
use chenlongos.Fs.Types.{
  AxResult, ok, err, VfsNodeType, fifo, char_device, dir, block_device, file, sym_link, socket,
  not_found, directory_not_empty,
}
use chenlongos.Fs.Tree.{lookup, create, remove}
use chenlongos.Fs.Tree.Map.{
  NameMap, map_get, map_insert, map_remove, map_get-insert_self, map_get-insert_ne,
  map_remove-insert,
}
use chenlongos.Prelude.{update_self, update_ne}
use chenlongos.Fs.Tree.Heap.{World, Node, DirNode, ram_dir, Others, ok_or_not_found}
use chenlongos.Fs.Tree.Ram.{node_for, create_node, remove_node, remove_child, is_full}
use chenlongos.Fs.Tree.Child.{
  inserted, with_child, with_child-fresh, with_child-dir, with_child-old,
}
use chenlongos.Fs.Tree.Names.{is_plain, lookup-name, create-name, remove-name}

module _ {O : Type 0} (others : Others O) (w : World O) (id : ℕ) (d : DirNode) (name : Str)
    (ty : VfsNodeType) (n : Node O) where
  -- A plain name that the directory, a node of the world, does not have, and a type that can be made.
  pub record Free : Type 0 where
    pub plain : is_plain name ≡ true
    pub here : w.nodes id ≡ ram_dir d
    pub allocated : id < w.next
    pub missing : map_get d.children name ≡ none
    pub makes : node_for id ty ≡ some n

  abbrev pub made : World O
  made = with_child w id d name n

  create_node-Free : Free → create_node w id d name ty ≡ (made, ok tt)
  unfolding create_node
  create_node-Free f = ground (arith, f.missing, f.makes)

  -- `create` with a plain name that is free makes the node, `lookup` of that name finds it, and
  -- `lookup` of any other plain name in the directory gives what it gave.
  pub create-lookup :
      Free
      → (another : Str) → is_plain another ≡ true
      → str_eq name another ≡ false
      → (create others w id name ty ≡ some (made, ok tt))
        × (lookup others made id name ≡ some (ok w.next))
        × (made.nodes w.next ≡ n)
        × (lookup others made id another ≡ lookup others w id another)
  create-lookup f another plain ne = (
    create-name others w id d name ty f.plain f.here ∙ ap some (create_node-Free f),
    lookup-name others made id (inserted d name w.next) name f.plain (with_child-dir w id d name n)
        ∙ ap (λ (o : Option ℕ). some (ok_or_not_found o))
            (map_get-insert_self d.children name w.next),
    with_child-fresh w id d name n f.allocated,
    lookup-name others made id (inserted d name w.next) another plain (with_child-dir w id d name n)
        ∙ ap (λ (o : Option ℕ). some (ok_or_not_found o))
            (map_get-insert_ne d.children name another w.next ne)
        ∙ sym (lookup-name others w id d another plain f.here),
  )

  abbrev full? : Option (Node O) → Bool
  full? none = false
  full? (some m) = is_full m

  -- A node that was just made is empty.
  makes-empty : (t : VfsNodeType) (m : Node O) → node_for id t ≡ some m → is_full m ≡ false
  makes-empty file m e = sym (ap full? e)
  makes-empty dir m e = sym (ap full? e)
  makes-empty fifo m e = cc
  makes-empty char_device m e = cc
  makes-empty block_device m e = cc
  makes-empty sym_link m e = cc
  makes-empty socket m e = cc

  abbrev pub without_child : World O
  without_child = remove_child made id (inserted d name w.next) name w.next

  abbrev removed_at : Option ℕ → World O × AxResult (Unit {0})
  removed_at o = elim o [
    | none ↦ (made, err not_found)
    | some i ↦
        if is_full (made.nodes i)
        then (made, err directory_not_empty)
        else (remove_child made id (inserted d name w.next) name i, ok tt)
  ]

  remove_node-Free :
      Free → remove_node made id (inserted d name w.next) name ≡ (without_child, ok tt)
  unfolding remove_node
  remove_node-Free f =
      ap removed_at (map_get-insert_self d.children name w.next)
      ∙ if-false (made, err directory_not_empty) (without_child, ok tt)
          (ap is_full (with_child-fresh w id d name n f.allocated) ∙ makes-empty ty n f.makes)

  without_child-dir : map_get d.children name ≡ none → without_child.nodes id ≡ ram_dir d
  without_child-dir h =
      update_self made.nodes id (
        ram_dir (record {
          parent = d.parent;
          children = map_remove (map_insert d.children name w.next) name;
        }))
      ∙ ap (λ (m : NameMap ℕ). ram_dir (record { parent = d.parent; children = m }))
          (map_remove-insert d.children name w.next h)

  without_child-old : {j : ℕ} → j ≢ id → j ≢ w.next → without_child.nodes j ≡ w.nodes j
  without_child-old h k =
      update_ne made.nodes id
        (ram_dir (record {
          parent = d.parent;
          children = map_remove (map_insert d.children name w.next) name;
        }))
        h
      ∙ with_child-old w id d name n h k

  -- Removing what `create` has just made with a free plain name succeeds and leaves every node as it
  -- was before the `create`.
  pub create-remove :
      Free
      → (j : ℕ) → j < w.next
      → (create others w id name ty ≡ some (made, ok tt))
        × (remove others made id name ≡ some (without_child, ok tt))
        × (without_child.nodes j ≡ w.nodes j)
  create-remove f j old = (
    create-name others w id d name ty f.plain f.here ∙ ap some (create_node-Free f),
    remove-name others made id (inserted d name w.next) name f.plain (with_child-dir w id d name n)
        ∙ ap some (remove_node-Free f),
    elim (ℕ_discrete j id) [
      | yes e ↦
          ap without_child.nodes e ∙ without_child-dir f.missing ∙ sym f.here ∙ ap w.nodes (sym e)
      | no h ↦ without_child-old h (λ e. omega (arith, old, e))
    ],
  )

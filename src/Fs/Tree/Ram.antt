-- ===== src/Fs/Tree/Ram.antt =====
-- The directories in memory, crates/axfs_ramfs/src/dir.rs. A call on another node is the argument
-- `go`; a method returns the world that it leaves.
use chenlongos.Prelude.{
  ℕ, zero, suc, ◌-◌, max, Bool, true, false, ◌||◌, not, Option, none, some, List, [], ◌∷◌, map,
  drop, ◌>>=◌, if◌then◌else◌, Str, codes, is_empty,
}
use chenlongos.Fs.Types.{
  AxResult, ok, err, VfsNodeType, VfsNodeAttr, fifo, char_device, dir, block_device, file, sym_link,
  socket, already_exists, unsupported, not_found, directory_not_empty, invalid_input,
}
use chenlongos.Fs.DirEntry
use chenlongos.Fs.DirEntry.{VfsDirEntry}
use chenlongos.Fs.RamFile
use chenlongos.Fs.Tree.Map.{map_get, map_insert, map_remove}
use chenlongos.Prelude.{update}
use chenlongos.Fs.Tree.Heap.{
  World, Node, DirNode, Others, ram_file, ram_dir, alloc, put, entry, split_path, is_self,
  is_parent, attr_of,
}

abbrev pub new_node : Option ℕ → DirNode
new_node parent = record { parent = parent; children = [] }

abbrev pub get_entries : DirNode → List Str
get_entries d = map (λ (e : Str × ℕ). e.0) d.children

abbrev pub exist : DirNode → Str → Bool
exist d name = elim (map_get d.children name) [ none ↦ false | some i ↦ true ]

-- "", "." and "..", the paths that `create` and `remove` make nothing of.
abbrev pub is_dots : Str → Bool
is_dots name = is_self name || is_parent name

module _ {O : Type 0} where
  abbrev pub set_parent : World O → ℕ → DirNode → Option ℕ → World O
  set_parent w self d parent =
      put w self (ram_dir (record { parent = parent; children = d.children }))

  -- The node for a type: files and directories can be made.
  abbrev pub node_for : ℕ → VfsNodeType → Option (Node O)
  node_for self file = some (ram_file RamFile.new)
  node_for self dir = some (ram_dir (new_node (some self)))
  node_for self fifo = none
  node_for self char_device = none
  node_for self block_device = none
  node_for self sym_link = none
  node_for self socket = none

  abbrev pub insert_child : World O → ℕ → DirNode → Str → ℕ → World O
  insert_child w self d name id =
      put w self (ram_dir (record { parent = d.parent; children = map_insert d.children name id }))

  unfoldable pub create_node :
      World O → ℕ → DirNode → Str → VfsNodeType → World O × AxResult (Unit {0})
  create_node w self d name ty =
      if exist d name then (w, err already_exists) else elim (node_for self ty) [
        | none ↦ (w, err unsupported)
        | some n ↦ (insert_child (alloc w n).0 self d name (alloc w n).1, ok tt)
      ]

  -- A directory in memory that has entries.
  abbrev pub is_full : Node O → Bool
  is_full (ram_dir d) = not (is_empty d.children)
  is_full n = false

  -- The entry's reference is gone, and the node with it unless it is held.
  abbrev pub remove_child : World O → ℕ → DirNode → Str → ℕ → World O
  remove_child w self d name id = record {
    nodes =
        update w.nodes self
          (ram_dir (record { parent = d.parent; children = map_remove d.children name }));
    next = w.next;
    live = update w.live id (w.held id);
    held = w.held;
  }

  unfoldable pub remove_node : World O → ℕ → DirNode → Str → World O × AxResult (Unit {0})
  remove_node w self d name = elim (map_get d.children name) [
    | none ↦ (w, err not_found)
    | some id ↦
        if is_full (w.nodes id)
        then (w, err directory_not_empty)
        else (remove_child w self d name id, ok tt)
  ]

  unfoldable pub lookup :
      World O → (ℕ → Str → Option (AxResult ℕ)) → ℕ → DirNode → Str → Option (AxResult ℕ)
  lookup w go self d path = elim (entry w self d (split_path path).0) [
    | err e ↦ some (err e)
    | ok id ↦ elim (split_path path).1 [ none ↦ some (ok id) | some rest ↦ go id rest ]
  ]

  unfoldable pub create :
      World O
      → (ℕ → Str → Option (World O × AxResult (Unit {0})))
      → ℕ
      → DirNode
      → Str
      → VfsNodeType
      → Option (World O × AxResult (Unit {0}))
  create w go self d path ty = elim (split_path path).1 [
    | some rest ↦ elim (entry w self d (split_path path).0) [
      | err e ↦ some (w, err e)
      | ok id ↦ go id rest
    ]
    | none ↦ some (
        if is_dots (split_path path).0
        then (w, ok tt)
        else create_node w self d (split_path path).0 ty)
  ]

  unfoldable pub remove :
      World O
      → (ℕ → Str → Option (World O × AxResult (Unit {0})))
      → ℕ
      → DirNode
      → Str
      → Option (World O × AxResult (Unit {0}))
  remove w go self d path = elim (split_path path).1 [
    | some rest ↦ elim (entry w self d (split_path path).0) [
      | err e ↦ some (w, err e)
      | ok id ↦ go id rest
    ]
    | none ↦ some (
        if is_dots (split_path path).0
        then (w, err invalid_input)
        else remove_node w self d (split_path path).0)
  ]

  module _ (others : Others O) where
    -- `get_attr().unwrap()`
    abbrev pub unwrap : AxResult VfsNodeAttr → Option VfsNodeAttr
    unwrap (ok a) = some a
    unwrap (err e) = none

    -- An entry for a child; `none` is a panic.
    abbrev pub child_entry : World O → Str × ℕ → Option VfsDirEntry
    child_entry w c = unwrap (attr_of others w c.1) >>= λ a. DirEntry.new c.0 a.ty

    -- The entries that are written from the index `i` on, into `n` places of the buffer.
    unfoldable pub fill : World O → ℕ → ℕ → List (Str × ℕ) → Option (List VfsDirEntry)
    fill w i zero cs = some []
    fill w zero (suc n) cs =
        DirEntry.new (codes ".") dir >>= λ e. fill w 1 n cs >>= λ es. some (e ∷ es)
    fill w (suc zero) (suc n) cs =
        DirEntry.new (codes "..") dir >>= λ e. fill w 2 n cs >>= λ es. some (e ∷ es)
    fill w (suc (suc i)) (suc n) [] = some []
    fill w (suc (suc i)) (suc n) (c ∷ cs) =
        child_entry w c >>= λ e. fill w (suc (suc (suc i))) n cs >>= λ es. some (e ∷ es)

    -- What is written at the front of a buffer of `n` entries; the result is their number.
    unfoldable pub read_dir : World O → DirNode → ℕ → ℕ → Option (List VfsDirEntry)
    read_dir w d start_idx n = fill w start_idx n (drop (max start_idx 2 - 2) d.children)

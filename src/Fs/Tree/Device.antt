-- ===== src/Fs/Tree/Device.antt =====
-- The directories of the device file system, crates/axfs_devfs/src/dir.rs. Nodes are made by the
-- kernel, never through a path.
use chenlongos.Prelude.{ℕ, Option, none, some, List, ◌-◌, max, drop, if◌then◌else◌, Str}
use chenlongos.Fs.Types.{AxResult, ok, err, permission_denied}
use chenlongos.Fs.DirEntry.{VfsDirEntry}
use chenlongos.Fs.Tree.Map.{map_insert}
use chenlongos.Fs.Tree.Heap.{World, DirNode, Others, dev_dir, alloc, put, entry, split_path}
use chenlongos.Fs.Tree.Ram.{new_node, is_dots, fill}

module _ {O : Type 0} where
  abbrev pub set_parent : World O → ℕ → DirNode → Option ℕ → World O
  set_parent w self d parent =
      put w self (dev_dir (record { parent = parent; children = d.children }))

  abbrev pub add : World O → ℕ → DirNode → Str → ℕ → World O
  add w self d name id =
      put w self (dev_dir (record { parent = d.parent; children = map_insert d.children name id }))

  abbrev pub mkdir : World O → ℕ → DirNode → Str → World O × ℕ
  mkdir w self d name =
      let made = alloc w (dev_dir (new_node (some self))) in (add made.0 self d name made.1, made.1)

  unfoldable pub lookup :
      World O → (ℕ → Str → Option (AxResult ℕ)) → ℕ → DirNode → Str → Option (AxResult ℕ)
  lookup w go self d path = elim (entry w self d (split_path path).0) [
    | err e ↦ some (err e)
    | ok id ↦ elim (split_path path).1 [ none ↦ some (ok id) | some rest ↦ go id rest ]
  ]

  unfoldable pub create :
      World O
      → (ℕ → Str → Option (World O × AxResult (Unit {0})))
      → ℕ
      → DirNode
      → Str
      → Option (World O × AxResult (Unit {0}))
  create w go self d path = elim (split_path path).1 [
    | some rest ↦ elim (entry w self d (split_path path).0) [
      | err e ↦ some (w, err e)
      | ok id ↦ go id rest
    ]
    | none ↦ some (if is_dots (split_path path).0 then (w, ok tt) else (w, err permission_denied))
  ]

  unfoldable pub remove :
      World O
      → (ℕ → Str → Option (World O × AxResult (Unit {0})))
      → ℕ
      → DirNode
      → Str
      → Option (World O × AxResult (Unit {0}))
  remove w go self d path = elim (split_path path).1 [
    | some rest ↦ elim (entry w self d (split_path path).0) [
      | err e ↦ some (w, err e)
      | ok id ↦ go id rest
    ]
    | none ↦ some (w, err permission_denied)
  ]

  unfoldable pub read_dir : Others O → World O → DirNode → ℕ → ℕ → Option (List VfsDirEntry)
  read_dir others w d start_idx n =
      fill others w start_idx n (drop (max start_idx 2 - 2) d.children)

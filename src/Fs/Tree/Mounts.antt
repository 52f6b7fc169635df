-- ===== src/Fs/Tree/Mounts.antt =====
-- The file systems that are mounted at start: crates/axfs_ramfs/src/lib.rs,
-- crates/axfs_devfs/src/lib.rs and modules/axfs/src/mounts.rs. `none` is a panic or missing fuel.
use chenlongos.Prelude.{ℕ, Option, none, some, List, [], ◌∷◌, Str, codes}
use chenlongos.Fs.Types.{AxResult, ok, err, VfsNodeType, dir, file}
use chenlongos.Fs.Tree.{lookup, create}
use chenlongos.Fs.Tree.Heap.{
  World, Node, ram_file, ram_dir, dev_dir, null_dev, zero_dev, other, Others, alloc, put, parent_of,
}
use chenlongos.Fs.Tree.Ram.{new_node}
use chenlongos.Fs.Tree.Device
use chenlongos.Fs.Tree.Io.{OtherFiles, write_at}

-- `RamFileSystem` and `DeviceFileSystem`: the parent is set once.
pub record TreeFs : Type 0 where
  pub fs_parent : Option ℕ
  pub root : ℕ

-- `Once::call_once`: what was set first stays.
abbrev pub call_once : Option ℕ → ℕ → ℕ
call_once none p = p
call_once (some q) p = q

module _ {O : Type 0} where
  -- A file system with an empty root directory, in memory or for devices.
  abbrev pub new_ramfs : World O → World O × TreeFs
  new_ramfs w =
      let made = alloc w (ram_dir (new_node none)) in
      (made.0, record { fs_parent = none; root = made.1 })

  abbrev pub new_devfs : World O → World O × TreeFs
  new_devfs w =
      let made = alloc w (dev_dir (new_node none)) in
      (made.0, record { fs_parent = none; root = made.1 })

  -- `set_parent` on the root, a directory of either kind.
  abbrev pub set_root_parent : World O → ℕ → Option ℕ → Node O → World O
  set_root_parent w id p (ram_dir d) =
      put w id (ram_dir (record { parent = p; children = d.children }))
  set_root_parent w id p (dev_dir d) =
      put w id (dev_dir (record { parent = p; children = d.children }))
  set_root_parent w id p (ram_file f) = w
  set_root_parent w id p null_dev = w
  set_root_parent w id p zero_dev = w
  set_root_parent w id p (other o) = w

  abbrev pub mounted : World O → TreeFs → Option ℕ → World O × TreeFs
  mounted w fs none = (set_root_parent w fs.root none (w.nodes fs.root), fs)
  mounted w fs (some p) = (
    set_root_parent w fs.root (some (call_once fs.fs_parent p)) (w.nodes fs.root),
    record { fs_parent = some (call_once fs.fs_parent p); root = fs.root },
  )

  abbrev pub mount : Others O → World O → TreeFs → ℕ → World O × TreeFs
  mount others w fs mount_point = mounted w fs (parent_of others w mount_point)

  -- `add` and `mkdir` on a directory for devices; other nodes have no such method.
  abbrev pub add_on : World O → ℕ → Str → ℕ → Node O → World O
  add_on w id name child (dev_dir d) = Device.add w id d name child
  add_on w id name child (ram_dir d) = w
  add_on w id name child (ram_file f) = w
  add_on w id name child null_dev = w
  add_on w id name child zero_dev = w
  add_on w id name child (other o) = w

  abbrev pub mkdir_on : World O → ℕ → Str → Node O → World O × ℕ
  mkdir_on w id name (dev_dir d) = Device.mkdir w id d name
  mkdir_on w id name (ram_dir d) = (w, id)
  mkdir_on w id name (ram_file f) = (w, id)
  mkdir_on w id name null_dev = (w, id)
  mkdir_on w id name zero_dev = (w, id)
  mkdir_on w id name (other o) = (w, id)

  abbrev pub devfs : World O → World O × TreeFs
  devfs w =
      let fs = new_devfs w in
      let id = fs.1.root in
      let foo_dir = mkdir_on fs.0 id (codes "foo") (fs.0.nodes id) in
      let null = alloc foo_dir.0 null_dev in
      let with_null = add_on null.0 id (codes "null") null.1 (null.0.nodes id) in
      let zero = alloc with_null zero_dev in
      let with_zero = add_on zero.0 id (codes "zero") zero.1 (zero.0.nodes id) in
      let bar = alloc with_zero zero_dev in
      (add_on bar.0 foo_dir.1 (codes "bar") bar.1 (bar.0.nodes foo_dir.1), fs.1)

  module _ (others : Others O) (files : OtherFiles O) (id : ℕ) where
    -- The operator `?` on calls that leave a world.
    abbrev pub and_do :
        Option (World O × AxResult (Unit {0}))
        → (World O → Option (World O × AxResult (Unit {0})))
        → Option (World O × AxResult (Unit {0}))
    and_do none f = none
    and_do (some (w, err e)) f = some (w, err e)
    and_do (some (w, ok u)) f = f w

    abbrev pub unit_of : Option (World O × AxResult ℕ) → Option (World O × AxResult (Unit {0}))
    unit_of none = none
    unit_of (some (w, err e)) = some (w, err e)
    unit_of (some (w, ok n)) = some (w, ok tt)

    abbrev pub write_found :
        World O → Str → Option (AxResult ℕ) → Option (World O × AxResult (Unit {0}))
    write_found w text none = none
    write_found w text (some (err e)) = some (w, err e)
    write_found w text (some (ok n)) = unit_of (write_at files w n 0 text)

    -- `lookup` and `write_at` on what it finds.
    abbrev pub write_file : World O → Str → Str → Option (World O × AxResult (Unit {0}))
    write_file w path text = write_found w text (lookup others w id path)

    -- Directories along a path, then a file.
    abbrev pub create_all :
        World O → List (Str × VfsNodeType) → Option (World O × AxResult (Unit {0}))
    create_all w [] = some (w, ok tt)
    create_all w ((path, ty) ∷ ps) = and_do (create others w id path ty) (λ v. create_all v ps)

    abbrev pub procfs_nodes : World O → Option (World O × AxResult (Unit {0}))
    procfs_nodes w =
        and_do
          (create_all w (
            (codes "sys", dir)
            ∷ (codes "sys/net", dir)
            ∷ (codes "sys/net/core", dir)
            ∷ (codes "sys/net/core/somaxconn", file)
            ∷ []))
          (λ a. and_do (write_file a (codes "./sys/net/core/somaxconn") (codes "4096\n")) (λ b.
            and_do
              (create_all b ((codes "sys/vm", dir) ∷ (codes "sys/vm/overcommit_memory", file) ∷ []))
              (λ c.
                and_do (write_file c (codes "./sys/vm/overcommit_memory") (codes "0\n"))
                  (λ d. create_all d ((codes "self", dir) ∷ (codes "self/stat", file) ∷ [])))))

    abbrev pub sysfs_nodes : World O → Option (World O × AxResult (Unit {0}))
    sysfs_nodes w =
        and_do
          (create_all w (
            (codes "kernel", dir)
            ∷ (codes "kernel/mm", dir)
            ∷ (codes "kernel/mm/transparent_hugepage", dir)
            ∷ (codes "kernel/mm/transparent_hugepage/enabled", file)
            ∷ []))
          (λ a.
            and_do
              (write_file a (codes "./kernel/mm/transparent_hugepage/enabled")
                (codes "always [madvise] never\n"))
              (λ b.
                and_do
                  (create_all b (
                    (codes "devices", dir)
                    ∷ (codes "devices/system", dir)
                    ∷ (codes "devices/system/clocksource", dir)
                    ∷ (codes "devices/system/clocksource/clocksource0", dir)
                    ∷ (codes "devices/system/clocksource/clocksource0/current_clocksource", file)
                    ∷ []))
                  (λ c.
                    write_file c
                      (codes "devices/system/clocksource/clocksource0/current_clocksource")
                      (codes "tsc\n"))))

  -- The new file system, once its nodes are made.
  abbrev pub filled :
      TreeFs → Option (World O × AxResult (Unit {0})) → Option (World O × AxResult TreeFs)
  filled fs none = none
  filled fs (some (w, err e)) = some (w, err e)
  filled fs (some (w, ok u)) = some (w, ok fs)

  abbrev pub procfs : Others O → OtherFiles O → World O → Option (World O × AxResult TreeFs)
  procfs others files w =
      let fs = new_ramfs w in filled fs.1 (procfs_nodes others files fs.1.root fs.0)

  abbrev pub sysfs : Others O → OtherFiles O → World O → Option (World O × AxResult TreeFs)
  sysfs others files w =
      let fs = new_ramfs w in filled fs.1 (sysfs_nodes others files fs.1.root fs.0)

-- ===== src/Fs/Root/Trees.antt =====
-- The root directory over the trees of crates/axfs_ramfs and crates/axfs_devfs: the operations that
-- the directories and devices provide for it.
use chenlongos.Prelude.{ℕ, Option, none, some}
use chenlongos.Fs.Types.{AxResult, ok, err, unsupported}
use chenlongos.Fs.Tree.{lookup, create, remove}
use chenlongos.Prelude.{update}
use chenlongos.Fs.Tree.Heap.{World, Others, attr_of}
use chenlongos.Fs.Tree.Mounts.{TreeFs, mount}
use chenlongos.Fs.Root.{VfsNodes, Outcome}

-- The file systems by their numbers, and the nodes of all of them.
pub record Systems (O : Type 0) : Type 0 where
  pub world : World O
  pub systems : ℕ → TreeFs

pub record SystemRef : Type 0 where
  pub number : ℕ
  pub root : ℕ

module _ {O : Type 0} (others : Others O) where
  abbrev pub in_world :
      {A : Type 0} → (ℕ → TreeFs) → Option (World O × AxResult A) → Outcome (Systems O) A
  in_world ss none = none
  in_world ss (some (w, r)) = some (record { world = w; systems = ss }, r)

  -- A file system in memory or for devices is not told when it is unmounted, and its nodes cannot be
  -- renamed.
  abbrev pub trees : VfsNodes
  trees = record {
    State = Systems O;
    Node = ℕ;
    Fs = SystemRef;
    root_dir = λ fs. fs.root;
    lookup = λ s n path. lookup others s.world n path;
    create = λ s n path ty. in_world s.systems (create others s.world n path ty);
    remove = λ s n path. in_world s.systems (remove others s.world n path);
    rename = λ s n src dst. some (s, err unsupported);
    get_attr = λ s n. attr_of others s.world n;
    mount_fs = λ s fs path node.
        let m = mount others s.world (s.systems fs.number) node in
        some (record { world = m.0; systems = update s.systems fs.number m.1 }, ok tt);
    umount_fs = λ s fs. s;
  }

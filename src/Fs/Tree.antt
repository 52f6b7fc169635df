-- ===== src/Fs/Tree.antt =====
-- Trees of nodes: the directories and devices of crates/axfs_ramfs/src/dir.rs and
-- crates/axfs_devfs/src/{dir,null,zero}.rs in one heap, and the dispatch of `dyn VfsNodeOps` on a
-- node's kind. A reference is the node's address. A method of a directory passes the rest of a path
-- on to a node of any kind, so it takes that call as an argument, and the dispatch ties the knot on
-- fuel; `none` is a run that is out of fuel. Nodes of other file systems are a parameter.
pub mod Map
pub mod Heap
pub mod Ram
pub mod Device
pub mod Termination
pub mod Walk
pub mod Names
mod Child
pub mod RoundTrip
pub mod Errors
pub mod Linked
pub mod ReadDir
pub mod Io
pub mod Mounts
mod Tests
use chenlongos.Prelude.{ℕ, zero, suc, Option, none, some, Str, length}
use chenlongos.Fs.Types.{AxError, AxResult, ok, err, VfsNodeType, not_a_directory}
use chenlongos.Fs.Tree.Heap.{
  World, Node, ram_file, ram_dir, dev_dir, null_dev, zero_dev, other, Others,
}
use chenlongos.Fs.Tree.Ram
use chenlongos.Fs.Tree.Device

pub data TreeCall : Type 0 where
  create_call : VfsNodeType → TreeCall
  remove_call : TreeCall

-- A path has fewer parts than this.
abbrev pub path_fuel : Str → ℕ
path_fuel path = suc (length path)

module _ {O : Type 0} (others : Others O) where
  -- `lookup`, `create` and `remove` on a node of each kind; those that are not directories refuse.
  abbrev pub lookup_on :
      World O → (ℕ → Str → Option (AxResult ℕ)) → ℕ → Str → Node O → Option (AxResult ℕ)
  lookup_on w go id path (ram_dir d) = Ram.lookup w go id d path
  lookup_on w go id path (dev_dir d) = Device.lookup w go id d path
  lookup_on w go id path (other o) = some (others.other_lookup w o path)
  lookup_on w go id path (ram_file f) = some (err not_a_directory)
  lookup_on w go id path null_dev = some (err not_a_directory)
  lookup_on w go id path zero_dev = some (err not_a_directory)

  abbrev pub create_on :
      World O
      → (ℕ → Str → Option (World O × AxResult (Unit {0})))
      → ℕ
      → Str
      → VfsNodeType
      → Node O
      → Option (World O × AxResult (Unit {0}))
  create_on w go id path ty (ram_dir d) = Ram.create w go id d path ty
  create_on w go id path ty (dev_dir d) = Device.create w go id d path
  create_on w go id path ty (other o) = some (others.other_create w o path ty)
  create_on w go id path ty (ram_file f) = some (w, err not_a_directory)
  create_on w go id path ty null_dev = some (w, err not_a_directory)
  create_on w go id path ty zero_dev = some (w, err not_a_directory)

  abbrev pub remove_on :
      World O
      → (ℕ → Str → Option (World O × AxResult (Unit {0})))
      → ℕ
      → Str
      → Node O
      → Option (World O × AxResult (Unit {0}))
  remove_on w go id path (ram_dir d) = Ram.remove w go id d path
  remove_on w go id path (dev_dir d) = Device.remove w go id d path
  remove_on w go id path (other o) = some (others.other_remove w o path)
  remove_on w go id path (ram_file f) = some (w, err not_a_directory)
  remove_on w go id path null_dev = some (w, err not_a_directory)
  remove_on w go id path zero_dev = some (w, err not_a_directory)

  unfoldable pub lookup_fuel : ℕ → World O → ℕ → Str → Option (AxResult ℕ)
  lookup_fuel zero w id path = none
  lookup_fuel (suc fuel) w id path = lookup_on w (lookup_fuel fuel w) id path (w.nodes id)

  unfoldable pub create_fuel :
      ℕ → World O → ℕ → Str → VfsNodeType → Option (World O × AxResult (Unit {0}))
  create_fuel zero w id path ty = none
  create_fuel (suc fuel) w id path ty =
      create_on w (λ i p. create_fuel fuel w i p ty) id path ty (w.nodes id)

  unfoldable pub remove_fuel : ℕ → World O → ℕ → Str → Option (World O × AxResult (Unit {0}))
  remove_fuel zero w id path = none
  remove_fuel (suc fuel) w id path = remove_on w (remove_fuel fuel w) id path (w.nodes id)

  abbrev pub lookup : World O → ℕ → Str → Option (AxResult ℕ)
  lookup w id path = lookup_fuel (path_fuel path) w id path

  abbrev pub create : World O → ℕ → Str → VfsNodeType → Option (World O × AxResult (Unit {0}))
  create w id path ty = create_fuel (path_fuel path) w id path ty

  abbrev pub remove : World O → ℕ → Str → Option (World O × AxResult (Unit {0}))
  remove w id path = remove_fuel (path_fuel path) w id path

  -- The calls that change a tree.
  abbrev pub call : World O → ℕ → Str → TreeCall → Option (World O × AxResult (Unit {0}))
  call w id path (create_call ty) = create w id path ty
  call w id path remove_call = remove w id path

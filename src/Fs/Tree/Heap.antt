-- ===== src/Fs/Tree/Heap.antt =====
-- Nodes and their heap. A `Weak` reference is an address that can be upgraded while the node lives.
use chenlongos.Prelude.{
  ℕ, suc, Bool, true, false, ◌||◌, Option, none, some, [], ◌∷◌, ◌==◌, if◌then◌else◌, Str, codes,
  is_empty, str_eq, trim_start,
}
use chenlongos.Prelude.{update}
use chenlongos.Fs.Types.{
  AxResult, ok, err, VfsNodeAttr, VfsNodeType, not_found, new_dir, default_file, char_device,
}
use chenlongos.Fs.RamFile
use chenlongos.Fs.RamFile.{FileNode}
use chenlongos.Fs.Tree.Map.{NameMap, map_get}

-- `DirNode` of either crate; `this` is the node's own address.
pub record DirNode : Type 0 where
  pub parent : Option ℕ
  pub children : NameMap ℕ

pub data Node (O : Type 0) : Type 0 where
  ram_file : FileNode → Node O
  ram_dir dev_dir : DirNode → Node O
  null_dev zero_dev : Node O
  other : O → Node O

-- The nodes by their addresses, which are given out in order. `held` are the nodes that references
-- outside the directories keep; a node lives while it is held or stands in a directory.
pub record World (O : Type 0) : Type 0 where
  pub nodes : ℕ → Node O
  pub next : ℕ
  pub live : ℕ → Bool
  pub held : ℕ → Bool

-- The methods of nodes of other file systems.
pub record Others (O : Type 0) : Type 0 where
  pub other_attr : O → AxResult VfsNodeAttr
  pub other_parent : O → Option ℕ
  pub other_lookup : World O → O → Str → AxResult ℕ
  pub other_create : World O → O → Str → VfsNodeType → World O × AxResult (Unit {0})
  pub other_remove : World O → O → Str → World O × AxResult (Unit {0})

-- The name before the first separator that follows a name, and what is behind it.
abbrev pub cut : Str → Str × Option Str
cut [] = ([], none)
cut (c ∷ cs) = elim (c == 47) [ true ↦ ([], some cs) | false ↦ (c ∷ (cut cs).0, (cut cs).1) ]

abbrev pub split_path : Str → Str × Option Str
split_path path = cut (trim_start 47 path)

abbrev pub is_self : Str → Bool
is_self name = is_empty name || str_eq name (codes ".")

abbrev pub is_parent : Str → Bool
is_parent name = str_eq name (codes "..")

abbrev pub ok_or_not_found {ℓ} : {A : Type ℓ} → Option A → AxResult A
ok_or_not_found none = err not_found
ok_or_not_found (some a) = ok a

module _ {O : Type 0} where
  abbrev pub upgrade : World O → Option ℕ → Option ℕ
  upgrade w none = none
  upgrade w (some i) = if w.live i then some i else none

  -- A new node, which is held by the one who made it.
  abbrev pub alloc : World O → Node O → World O × ℕ
  alloc w n = (
    record {
      nodes = update w.nodes w.next n;
      next = suc w.next;
      live = update w.live w.next true;
      held = w.held;
    },
    w.next,
  )

  abbrev pub put : World O → ℕ → Node O → World O
  put w id n = record { nodes = update w.nodes id n; next = w.next; live = w.live; held = w.held }

  -- What a directory's own name, its parent's or an entry's refers to.
  unfoldable pub entry : World O → ℕ → DirNode → Str → AxResult ℕ
  entry w self d name =
      if is_self name
      then ok self
      else (if is_parent name
          then ok_or_not_found (upgrade w d.parent)
          else ok_or_not_found (map_get d.children name))

  module _ (others : Others O) where
    -- `get_attr` and `parent` of a node of any kind.
    unfoldable pub attr_of : World O → ℕ → AxResult VfsNodeAttr
    attr_of w id = elim (w.nodes id) [
      | ram_file f ↦ ok (RamFile.get_attr f)
      | ram_dir d ↦ ok (new_dir 4096 0)
      | dev_dir d ↦ ok (new_dir 4096 0)
      | null_dev ↦ ok (record { mode = default_file; ty = char_device; size = 0; blocks = 0 })
      | zero_dev ↦ ok (record { mode = default_file; ty = char_device; size = 0; blocks = 0 })
      | other o ↦ others.other_attr o
    ]

    unfoldable pub parent_of : World O → ℕ → Option ℕ
    parent_of w id = elim (w.nodes id) [
      | ram_dir d ↦ upgrade w d.parent
      | dev_dir d ↦ upgrade w d.parent
      | other o ↦ others.other_parent o
      | _ ↦ none
    ]

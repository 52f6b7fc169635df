-- ===== src/Fs/Tree/Walk.antt =====
-- `lookup` against the walk that takes a path's parts one after the other.
use chenlongos.Prelude.{
  ℕ, ◌≡◌, ◌<◌, Bool, true, false, Option, none, some, List, [], ◌∷◌, length, if◌then◌else◌, Str,
  split, split_first, trim_start,
}
use chenlongos.Fs.Types.{AxResult, ok, err, not_a_directory}
use chenlongos.Fs.Tree.Heap.{
  World, Node, ram_file, ram_dir, dev_dir, null_dev, zero_dev, other, Others, split_path, entry,
}
use chenlongos.Fs.Tree.Ram
use chenlongos.Fs.Tree.Device

abbrev and_then : AxResult ℕ → (ℕ → AxResult ℕ) → AxResult ℕ
and_then (ok i) f = f i
and_then (err e) f = err e

module _ {O : Type 0} (others : Others O) (w : World O) where
  -- One part of a path, from a node.
  abbrev pub step_on : ℕ → Str → Node O → AxResult ℕ
  step_on id part (ram_dir d) = entry w id d part
  step_on id part (dev_dir d) = entry w id d part
  step_on id part (other o) = others.other_lookup w o part
  step_on id part (ram_file f) = err not_a_directory
  step_on id part null_dev = err not_a_directory
  step_on id part zero_dev = err not_a_directory

  abbrev pub walk : ℕ → List Str → AxResult ℕ
  walk id [] = ok id
  walk id (p ∷ ps) = and_then (step_on id p (w.nodes id)) (λ i. walk i ps)

  -- Nodes of other file systems take the parts one after the other too.
  abbrev pub OthersWalk : Type 0
  OthersWalk =
      (id : ℕ) (o : O) (path : Str)
      → w.nodes id ≡ other o
      → others.other_lookup w o path ≡ walk id (split 47 path)

abbrev rest_parts : Option Str → List Str
rest_parts none = []
rest_parts (some r) = split 47 r

abbrev spread : Str × Option Str → Str × List Str
spread r = (r.0, rest_parts r.1)

abbrev split_char : ℕ → Str → Bool → Str × List Str → Str × List Str
split_char c cs b more = if b then ([], more.0 ∷ more.1) else (c ∷ more.0, more.1)

abbrev cut_char : ℕ → Str → Bool → Str × Option Str → Str × Option Str
cut_char c cs b less = elim b [ true ↦ ([], some cs) | false ↦ (c ∷ less.0, less.1) ]

-- The part that `split_path` gives, and the parts of what it leaves.
abbrev path_parts : Str → List Str
path_parts path = (split_path path).0 ∷ rest_parts (split_path path).1

abbrev trimmed : ℕ → Str → Bool → Str
trimmed c cs b = elim b [ true ↦ trim_start 47 cs | false ↦ c ∷ cs ]

module _ {O : Type 0} (others : Others O) (w : World O) (id : ℕ) where
  abbrev walk_pair : Str × List Str → AxResult ℕ
  walk_pair r = walk others w id (r.0 ∷ r.1)

  -- The walk from a node of which it is known what it is.
  abbrev walk_seen : Str → Node O → Option (AxResult ℕ)
  walk_seen path n = some (
      and_then (step_on others w id (split_first 47 path).0 n)
        (λ i. walk others w i (split_first 47 path).1))

module _ {O : Type 0} (others : Others O) (w : World O) (walks : OthersWalk others w) where
  abbrev WalksBelow : Str → (ℕ → Str → Option (AxResult ℕ)) → Type 0
  WalksBelow path go =
      (id : ℕ) (r : Str) → length r < length path → go id r ≡ some (walk others w id (split 47 r))

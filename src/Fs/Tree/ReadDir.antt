-- ===== src/Fs/Tree/ReadDir.antt =====
-- What `read_dir` writes is a window on one sequence of entries.
use chenlongos.Prelude.{ℕ, Option, some, List, [], ◌∷◌, ◌>>=◌, Str, codes}
use chenlongos.Fs.Types.{dir}
use chenlongos.Fs.DirEntry
use chenlongos.Fs.DirEntry.{VfsDirEntry}
use chenlongos.Fs.Tree.Heap.{World, DirNode, Others}
use chenlongos.Fs.Tree.Ram
use chenlongos.Fs.Tree.Ram.{child_entry}

module _ {O : Type 0} (others : Others O) (w : World O) where
  -- The entries for the children, if none of them panics.
  abbrev pub child_entries : List (Str × ℕ) → Option (List VfsDirEntry)
  child_entries [] = some []
  child_entries (c ∷ cs) = child_entry others w c >>= λ e. child_entries cs >>= λ es. some (e ∷ es)

  abbrev pub dot_entries : List VfsDirEntry → Option (List VfsDirEntry)
  dot_entries es =
      DirEntry.new (codes ".") dir >>= λ a. DirEntry.new (codes "..") dir >>= λ b. some (a ∷ b ∷ es)

  -- The whole sequence: ".", ".." and the children in the order of their names.
  abbrev pub all_entries : DirNode → Option (List VfsDirEntry)
  all_entries d = child_entries d.children >>= dot_entries

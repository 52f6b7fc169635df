-- ===== src/Fs/Tests.antt =====
-- Files on concrete contents.
use chenlongos.Prelude.{
  ◌≤◌, ℕ, ◌≡◌, ◌+◌, ◌-◌, ◌<◌, refl, Bool, true, false, none, some, List, [], ◌∷◌, arith, length,
  min, if◌then◌else◌, ◌==◌,
}
use chenlongos.Fs.Types.{dir, AxResult, ok, err, not_found, permission_denied, new_file, new_dir}
use chenlongos.Fs.DirEntry.{VfsDirEntry, new, name_as_bytes, name_as_bytes-new}
use chenlongos.Fs.RamFile.{FileNode, read_at, write_at, resize}
use chenlongos.Fs.RamFile.Laws.{byte, read_at_lem}
use chenlongos.Fs.Options.{OpenOptions, new_options, set_read, set_write}
use chenlongos.Fs.Fops.{
  FileSystem, File, Directory, open_at, open_dir_at, open_file_at, access_at, file_write,
  file_write_at, file_truncate, file_flush, find_node, finish_open, check_file, check_dir,
}
use chenlongos.Fs.Fops.Access.{open_at_read_only, relative_open_denied}

abbrev node : FileNode
node = record { content = 1 ∷ 2 ∷ 3 ∷ [] }

two_written :
    write_at node 4 (8 ∷ 9 ∷ []) ≡ some (record { content = 1 ∷ 2 ∷ 3 ∷ 0 ∷ 8 ∷ 9 ∷ [] }, 2)
unfolding write_at resize
two_written = refl

read_at_lem_example :
    (bs : List ℕ) × (read_at node 1 8 ≡ some bs)
    × (length bs ≡ min 8 (3 - 1))
    × ((i : ℕ) → i < length bs → byte bs i ≡ byte node.content (1 + i))
read_at_lem_example = read_at_lem node 1 8 (omega arith)

name_as_bytes-new_example :
    (2 ≤ 63
      → (d : VfsDirEntry) × (new (97 ∷ 98 ∷ []) dir ≡ some d)
        × (name_as_bytes d ≡ 97 ∷ 98 ∷ [])
        × (d.d_type ≡ dir))
    × (63 < 2 → new (97 ∷ 98 ∷ []) dir ≡ none)
name_as_bytes-new_example = name_as_bytes-new (97 ∷ 98 ∷ []) dir refl

abbrev file : File (Unit {0})
file = record {
  node = record { inner = tt; cap = record { reads = true; writes = true; executes = false } };
  is_append = false;
  offset = 1;
}

-- The root directory is `true`, and its only file `false` stands under the path `f`.
abbrev find : List ℕ → AxResult Bool
find [] = ok true
find (c ∷ cs) = if c == 102 then ok false else err not_found

abbrev tree : FileSystem
tree = record {
  State = List ℕ;
  Node = Bool;
  lookup = λ s dir path. find path;
  create_file = λ s dir path. (s, err permission_denied);
  get_attr = λ s n. ok (if n then new_dir 4096 0 else new_file (length s) 0);
  open_node = λ s n. (s, ok tt);
  truncate = λ s n size. ([], ok tt);
  read_at = λ s n offset len. ok s;
  write_at = λ s n offset buf. (buf, ok (length buf));
  fsync = λ s n. ok tt;
}

abbrev to_read : OpenOptions
to_read = set_read new_options true

abbrev to_write : OpenOptions
to_write = set_write new_options true

abbrev read_file : File Bool
read_file = record {
  node = record { inner = false; cap = record { reads = true; writes = false; executes = false } };
  is_append = false;
  offset = 0;
}

abbrev write_file : File Bool
write_file = record {
  node = record { inner = false; cap = record { reads = false; writes = true; executes = false } };
  is_append = false;
  offset = 0;
}

abbrev root : Directory Bool
root = record {
  node = record { inner = true; cap = record { reads = true; writes = false; executes = false } };
  entry_idx = 0;
}

opens : open_at tree (7 ∷ []) none (102 ∷ []) to_read ≡ (7 ∷ [], ok read_file)
unfolding open_at find_node finish_open check_file
opens = refl

opens_to_write : open_at tree (7 ∷ []) none (102 ∷ []) to_write ≡ (7 ∷ [], ok write_file)
unfolding open_at find_node finish_open check_file
opens_to_write = refl

opens_dir : open_dir_at tree (7 ∷ []) none [] to_read ≡ (7 ∷ [], ok root)
unfolding open_dir_at check_dir
opens_dir = refl

open_at_read_only_example :
    (file_write tree (5 ∷ []) read_file (1 ∷ []) ≡ (5 ∷ [], err permission_denied))
    × (file_write_at tree (5 ∷ []) read_file 3 (1 ∷ []) ≡ (5 ∷ [], err permission_denied))
    × (file_truncate tree (5 ∷ []) read_file 0 ≡ (5 ∷ [], err permission_denied))
    × (file_flush tree (5 ∷ []) read_file ≡ err permission_denied)
open_at_read_only_example =
    open_at_read_only tree (7 ∷ []) none (102 ∷ []) to_read (7 ∷ []) read_file opens refl (5 ∷ [])
      (1 ∷ []) 3 0

relative_open_denied_example :
    (access_at tree root (102 ∷ []) ≡ err permission_denied)
    × (open_file_at tree (5 ∷ []) root (102 ∷ []) to_read ≡ (5 ∷ [], err permission_denied))
relative_open_denied_example =
    relative_open_denied tree (7 ∷ []) none [] to_read (7 ∷ []) root opens_dir (5 ∷ []) (102 ∷ [])
      to_read refl

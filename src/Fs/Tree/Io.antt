-- ===== src/Fs/Tree/Io.antt =====
-- Reads and writes on the nodes of a tree: files in memory, the devices of
-- crates/axfs_devfs/src/{null,zero}.rs, and directories, which refuse
-- (crates/axfs_vfs/src/macros.rs). `none` is a panic of a file in memory.
use chenlongos.Prelude.{ℕ, Option, some, List, [], length, replicate, ◌>>=◌}
use chenlongos.Fs.Types.{AxResult, ok, err, is_a_directory, invalid_input, unsupported}
use chenlongos.Fs.RamFile
use chenlongos.Fs.RamFile.{FileNode}
use chenlongos.Fs.Tree.Heap.{
  World, Node, ram_file, ram_dir, dev_dir, null_dev, zero_dev, other, put,
}

-- The node operations of other file systems on their files.
pub record OtherFiles (O : Type 0) : Type 0 where
  pub other_read_at : O → ℕ → ℕ → Option (AxResult (List ℕ))
  pub other_write_at : World O → O → ℕ → List ℕ → Option (World O × AxResult ℕ)
  pub other_truncate : World O → O → ℕ → World O × AxResult (Unit {0})

module _ {O : Type 0} (files : OtherFiles O) (w : World O) where
  -- What is read into a buffer of `len` bytes.
  abbrev pub read_on : ℕ → ℕ → Node O → Option (AxResult (List ℕ))
  read_on offset len (ram_file f) = RamFile.read_at f offset len >>= λ bs. some (ok bs)
  read_on offset len null_dev = some (ok [])
  read_on offset len zero_dev = some (ok (replicate len 0))
  read_on offset len (ram_dir d) = some (err is_a_directory)
  read_on offset len (dev_dir d) = some (err is_a_directory)
  read_on offset len (other o) = files.other_read_at o offset len

  abbrev pub read_at : ℕ → ℕ → ℕ → Option (AxResult (List ℕ))
  read_at id offset len = read_on offset len (w.nodes id)

  abbrev pub write_on : ℕ → ℕ → List ℕ → Node O → Option (World O × AxResult ℕ)
  write_on id offset buf (ram_file f) =
      RamFile.write_at f offset buf >>= λ r. some (put w id (ram_file r.0), ok r.1)
  write_on id offset buf null_dev = some (w, ok (length buf))
  write_on id offset buf zero_dev = some (w, ok (length buf))
  write_on id offset buf (ram_dir d) = some (w, err is_a_directory)
  write_on id offset buf (dev_dir d) = some (w, err is_a_directory)
  write_on id offset buf (other o) = files.other_write_at w o offset buf

  abbrev pub write_at : ℕ → ℕ → List ℕ → Option (World O × AxResult ℕ)
  write_at id offset buf = write_on id offset buf (w.nodes id)

  abbrev pub truncate_on : ℕ → ℕ → Node O → World O × AxResult (Unit {0})
  truncate_on id size (ram_file f) = (put w id (ram_file (RamFile.truncate f size)), ok tt)
  truncate_on id size null_dev = (w, ok tt)
  truncate_on id size zero_dev = (w, ok tt)
  truncate_on id size (ram_dir d) = (w, err is_a_directory)
  truncate_on id size (dev_dir d) = (w, err is_a_directory)
  truncate_on id size (other o) = files.other_truncate w o size

  abbrev pub truncate : ℕ → ℕ → World O × AxResult (Unit {0})
  truncate id size = truncate_on id size (w.nodes id)

  -- `fsync` is not overridden by files and devices.
  abbrev pub fsync_on : Node O → AxResult (Unit {0})
  fsync_on (ram_file f) = err invalid_input
  fsync_on null_dev = err invalid_input
  fsync_on zero_dev = err invalid_input
  fsync_on (ram_dir d) = err is_a_directory
  fsync_on (dev_dir d) = err is_a_directory
  fsync_on (other o) = err unsupported

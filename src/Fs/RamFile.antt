-- ===== src/Fs/RamFile.antt =====
-- A file in memory, crates/axfs_ramfs/src/file.rs. `none` is a panic: a slice that ends before it
-- starts. The sum of an offset and a length wraps round.
pub mod Laws
use chenlongos.Prelude.{
  ℕ, zero, suc, ◌+◌, ◌-◌, ◌%◌, ◌^◌, min, Bool, Option, none, some, List, [], ◌∷◌, ◌++◌, length,
  take, drop, replicate, ltb, leb, if◌then◌else◌,
}
use chenlongos.Fs.Types.{VfsNodeAttr, new_file}

pub record FileNode : Type 0 where
  pub content : List ℕ

abbrev pub new : FileNode
new = record { content = [] }

abbrev pub get_attr : FileNode → VfsNodeAttr
get_attr n = new_file (length n.content) 0

-- `Vec::resize` with zeros
unfoldable pub resize : List ℕ → ℕ → List ℕ
resize c n = if ltb n (length c) then take n c else c ++ replicate (n - length c) 0

pub truncate : FileNode → ℕ → FileNode
truncate n size =
    if ltb size (length n.content)
    then record { content = take size n.content }
    else record { content = resize n.content size }

-- What is read into a buffer of `len` bytes.
unfoldable pub read_at : FileNode → ℕ → ℕ → Option (List ℕ)
read_at n offset len =
    let start = min (length n.content) offset in
    let end = min (length n.content) ((offset + len) % 2 ^ 64) in
    if leb start end then some (take (end - start) (drop start n.content)) else none

-- The buffer is written over what stands at `offset`, and the number of bytes is returned.
unfoldable pub write_at : FileNode → ℕ → List ℕ → Option (FileNode × ℕ)
write_at n offset buf =
    let end = (offset + length buf) % 2 ^ 64 in
    let content = if ltb (length n.content) end then resize n.content end else n.content in
    if leb offset end
    then some (
      record { content = take offset content ++ (take (end - offset) buf ++ drop end content) },
      length buf,
    )
    else none

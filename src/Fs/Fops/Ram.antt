-- ===== src/Fs/Fops/Ram.antt =====
-- Open files over a file in memory, the `VfsNodeOps` of crates/axfs_ramfs/src/file.rs. There is one
-- node, which every path names. A panic is the error 0.
use chenlongos.Prelude.{
  ℕ, ◌≡◌, ◌<◌, ◌+◌, ◌%◌, ◌^◌, refl, ap, ◌∙◌, true, false, Option, none, some, List, ◌++◌, arith,
  length, mod-eq_of_lt, get_or_ext, length-append, get_or-append-left, get_or-append-right, dec_lt,
}
use chenlongos.Fs.Types.{AxResult, ok, err, other_error}
use chenlongos.Fs.RamFile
use chenlongos.Fs.RamFile.{FileNode}
use chenlongos.Fs.RamFile.Laws.{write_at_lem, read_at-write_at}
use chenlongos.Fs.Fops.{FileSystem, File, start, file_write, file_seek, file_read, file_attr}

abbrev or_panic {ℓ} : {A : Type ℓ} → Option A → AxResult A
or_panic none = err (other_error 0)
or_panic (some a) = ok a

abbrev wrote : FileNode → Option (FileNode × ℕ) → FileNode × AxResult ℕ
wrote n none = (n, err (other_error 0))
wrote n (some (n', k)) = (n', ok k)

abbrev pub ram : FileSystem
ram = record {
  State = FileNode;
  Node = Unit {0};
  lookup = λ s dir path. ok tt;
  create_file = λ s dir path. (s, ok tt);
  get_attr = λ s n. ok (RamFile.get_attr s);
  open_node = λ s n. (s, ok tt);
  truncate = λ s n size. (RamFile.truncate s size, ok tt);
  read_at = λ s n offset len. or_panic (RamFile.read_at s offset len);
  write_at = λ s n offset buf. wrote s (RamFile.write_at s offset buf);
  fsync = λ s n. ok tt;
}

-- What is written, below 2 ^ 64, to a file in memory that is open to read and write, and not to
-- append, is read back after seeking to where it was written, and the offset is then behind it
-- again.
pub write_seek_read :
    (s : FileNode) (f : File (Unit {0})) (buf : List ℕ)
    → f.node.cap.reads ≡ true
    → f.node.cap.writes ≡ true
    → f.is_append ≡ false
    → f.offset + length buf < 2 ^ 64
    → let f' = record f { offset = f.offset + length buf } in
      (s' : FileNode) × (file_write ram s f buf ≡ (s', ok (length buf, f')))
      × (file_seek ram s' f' (start f.offset) ≡ ok (f.offset, f))
      × (file_read ram s' f (length buf) ≡ ok (buf, f'))
unfolding file_write file_seek file_read file_attr
write_seek_read s f buf r w a h =
    let (s', wrote, same) = read_at-write_at s f.offset buf h in
    let fits : (f.offset + length buf) % 2 ^ 64 ≡ f.offset + length buf = mod-eq_of_lt h in
    (s', rw (w, a, wrote, fits) refl, refl, rw (r, same, fits) refl)

write_at_end :
    (n : FileNode) (buf : List ℕ)
    → length n.content + length buf < 2 ^ 64
    → RamFile.write_at n (length n.content) buf
      ≡ some (record { content = n.content ++ buf }, length buf)
write_at_end n buf h =
    let c = n.content in
    let (n', runs, size, bytes) = write_at_lem n (length c) buf h in
    let all : length n'.content ≡ length (c ++ buf) = omega (arith, size, length-append c buf) in
    let contents : n'.content ≡ c ++ buf = get_or_ext n'.content (c ++ buf) 0 all (λ i l.
      bytes i ∙ elim (dec_lt i (length c)) [
        | yes p ↦ ground (arith, get_or-append-left c buf i 0 p)
        | no p ↦
            ground (arith, get_or-append-right c buf i 0 (omega arith), all, length-append c buf)
      ]) in
    runs ∙ ap (λ l. some (record { content = l }, length buf)) contents

-- A write, to below 2 ^ 64, through a file in memory that is open to append adds to its end,
-- wherever the offset was, and leaves the offset at the new end.
pub append_write :
    (s : FileNode) (f : File (Unit {0})) (buf : List ℕ)
    → f.node.cap.writes ≡ true
    → f.is_append ≡ true
    → length s.content + length buf < 2 ^ 64
    → let size = length s.content + length buf in
      file_write ram s f buf
      ≡ (record { content = s.content ++ buf }, ok (length buf, record f { offset = size }))
unfolding file_write file_attr
append_write s f buf w a h =
    let fits : (length s.content + length buf) % 2 ^ 64 ≡ length s.content + length buf =
      mod-eq_of_lt h in
    rw (w, a, write_at_end s buf h, fits) refl

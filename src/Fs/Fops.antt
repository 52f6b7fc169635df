-- ===== src/Fs/Fops.antt =====
-- Open files and directories, modules/axfs/src/fops.rs, over the file systems behind them: what
-- root.rs finds and creates, and the operations of a node. A panic of a node is not modelled here.
pub mod Access
pub mod Ram
use chenlongos.Prelude.{
  ℕ, suc, ◌+◌, ◌-◌, ◌%◌, ◌^◌, Bool, true, false, not, ◌&&◌, ◌||◌, Option, none, some, List, [], ◌∷◌,
  length, ltb, leb, ◌==◌, if◌then◌else◌,
}
use chenlongos.Prelude.Int.{ℤ, pos, negsuc}
use chenlongos.Fs.Options.{OpenOptions, is_valid, cap_of, perm_to_cap}
use chenlongos.Fs.Types.{
  AxError, AxResult, ok, err, invalid_input, already_exists, not_found, permission_denied,
  is_a_directory, not_a_directory, directory_not_empty, unsupported, other_error, Cap, WithCap,
  access, contains, empty, read_cap, write_cap, execute_cap, VfsNodeAttr, VfsNodePerm, is_dir,
}

-- `VfsNodeOps` and the functions of root.rs, on the state of all file systems. A path is its bytes.
pub record FileSystem : Type 1 where
  pub State : Type 0
  pub Node : Type 0
  pub lookup : State → Option Node → List ℕ → AxResult Node
  pub create_file : State → Option Node → List ℕ → State × AxResult Node
  pub get_attr : State → Node → AxResult VfsNodeAttr
  pub open_node : State → Node → State × AxResult (Unit {0})
  pub truncate : State → Node → ℕ → State × AxResult (Unit {0})
  pub read_at : State → Node → ℕ → ℕ → AxResult (List ℕ)
  pub write_at : State → Node → ℕ → List ℕ → State × AxResult ℕ
  pub fsync : State → Node → AxResult (Unit {0})

pub record File (N : Type 0) : Type 0 where
  pub node : WithCap N
  pub is_append : Bool
  pub offset : ℕ

pub record Directory (N : Type 0) : Type 0 where
  pub node : WithCap N
  pub entry_idx : ℕ

pub data SeekFrom : Type 0 where
  start : ℕ → SeekFrom
  current : ℤ → SeekFrom
  end : ℤ → SeekFrom

-- `checked_add_signed` of a `u64`
abbrev pub checked_add_signed : ℕ → ℤ → Option ℕ
checked_add_signed a (pos n) = if ltb (a + n) (2 ^ 64) then some (a + n) else none
checked_add_signed a (negsuc n) = if leb (suc n) a then some (a - suc n) else none

-- The operator `?`, with and without a state.
abbrev pub then_ok {ℓ κ} : {A : Type ℓ} {B : Type κ} → AxResult A → (A → AxResult B) → AxResult B
then_ok (ok a) f = f a
then_ok (err e) f = err e

abbrev pub and_then : {S A B : Type 0} → S × AxResult A → (S → A → S × AxResult B) → S × AxResult B
and_then (s, ok a) f = f s a
and_then (s, err e) f = (s, err e)

abbrev pub on_ok : {S A B : Type 0} → S → AxResult A → (A → S × AxResult B) → S × AxResult B
on_ok s (ok a) f = f a
on_ok s (err e) f = (s, err e)

module _ (F : FileSystem) where
  abbrev pub when_missing : F.State → Option F.Node → List ℕ → AxError → F.State × AxResult F.Node
  when_missing s dir path not_found = F.create_file s dir path
  when_missing s dir path invalid_input = (s, err invalid_input)
  when_missing s dir path already_exists = (s, err already_exists)
  when_missing s dir path permission_denied = (s, err permission_denied)
  when_missing s dir path is_a_directory = (s, err is_a_directory)
  when_missing s dir path not_a_directory = (s, err not_a_directory)
  when_missing s dir path directory_not_empty = (s, err directory_not_empty)
  when_missing s dir path unsupported = (s, err unsupported)
  when_missing s dir path (other_error n) = (s, err (other_error n))

  abbrev pub found :
      F.State → Option F.Node → List ℕ → OpenOptions → AxResult F.Node → F.State × AxResult F.Node
  found s dir path o (ok node) = if o.create_new then (s, err already_exists) else (s, ok node)
  found s dir path o (err e) = when_missing s dir path e

  -- The node to open, which may be created.
  unfoldable pub find_node :
      F.State → Option F.Node → List ℕ → OpenOptions → F.State × AxResult F.Node
  find_node s dir path o =
      if o.create || o.create_new
      then found s dir path o (F.lookup s dir path)
      else (s, F.lookup s dir path)

  unfoldable pub check_file : OpenOptions → VfsNodeAttr → AxResult (Unit {0})
  check_file o attr =
      let allowed : AxResult (Unit {0}) =
        if contains (perm_to_cap attr.mode) (cap_of o) then ok tt else err permission_denied in
      if is_dir attr.ty && (o.create || (o.create_new || (o.write || (o.append || o.truncate))))
      then err is_a_directory
      else allowed

  abbrev pub opened : OpenOptions → F.Node → File F.Node
  opened o node = record {
    node = record { inner = node; cap = cap_of o };
    is_append = o.append;
    offset = 0;
  }

  -- The last part of `_open_at`.
  unfoldable pub finish_open : F.State → OpenOptions → F.Node → F.State × AxResult (File F.Node)
  finish_open s o node = on_ok s (then_ok (F.get_attr s node) (check_file o)) (λ u.
      and_then (F.open_node s node) (λ s1 u1.
        and_then (if o.truncate then F.truncate s1 node 0 else (s1, ok tt))
          (λ s2 u2. (s2, ok (opened o node)))))

  unfoldable pub open_at :
      F.State → Option F.Node → List ℕ → OpenOptions → F.State × AxResult (File F.Node)
  open_at s dir path o =
      if is_valid o
      then and_then (find_node s dir path o) (λ s' node. finish_open s' o node)
      else (s, err invalid_input)

  pub file_truncate : F.State → File F.Node → ℕ → F.State × AxResult (Unit {0})
  file_truncate s f size = on_ok s (access f.node write_cap) (λ node. F.truncate s node size)

  pub file_attr : F.State → File F.Node → AxResult VfsNodeAttr
  file_attr s f = then_ok (access f.node empty) (λ node. F.get_attr s node)

  -- `read` into a buffer of `len` bytes: the bytes, and the file with its offset moved on.
  pub file_read : F.State → File F.Node → ℕ → AxResult (List ℕ × File F.Node)
  file_read s f len = then_ok (access f.node read_cap) (λ node.
      then_ok (F.read_at s node f.offset len)
        (λ bs. ok (bs, record f { offset = (f.offset + length bs) % 2 ^ 64 })))

  pub file_read_at : F.State → File F.Node → ℕ → ℕ → AxResult (List ℕ)
  file_read_at s f offset len =
      then_ok (access f.node read_cap) (λ node. F.read_at s node offset len)

  abbrev pub append_offset : F.State → File F.Node → AxResult ℕ
  append_offset s f =
      if f.is_append then then_ok (file_attr s f) (λ attr. ok attr.size) else ok f.offset

  pub file_write : F.State → File F.Node → List ℕ → F.State × AxResult (ℕ × File F.Node)
  unfolding file_attr
  file_write s f buf = on_ok s (access f.node write_cap) (λ node. on_ok s (append_offset s f) (λ at.
      and_then (F.write_at s node at buf)
        (λ s' n. (s', ok (n, record f { offset = (at + n) % 2 ^ 64 })))))

  pub file_write_at : F.State → File F.Node → ℕ → List ℕ → F.State × AxResult ℕ
  file_write_at s f offset buf =
      on_ok s (access f.node write_cap) (λ node. F.write_at s node offset buf)

  pub file_flush : F.State → File F.Node → AxResult (Unit {0})
  file_flush s f = then_ok (access f.node write_cap) (λ node. F.fsync s node)

  abbrev pub new_offset : File F.Node → ℕ → SeekFrom → Option ℕ
  new_offset f size (start n) = some n
  new_offset f size (current off) = checked_add_signed f.offset off
  new_offset f size (end off) = checked_add_signed size off

  abbrev pub sought : File F.Node → Option ℕ → AxResult (ℕ × File F.Node)
  sought f none = err invalid_input
  sought f (some n) = ok (n, record f { offset = n })

  pub file_seek : F.State → File F.Node → SeekFrom → AxResult (ℕ × File F.Node)
  file_seek s f p = then_ok (file_attr s f) (λ attr. sought f (new_offset f attr.size p))

  unfoldable pub check_dir : OpenOptions → VfsNodeAttr → AxResult (Unit {0})
  check_dir o attr =
      let allowed : AxResult (Unit {0}) =
        if contains (perm_to_cap attr.mode) (cap_of o) then ok tt else err permission_denied in
      if is_dir attr.ty then allowed else err not_a_directory

  unfoldable pub open_dir_at :
      F.State → Option F.Node → List ℕ → OpenOptions → F.State × AxResult (Directory F.Node)
  open_dir_at s dir path o =
      let opens = on_ok s (F.lookup s dir path) (λ node.
        on_ok s (then_ok (F.get_attr s node) (check_dir o)) (λ u.
          and_then (F.open_node s node) (λ s' u'.
            let d : Directory F.Node = record {
              node = record { inner = node; cap = cap_of o };
              entry_idx = 0;
            } in
            (s', ok d)))) in
      if not o.read || (o.create || (o.create_new || (o.write || (o.append || o.truncate))))
      then (s, err invalid_input)
      else opens

  -- `path.starts_with('/')`
  abbrev pub is_absolute : List ℕ → Bool
  is_absolute [] = false
  is_absolute (c ∷ cs) = c == 47

  -- Where a path of an operation on a directory starts: the root, or the directory.
  pub access_at : Directory F.Node → List ℕ → AxResult (Option F.Node)
  access_at d path =
      if is_absolute path
      then ok none
      else then_ok (access d.node execute_cap) (λ node. ok (some node))

  pub open_file_at :
      F.State → Directory F.Node → List ℕ → OpenOptions → F.State × AxResult (File F.Node)
  unfolding access_at
  open_file_at s d path o = on_ok s (access_at d path) (λ dir. open_at s dir path o)

-- ===== src/Fs/Root/Calls.antt =====
-- The calls on paths in modules/axfs/src/root.rs, from the root or the current directory.
use chenlongos.Prelude.{
  Bool, not, ◌||◌, Option, none, some, ◌++◌, if◌then◌else◌, ◌>>=◌, Str, codes, is_empty, str_eq,
  starts_with, ends_with, trim,
}
use chenlongos.Fs.Types.{
  AxResult, ok, err, invalid_input, already_exists, not_found, permission_denied, is_a_directory,
  not_a_directory, directory_not_empty, unsupported, other_error, VfsNodeAttr, VfsNodeType, file,
  is_dir, owner_writable, owner_executable,
}
use chenlongos.Fs.Path.{canonicalize}
use chenlongos.Fs.Root.{
  VfsNodes, Outcome, and_do, reading, RootDirectory, contains, root_lookup, root_create,
  root_remove, root_rename,
}

-- `CURRENT_DIR`: the root directory, or a node of a file system.
pub data DirRef (N : Type 0) : Type 0 where
  at_root : DirRef N
  at_node : N → DirRef N

-- The globals of root.rs, with the state of the file systems.
pub record RootState (V : VfsNodes) : Type 0 where
  pub files : V.State
  pub root : RootDirectory V.Fs
  pub current : DirRef V.Node
  pub current_path : Str

abbrev pub slash_path : Str
slash_path = codes "/"

module _ (V : VfsNodes) where
  -- A call on the file systems in the state of the root.
  abbrev pub on_files : {A : Type 0} → RootState V → Outcome V.State A → Outcome (RootState V) A
  on_files s none = none
  on_files s (some (f, r)) =
      some
        (record { files = f; root = s.root; current = s.current; current_path = s.current_path }, r)

  abbrev pub current_or : RootState V → Option V.Node → DirRef V.Node
  current_or s none = s.current
  current_or s (some n) = at_node n

  abbrev pub parent_node_of : RootState V → Option V.Node → Str → DirRef V.Node
  parent_node_of s base path = if starts_with path slash_path then at_root else current_or s base

  -- `VfsNodeOps` on the root directory or a node.
  abbrev pub lookup_at : RootState V → DirRef V.Node → Str → Option (AxResult V.Node)
  lookup_at s at_root path = root_lookup V s.files s.root path
  lookup_at s (at_node n) path = V.lookup s.files n path

  abbrev pub create_at :
      RootState V → DirRef V.Node → Str → VfsNodeType → Outcome (RootState V) (Unit {0})
  create_at s at_root path ty = on_files s (root_create V s.files s.root path ty)
  create_at s (at_node n) path ty = on_files s (V.create s.files n path ty)

  abbrev pub remove_at : RootState V → DirRef V.Node → Str → Outcome (RootState V) (Unit {0})
  remove_at s at_root path = on_files s (root_remove V s.files s.root path)
  remove_at s (at_node n) path = on_files s (V.remove s.files n path)

  abbrev pub rename_at : RootState V → DirRef V.Node → Str → Str → Outcome (RootState V) (Unit {0})
  rename_at s at_root old new = on_files s (root_rename V s.files s.root old new)
  rename_at s (at_node n) old new = on_files s (V.rename s.files n old new)

  unfoldable pub absolute_path : RootState V → Str → Option Str
  absolute_path s path =
      if starts_with path slash_path
      then canonicalize path
      else canonicalize (s.current_path ++ path)

  abbrev pub attr_in : RootState V → V.Node → Outcome (RootState V) VfsNodeAttr
  attr_in s node = some (s, V.get_attr s.files node)

  unfoldable pub lookup : RootState V → Option V.Node → Str → Outcome (RootState V) V.Node
  lookup s base path =
      let found = and_do (reading s (lookup_at s (parent_node_of s base path) path)) (λ s1 node.
        if ends_with path slash_path
        then and_do (attr_in s1 node)
            (λ s2 attr. some (s2, if is_dir attr.ty then ok node else err not_a_directory))
        else some (s1, ok node)) in
      if is_empty path then some (s, err not_found) else found

  unfoldable pub create_file : RootState V → Option V.Node → Str → Outcome (RootState V) V.Node
  create_file s base path =
      let parent = parent_node_of s base path in
      let created =
        and_do (create_at s parent path file) (λ s1 u. reading s1 (lookup_at s1 parent path)) in
      if is_empty path
      then some (s, err not_found)
      else (if ends_with path slash_path then some (s, err not_a_directory) else created)

  -- `create` where nothing was found, an error where something was or the search failed.
  abbrev pub when_found :
      RootState V
      → Option V.Node
      → Str
      → Outcome (RootState V) V.Node
      → Outcome (RootState V) (Unit {0})
  when_found s base path none = none
  when_found s base path (some (s1, ok node)) = some (s1, err already_exists)
  when_found s base path (some (s1, err not_found)) =
      create_at s1 (parent_node_of s1 base path) path VfsNodeType.dir
  when_found s base path (some (s1, err invalid_input)) = some (s1, err invalid_input)
  when_found s base path (some (s1, err already_exists)) = some (s1, err already_exists)
  when_found s base path (some (s1, err permission_denied)) = some (s1, err permission_denied)
  when_found s base path (some (s1, err is_a_directory)) = some (s1, err is_a_directory)
  when_found s base path (some (s1, err not_a_directory)) = some (s1, err not_a_directory)
  when_found s base path (some (s1, err directory_not_empty)) = some (s1, err directory_not_empty)
  when_found s base path (some (s1, err unsupported)) = some (s1, err unsupported)
  when_found s base path (some (s1, err (other_error n))) = some (s1, err (other_error n))

  unfoldable pub create_dir : RootState V → Option V.Node → Str → Outcome (RootState V) (Unit {0})
  create_dir s base path = when_found s base path (lookup s base path)

  unfoldable pub remove_file : RootState V → Option V.Node → Str → Outcome (RootState V) (Unit {0})
  remove_file s base path = and_do (lookup s base path) (λ s1 node.
      and_do (attr_in s1 node) (λ s2 attr.
        let removed = remove_at s2 (parent_node_of s2 base path) path in
        if is_dir attr.ty
        then some (s2, err is_a_directory)
        else (if not (owner_writable attr.mode)
            then some (s2, err permission_denied)
            else removed)))

  -- The paths that name ".", ".." or the root.
  abbrev pub is_dot_path : Str → Bool
  is_dot_path p =
      str_eq p (codes ".")
      || (str_eq p (codes "..") || (ends_with p (codes "/.") || ends_with p (codes "/..")))

  abbrev pub remove_found : RootState V → Option V.Node → Str → Outcome (RootState V) (Unit {0})
  remove_found s base path = and_do (lookup s base path) (λ s1 node.
      and_do (attr_in s1 node) (λ s2 attr.
        let removed = remove_at s2 (parent_node_of s2 base path) path in
        if not (is_dir attr.ty)
        then some (s2, err not_a_directory)
        else (if not (owner_writable attr.mode)
            then some (s2, err permission_denied)
            else removed)))

  unfoldable pub remove_dir : RootState V → Option V.Node → Str → Outcome (RootState V) (Unit {0})
  remove_dir s base path =
      let path_check = trim 47 path in
      let removed = absolute_path s path >>= λ p.
      if contains s.root p then some (s, err permission_denied) else remove_found s base path in
      if is_empty path
      then some (s, err not_found)
      else (if is_empty path_check
          then some (s, err directory_not_empty)
          else (if is_dot_path path_check then some (s, err invalid_input) else removed))

  abbrev pub current_dir : RootState V → AxResult Str
  current_dir s = ok s.current_path

  abbrev pub with_current : RootState V → DirRef V.Node → Str → RootState V
  with_current s d p = record { files = s.files; root = s.root; current = d; current_path = p }

  -- `abs_path` with a separator at its end.
  abbrev pub with_slash : Str → Str
  with_slash p = if ends_with p slash_path then p else p ++ slash_path

  abbrev pub enter : RootState V → Str → Outcome (RootState V) (Unit {0})
  enter s p = and_do (lookup s none p) (λ s1 node. and_do (attr_in s1 node) (λ s2 attr.
      if not (is_dir attr.ty)
      then some (s2, err not_a_directory)
      else (if not (owner_executable attr.mode)
          then some (s2, err permission_denied)
          else some (with_current s2 (at_node node) p, ok tt))))

  unfoldable pub set_current_dir : RootState V → Str → Outcome (RootState V) (Unit {0})
  set_current_dir s path = absolute_path s path >>= λ abs.
      let p = with_slash abs in
      if str_eq p slash_path then some (with_current s at_root slash_path, ok tt) else enter s p

  abbrev pub rename_rest : RootState V → Str → Str → Outcome (RootState V) (Unit {0})
  rename_rest s old new = rename_at s (parent_node_of s none old) old new

  -- What stands at the new path is removed first.
  abbrev pub after_target :
      RootState V → Str → Str → Option (AxResult V.Node) → Outcome (RootState V) (Unit {0})
  after_target s old new none = none
  after_target s old new (some (ok node)) =
      and_do (remove_file s none new) (λ s1 u. rename_rest s1 old new)
  after_target s old new (some (err e)) = rename_rest s old new

  unfoldable pub rename : RootState V → Str → Str → Outcome (RootState V) (Unit {0})
  rename s old new = after_target s old new (lookup_at s (parent_node_of s none new) new)

-- ===== src/Fs/Types.antt =====
-- The nodes of file systems, crates/axfs_vfs/src/structs.rs, and capabilities,
-- crates/capability/src/lib.rs. A set of bit flags is a record of its bits, and a byte is a number.
use chenlongos.Prelude.{ℕ, Bool, true, false, not, ◌&&◌, ◌||◌, List, [], ◌∷◌, if◌then◌else◌}

-- The errors that this code gives, and any other.
pub data AxError : Type 0 where
  invalid_input already_exists not_found permission_denied : AxError
  is_a_directory not_a_directory directory_not_empty unsupported : AxError
  other_error : ℕ → AxError

pub data AxResult {ℓ} (A : Type ℓ) : Type ℓ where
  ok : A → AxResult A
  err : AxError → AxResult A

pub record Cap : Type 0 where
  pub reads : Bool
  pub writes : Bool
  pub executes : Bool

abbrev pub empty : Cap
empty = record { reads = false; writes = false; executes = false }

abbrev pub read_cap : Cap
read_cap = record { reads = true; writes = false; executes = false }

abbrev pub write_cap : Cap
write_cap = record { reads = false; writes = true; executes = false }

abbrev pub execute_cap : Cap
execute_cap = record { reads = false; writes = false; executes = true }

abbrev pub implies : Bool → Bool → Bool
implies a b = not a || b

abbrev pub contains : Cap → Cap → Bool
contains c d =
    implies d.reads c.reads && (implies d.writes c.writes && implies d.executes c.executes)

pub record WithCap {ℓ} (T : Type ℓ) : Type ℓ where
  pub inner : T
  pub cap : Cap

module _ {ℓ} {T : Type ℓ} where
  abbrev pub can_access : WithCap T → Cap → Bool
  can_access w c = contains w.cap c

  -- A `CapError` becomes `PermissionDenied`.
  abbrev pub access : WithCap T → Cap → AxResult T
  access w c = if can_access w c then ok w.inner else err permission_denied

-- `access` with the error that the caller gives, here one of this type.
abbrev pub access_or_err {ℓ} : {T : Type ℓ} → WithCap T → Cap → AxError → AxResult T
access_or_err w c e = if can_access w c then ok w.inner else err e

pub data VfsNodeType : Type 0 where
  fifo char_device dir block_device file sym_link socket : VfsNodeType

abbrev pub is_dir : VfsNodeType → Bool
is_dir dir = true
is_dir fifo = false
is_dir char_device = false
is_dir block_device = false
is_dir file = false
is_dir sym_link = false
is_dir socket = false

abbrev pub is_file : VfsNodeType → Bool
is_file fifo = false
is_file char_device = false
is_file dir = false
is_file block_device = false
is_file file = true
is_file sym_link = false
is_file socket = false

abbrev pub is_symlink : VfsNodeType → Bool
is_symlink fifo = false
is_symlink char_device = false
is_symlink dir = false
is_symlink block_device = false
is_symlink file = false
is_symlink sym_link = true
is_symlink socket = false

abbrev pub is_block_device : VfsNodeType → Bool
is_block_device fifo = false
is_block_device char_device = false
is_block_device dir = false
is_block_device block_device = true
is_block_device file = false
is_block_device sym_link = false
is_block_device socket = false

abbrev pub is_char_device : VfsNodeType → Bool
is_char_device fifo = false
is_char_device char_device = true
is_char_device dir = false
is_char_device block_device = false
is_char_device file = false
is_char_device sym_link = false
is_char_device socket = false

abbrev pub is_fifo : VfsNodeType → Bool
is_fifo fifo = true
is_fifo char_device = false
is_fifo dir = false
is_fifo block_device = false
is_fifo file = false
is_fifo sym_link = false
is_fifo socket = false

abbrev pub is_socket : VfsNodeType → Bool
is_socket fifo = false
is_socket char_device = false
is_socket dir = false
is_socket block_device = false
is_socket file = false
is_socket sym_link = false
is_socket socket = true

-- The letters of `ls -l`.
pub as_char : VfsNodeType → ℕ
as_char fifo = 112
as_char char_device = 99
as_char dir = 100
as_char block_device = 98
as_char file = 45
as_char sym_link = 108
as_char socket = 115

pub record VfsNodePerm : Type 0 where
  pub owner_read : Bool
  pub owner_write : Bool
  pub owner_exec : Bool
  pub group_read : Bool
  pub group_write : Bool
  pub group_exec : Bool
  pub other_read : Bool
  pub other_write : Bool
  pub other_exec : Bool

-- 0o666 and 0o755
abbrev pub default_file : VfsNodePerm
default_file = record {
  owner_read = true;
  owner_write = true;
  owner_exec = false;
  group_read = true;
  group_write = true;
  group_exec = false;
  other_read = true;
  other_write = true;
  other_exec = false;
}

abbrev pub default_dir : VfsNodePerm
default_dir = record {
  owner_read = true;
  owner_write = true;
  owner_exec = true;
  group_read = true;
  group_write = false;
  group_exec = true;
  other_read = true;
  other_write = false;
  other_exec = true;
}

abbrev pub owner_readable : VfsNodePerm → Bool
owner_readable p = p.owner_read

abbrev pub owner_writable : VfsNodePerm → Bool
owner_writable p = p.owner_write

abbrev pub owner_executable : VfsNodePerm → Bool
owner_executable p = p.owner_exec

-- The letter of a bit, or a dash.
abbrev pub letter : Bool → ℕ → ℕ
letter b c = if b then c else 45

pub rwx_buf : VfsNodePerm → List ℕ
rwx_buf p =
    letter p.owner_read 114
    ∷ letter p.owner_write 119
    ∷ letter p.owner_exec 120
    ∷ letter p.group_read 114
    ∷ letter p.group_write 119
    ∷ letter p.group_exec 120
    ∷ letter p.other_read 114
    ∷ letter p.other_write 119
    ∷ letter p.other_exec 120
    ∷ []

pub record VfsNodeAttr : Type 0 where
  pub mode : VfsNodePerm
  pub ty : VfsNodeType
  pub size : ℕ
  pub blocks : ℕ

abbrev pub new_file : ℕ → ℕ → VfsNodeAttr
new_file size blocks = record { mode = default_file; ty = file; size = size; blocks = blocks }

abbrev pub new_dir : ℕ → ℕ → VfsNodeAttr
new_dir size blocks = record { mode = default_dir; ty = dir; size = size; blocks = blocks }

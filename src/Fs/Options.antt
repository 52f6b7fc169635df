-- ===== src/Fs/Options.antt =====
-- The options to open a file with, `OpenOptions` of modules/axfs/src/fops.rs, and the rights that they
-- and the permissions of a node give.
use chenlongos.Prelude.{Bool, true, false, not, ◌&&◌, ◌||◌, if◌then◌else◌}
use chenlongos.Fs.Types.{Cap, VfsNodePerm}

pub record OpenOptions : Type 0 where
  pub read : Bool
  pub write : Bool
  pub append : Bool
  pub truncate : Bool
  pub create : Bool
  pub create_new : Bool

abbrev pub new_options : OpenOptions
new_options = record {
  read = false;
  write = false;
  append = false;
  truncate = false;
  create = false;
  create_new = false;
}

abbrev pub set_read : OpenOptions → Bool → OpenOptions
set_read o b = record o { read = b }

abbrev pub set_write : OpenOptions → Bool → OpenOptions
set_write o b = record o { write = b }

abbrev pub set_append : OpenOptions → Bool → OpenOptions
set_append o b = record o { append = b }

abbrev pub set_truncate : OpenOptions → Bool → OpenOptions
set_truncate o b = record o { truncate = b }

abbrev pub set_create : OpenOptions → Bool → OpenOptions
set_create o b = record o { create = b }

abbrev pub set_create_new : OpenOptions → Bool → OpenOptions
set_create_new o b = record o { create_new = b }

abbrev pub is_valid : OpenOptions → Bool
is_valid o =
    let mode =
      if o.append
      then not (o.truncate && not o.create_new)
      else (if o.write then true else not (o.truncate || (o.create || o.create_new))) in
    if not o.read && (not o.write && not o.append) then false else mode

-- `impl From<&OpenOptions> for Cap`
abbrev pub cap_of : OpenOptions → Cap
cap_of o = record { reads = o.read; writes = o.write || o.append; executes = false }

abbrev pub perm_to_cap : VfsNodePerm → Cap
perm_to_cap p = record { reads = p.owner_read; writes = p.owner_write; executes = p.owner_exec }

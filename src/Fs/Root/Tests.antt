-- ===== src/Fs/Root/Tests.antt =====
-- The root directory on a concrete pair of file systems: one in memory, and the devices at "/dev".
use chenlongos.Prelude.{
  ℕ, ◌≡◌, refl, false, Option, none, some, [], ◌∷◌, ◌+◌, arith, Str, codes, starts_with, length,
}
use chenlongos.Fs.Types.{AxResult, ok, err, not_found}
use chenlongos.Fs.Tree.{lookup_fuel, create_fuel}
use chenlongos.Fs.Tree.Heap.{World, null_dev, Others, entry, parent_of}
use chenlongos.Fs.Tree.Ram
use chenlongos.Fs.Tree.Ram.{create_node}
use chenlongos.Fs.Tree.Device
use chenlongos.Fs.Tree.Mounts.{TreeFs, new_ramfs, devfs}
use chenlongos.Fs.Root.{
  Outcome, RootDirectory, new, mount, strip, longest, lookup_mounted_fs, root_lookup,
}
use chenlongos.Fs.Root.Trees.{Systems, SystemRef, trees}
use chenlongos.Fs.Root.Calls.{RootState, DirRef, at_root}
use chenlongos.Fs.Root.Mount.{NamesMount, lookup_mounted_fs-Chosen, Chosen}

abbrev nothing : Others ℕ
nothing = record {
  other_attr = λ o. err not_found;
  other_parent = λ o. none;
  other_lookup = λ w o path. err not_found;
  other_create = λ w o path ty. (w, err not_found);
  other_remove = λ w o path. (w, err not_found);
}

abbrev main : World ℕ × TreeFs
main = new_ramfs (record { nodes = λ i. null_dev; next = 0; live = λ i. false; held = λ i. false })

abbrev devices : World ℕ × TreeFs
devices = devfs main.0

abbrev before : Systems ℕ
before = record { world = devices.0; systems = λ i. devices.1 }

abbrev main_ref : SystemRef
main_ref = record { number = 0; root = main.1.root }

abbrev dev_ref : SystemRef
dev_ref = record { number = 1; root = devices.1.root }

abbrev mounted : Outcome (Systems ℕ × RootDirectory SystemRef) (Unit {0})
mounted = mount (trees nothing) before (new main_ref) (codes "/dev") dev_ref

abbrev found : Outcome (Systems ℕ × RootDirectory SystemRef) (Unit {0}) → Str → Option (AxResult ℕ)
found none path = none
found (some ((s, r), err e)) path = some (err e)
found (some ((s, r), ok u)) path = root_lookup (trees nothing) s r path

-- A device, by its path.
dev_zero : found mounted (codes "/dev/zero") ≡ some (ok 4)
unfolding mount strip longest lookup_mounted_fs lookup_fuel create_fuel Ram.lookup Ram.create
    Device.lookup create_node entry parent_of
dev_zero = refl

-- And by a name in the root directory that starts like the mount point.
dev_zero_without_separator : found mounted (codes "/devzero") ≡ some (ok 4)
unfolding mount strip longest lookup_mounted_fs lookup_fuel create_fuel Ram.lookup Ram.create
    Device.lookup create_node entry parent_of
dev_zero_without_separator = refl

-- The root directory with the devices mounted, and what it was mounted in.
abbrev with_dev : RootDirectory SystemRef
with_dev = record { main_fs = main_ref; mounts = record { path = codes "/dev"; fs = dev_ref } ∷ [] }

abbrev asked : SystemRef → Str → Option ℕ
asked fs rest = some (fs.number + length rest)

lookup_mounted_fs-Chosen_example :
    (starts_with (codes "dev/zero") (codes "./") ≡ false)
    × Chosen with_dev asked
        (codes "dev/zero")
        (lookup_mounted_fs with_dev (codes "./dev/zero") asked)
unfolding strip
lookup_mounted_fs-Chosen_example = lookup_mounted_fs-Chosen with_dev asked (codes "./dev/zero")

dev-NamesMount : NamesMount with_dev (codes "/dev/")
unfolding strip
dev-NamesMount = (0, record { path = codes "/dev"; fs = dev_ref }, refl, refl, omega arith)

-- In the root directory.
abbrev at_start : RootState (trees nothing)
at_start = record { files = before; root = with_dev; current = at_root; current_path = codes "/" }

abbrev in_dev : RootState (trees nothing)
in_dev = record {
  files = before;
  root = with_dev;
  current = DirRef.at_node 1;
  current_path = codes "/dev/";
}

-- ===== src/Fs/Tree/Tests.antt =====
-- Trees on concrete worlds: the file systems that are mounted at start, and a small tree in memory.
use Prim.Native.String.{String}
use chenlongos.Prelude.{
  ◌++◌, ◌-◌, ◌∙◌, replicate, ℕ, zero, suc, ◌≡◌, refl, sym, ap, Bool, true, false, Option, none,
  some, List, [], ◌∷◌, Str, codes, str_eq, arith, length,
}
use chenlongos.Fs.Types.{AxResult, ok, err, not_found, already_exists, VfsNodeType, file}
use chenlongos.Fs.RamFile
use chenlongos.Fs.DirEntry
use chenlongos.Fs.DirEntry.{VfsDirEntry}
use chenlongos.Fs.Tree.{lookup, create, remove, lookup_fuel, create_fuel, remove_fuel, create_call}
use chenlongos.Fs.Tree.Heap.{World, Node, DirNode, ram_file, ram_dir, null_dev, Others, entry}
use chenlongos.Fs.Tree.Ram
use chenlongos.Fs.Tree.Ram.{create_node, remove_node, fill}
use chenlongos.Fs.Tree.Device
use chenlongos.Fs.Tree.Io.{OtherFiles, read_at}
use chenlongos.Fs.Tree.Mounts.{TreeFs, procfs, devfs, sysfs}
use chenlongos.Fs.Tree.Termination.{Agree, dispatch_ends}
use chenlongos.Fs.Tree.RoundTrip.{Free, create-remove, made, without_child}
use chenlongos.Fs.Tree.Errors.{OthersKeep, failed_call_changes_nothing}
use chenlongos.Fs.Tree.Linked.{Linked, child_of, dir_of}
use chenlongos.Fs.Tree.Linked.Calls.{call-Linked}
use chenlongos.Fs.Tree.Linked.Up.{lookup_up}

-- A file system of which nothing can be found.
abbrev nothing : Others ℕ
nothing = record {
  other_attr = λ o. err not_found;
  other_parent = λ o. none;
  other_lookup = λ w o path. err not_found;
  other_create = λ w o path ty. (w, err not_found);
  other_remove = λ w o path. (w, err not_found);
}

abbrev no_files : OtherFiles ℕ
no_files = record {
  other_read_at = λ o offset len. some (err not_found);
  other_write_at = λ w o offset buf. some (w, err not_found);
  other_truncate = λ w o size. (w, err not_found);
}

abbrev empty_world : World ℕ
empty_world = record { nodes = λ i. null_dev; next = 0; live = λ i. false; held = λ i. false }

-- What a file holds once a file system is made.
abbrev read_in : Option (World ℕ × AxResult TreeFs) → Str → Option (AxResult (List ℕ))
read_in none path = none
read_in (some (w, err e)) path = some (err e)
read_in (some (w, ok fs)) path = read_found w (lookup nothing w fs.root path)
  where
    read_found : World ℕ → Option (AxResult ℕ) → Option (AxResult (List ℕ))
    read_found v none = none
    read_found v (some (err e)) = some (err e)
    read_found v (some (ok id)) = read_at no_files v id 0 64

proc_memory :
    read_in (procfs nothing no_files empty_world) (codes "sys/../sys//vm/overcommit_memory")
    ≡ some (ok (codes "0\n"))
unfolding lookup_fuel create_fuel Ram.lookup Ram.create create_node entry RamFile.read_at
    RamFile.write_at RamFile.resize
proc_memory = refl

-- The device file system: a null device, a zero device and a directory with another.
dev_bar :
    lookup nothing (devfs empty_world).0 (devfs empty_world).1.root (codes "foo/../foo/./bar")
    ≡ some (ok 4)
unfolding lookup_fuel Device.lookup entry
dev_bar = refl

sys_clock :
    read_in
      (sysfs nothing no_files empty_world)
      (codes "devices/system/clocksource/clocksource0/current_clocksource")
    ≡ some (ok (codes "tsc\n"))
unfolding lookup_fuel create_fuel Ram.lookup Ram.create create_node entry RamFile.read_at
    RamFile.write_at RamFile.resize
sys_clock = refl

-- An entry with its name filled up to 63 bytes.
abbrev entry_of : String → VfsNodeType → VfsDirEntry
entry_of name ty = record {
  d_type = ty;
  d_name = codes name ++ replicate (63 - length (codes name)) 0;
}

-- A directory with another in it.
abbrev top : DirNode
top = record { parent = none; children = (codes "a", 1) ∷ [] }

abbrev inner : DirNode
inner = record { parent = some 0; children = [] }

abbrev pair_nodes : ℕ → Node ℕ
pair_nodes zero = ram_dir top
pair_nodes (suc zero) = ram_dir inner
pair_nodes (suc (suc i)) = null_dev

abbrev pair : World ℕ
pair = record { nodes = pair_nodes; next = 2; live = λ i. true; held = λ i. false }

dispatch_ends_example :
    Agree (lookup nothing pair 0 (codes "a/..")) (lookup_fuel nothing 9 pair 0 (codes "a/.."))
    × Agree
        (create nothing pair 0 (codes "a/..") file)
        (create_fuel nothing 9 pair 0 (codes "a/..") file)
    × Agree (remove nothing pair 0 (codes "a/..")) (remove_fuel nothing 9 pair 0 (codes "a/.."))
dispatch_ends_example = dispatch_ends nothing pair 0 (codes "a/..") file 9 (omega arith)

free_b : Free nothing pair 1 inner (codes "b") file (ram_file RamFile.new)
free_b = record { plain = refl; here = refl; allocated = omega arith; missing = refl; makes = refl }

abbrev with_b : World ℕ
with_b = made nothing pair 1 inner (codes "b") file (ram_file RamFile.new)

abbrev b_gone : World ℕ
b_gone = without_child nothing pair 1 inner (codes "b") file (ram_file RamFile.new)

create-remove_example :
    (create nothing pair 1 (codes "b") file ≡ some (with_b, ok tt))
    × (remove nothing with_b 1 (codes "b") ≡ some (b_gone, ok tt))
    × (b_gone.nodes 0 ≡ pair.nodes 0)
create-remove_example =
    create-remove nothing pair 1 inner (codes "b") file (ram_file RamFile.new) free_b 0
      (omega arith)

pair-OthersKeep : OthersKeep nothing pair
pair-OthersKeep o path = (λ ty e h. refl, λ e h. refl)

-- The name is there already.
failed_call_changes_nothing_example : pair ≡ pair
unfolding create_fuel Ram.create create_node entry
failed_call_changes_nothing_example =
    failed_call_changes_nothing nothing pair pair-OthersKeep 0 (codes "./a") (create_call file) pair
      already_exists refl

pair_child : (i : ℕ) (name : Str) (c : ℕ) → child_of pair i name ≡ some c → (i ≡ 0) × (c ≡ 1)
pair_child zero name c e = at_name (str_eq (codes "a") name) e
  where
    at_name :
        (b : Bool)
        → (elim b as (λ _. Option ℕ) [ true ↦ some 1 | false ↦ none ]) ≡ some c
        → (zero ≡ zero) × (c ≡ 1)
    at_name true q = (refl, cc)
    at_name false q = cc
pair_child (suc zero) name c e = cc
pair_child (suc (suc i)) name c e = cc

pair_parent :
    (c : ℕ) (d : DirNode) (p : ℕ)
    → dir_of (pair_nodes c) ≡ some d
    → d.parent ≡ some p
    → (c ≡ 1) × (p ≡ 0)
pair_parent zero d p e q =
    let same : top ≡ d = cc in
    let none_is : none ≡ some p = ap (λ (x : DirNode). x.parent) same ∙ q in cc
pair_parent (suc zero) d p e q =
    let same : inner ≡ d = cc in
    let some_is : some 0 ≡ some p = ap (λ (x : DirNode). x.parent) same ∙ q in (refl, cc)
pair_parent (suc (suc i)) d p e q = cc

pair_dir : (d : DirNode) → dir_of (pair_nodes 1) ≡ some d → d.parent ≡ some 0
pair_dir d e = let same : inner ≡ d = cc in sym (ap (λ (x : DirNode). x.parent) same)

pair-Linked : Linked pair
pair-Linked = record {
  bounded = λ i name c e. omega (arith, (pair_child i name c e).1);
  parents = λ i name c d e q.
      pair_dir d (ap (λ (k : ℕ). dir_of (pair_nodes k)) (sym (pair_child i name c e).1) ∙ q)
      ∙ ap some (sym (pair_child i name c e).0);
  parent_bounded = λ i d p e q. omega (arith, (pair_parent i d p e q).1);
}

call-Linked_example : Linked with_b
unfolding create_fuel Ram.create create_node entry
call-Linked_example =
    call-Linked nothing pair pair-Linked (λ o path. (λ ty. pair-Linked, pair-Linked)) 0
      (codes "a/b") (create_call file) (with_b, ok tt) (omega arith) refl

lookup_up_example : lookup nothing pair 1 (codes "..") ≡ some (ok 0)
unfolding lookup_fuel Ram.lookup entry
lookup_up_example =
    lookup_up nothing pair 0 1 top inner (codes "a") pair-Linked refl refl refl refl refl

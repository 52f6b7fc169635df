-- ===== src/Fs/Tree/Linked/Up.antt =====
-- The way back from a child to its parent.
use chenlongos.Prelude.{
  ℕ, ◌≡◌, sym, ap, ◌∙◌, Bool, true, Option, none, some, if◌then◌else◌, Str, codes,
}
use chenlongos.Fs.Types.{AxResult, ok, err}
use chenlongos.Fs.Tree.{lookup, lookup_fuel, lookup_on}
use chenlongos.Fs.Tree.Map.{map_get}
use chenlongos.Fs.Tree.Heap.{World, Node, DirNode, ram_dir, Others, upgrade, ok_or_not_found, entry}
use chenlongos.Fs.Tree.Ram
use chenlongos.Fs.Tree.Names.{is_plain, lookup-name}
use chenlongos.Fs.Tree.Linked.{Linked, child_in, dir_of}
use chenlongos.Fs.Tree.Linked.Calls.{found-some}

module _ {O : Type 0} (others : Others O) (w : World O) where
  lookup_parent :
      (c i : ℕ) (dc : DirNode)
      → w.nodes c ≡ ram_dir dc
      → dc.parent ≡ some i
      → w.live i ≡ true
      → lookup others w c (codes "..") ≡ some (ok i)
  unfolding lookup_fuel Ram.lookup entry
  lookup_parent c i dc at_c up alive =
      ap (lookup_on others w (lookup_fuel others 2 w) c (codes "..")) at_c
      ∙ ap (λ (p : Option ℕ). answered (ok_or_not_found (upgrade w p))) up
      ∙ ap (λ (b : Bool). answered (ok_or_not_found (if b then some i else none))) alive
    where
      answered : AxResult ℕ → Option (AxResult ℕ)
      answered r = elim r [ err e ↦ some (err e) | ok j ↦ some (ok j) ]

  -- In a tree of the shape `Linked`, the parent of a child is where it was found: ".." from a
  -- directory in memory that a plain name leads to comes back to the one that holds it, if that lives.
  pub lookup_up :
      (i c : ℕ) (d dc : DirNode) (name : Str)
      → Linked w
      → w.nodes i ≡ ram_dir d
      → w.nodes c ≡ ram_dir dc
      → w.live i ≡ true
      → is_plain name ≡ true
      → lookup others w i name ≡ some (ok c)
      → lookup others w c (codes "..") ≡ some (ok i)
  lookup_up i c d dc name linked at_i at_c alive plain e =
      let found : some (ok_or_not_found (map_get d.children name)) ≡ some (ok c) =
        sym (lookup-name others w i d name plain at_i) ∙ e in
      let child : map_get d.children name ≡ some c = found-some (map_get d.children name) c cc in
      lookup_parent c i dc at_c
        (linked.parents i name c dc (ap (λ (m : Node O). child_in (dir_of m) name) at_i ∙ child)
          (ap dir_of at_c))
        alive

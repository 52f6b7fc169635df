-- ===== src/Fs/Tree/Linked.antt =====
-- The shape of a tree: an entry is a node of the world, and a directory's parent is where it is an
-- entry.
mod Made
mod Left
pub mod Calls
pub mod Up
use chenlongos.Prelude.{
  ℕ, suc, ◌≡◌, ◌≢◌, ◌<◌, ◌≤◌, ◌⊎◌, inl, inr, refl, sym, ap, ◌∙◌, Bool, true, false, Option, none,
  some, List, [], ◌∷◌, ◌==◌, if◌then◌else◌, Bool-cases, ◌>>=◌, ℕ_discrete, Str, str_eq, str_eq→≡,
  arith,
}
use chenlongos.Fs.Types.{
  AxResult, ok, err, VfsNodeType, fifo, char_device, dir, block_device, file, sym_link, socket,
}
use chenlongos.Fs.Tree.Map.{
  NameMap, map_get, map_insert, map_remove, map_get-insert_self, map_get-insert_ne,
  map_get-remove_self, map_get-remove_ne,
}
use chenlongos.Prelude.{update, update_self, update_ne}
use chenlongos.Fs.Tree.Heap.{
  World, Node, DirNode, ram_file, ram_dir, dev_dir, null_dev, zero_dev, other, alloc,
}
use chenlongos.Fs.Tree.Ram.{node_for, insert_child, remove_child}

abbrev pub child_in : Option DirNode → Str → Option ℕ
child_in none name = none
child_in (some d) name = map_get d.children name

module _ {O : Type 0} where
  abbrev pub dir_of : Node O → Option DirNode
  dir_of (ram_dir d) = some d
  dir_of (dev_dir d) = some d
  dir_of (ram_file f) = none
  dir_of null_dev = none
  dir_of zero_dev = none
  dir_of (other o) = none

  abbrev pub child_of : World O → ℕ → Str → Option ℕ
  child_of w i name = child_in (dir_of (w.nodes i)) name

  pub record Linked (w : World O) : Type 0 where
    pub bounded : (i : ℕ) (name : Str) (c : ℕ) → child_of w i name ≡ some c → c < w.next
    pub parents :
        (i : ℕ) (name : Str) (c : ℕ) (d : DirNode)
        → child_of w i name ≡ some c
        → dir_of (w.nodes c) ≡ some d
        → d.parent ≡ some i
    pub parent_bounded :
        (i : ℕ) (d : DirNode) (p : ℕ) → dir_of (w.nodes i) ≡ some d → d.parent ≡ some p → p < w.next

  -- A change at one directory: entries were there or are new nodes, and so are directories, whose
  -- parent is as it was or this directory.
  pub record ChangedAt (self : ℕ) (w v : World O) : Type 0 where
    pub grows : w.next ≤ v.next
    pub entries :
        (i : ℕ) (name : Str) (c : ℕ)
        → child_of v i name ≡ some c
        → (child_of w i name ≡ some c)
          ⊎ ((i ≡ self)
              × (c < v.next)
              × ((d : DirNode) → dir_of (v.nodes c) ≡ some d → d.parent ≡ some self))
    pub dirs :
        (c : ℕ) (d : DirNode)
        → dir_of (v.nodes c) ≡ some d
        → ((w.next ≤ c) × (d.parent ≡ some self))
          ⊎ ((d0 : DirNode) × (dir_of (w.nodes c) ≡ some d0) × (d.parent ≡ d0.parent))

  module _ {w v : World O} (self : ℕ) (h : Linked w) (allocated : self < w.next)
      (c : ChangedAt self w v) where
    child_bounded : (i : ℕ) (name : Str) (k : ℕ) → child_of v i name ≡ some k → k < v.next
    child_bounded i name k e = by (c.entries i name k e)
      where
        by :
            (child_of w i name ≡ some k)
              ⊎ ((i ≡ self)
                  × (k < v.next)
                  × ((d : DirNode) → dir_of (v.nodes k) ≡ some d → d.parent ≡ some self))
            → k < v.next
        by (inl old) = omega (arith, h.bounded i name k old, c.grows)
        by (inr (_, bound, _)) = bound

    child_parent :
        (i : ℕ) (name : Str) (k : ℕ) (d : DirNode)
        → child_of v i name ≡ some k
        → dir_of (v.nodes k) ≡ some d
        → d.parent ≡ some i
    child_parent i name k d e q = by (c.entries i name k e) (c.dirs k d q)
      where
        by :
            (child_of w i name ≡ some k)
              ⊎ ((i ≡ self)
                  × (k < v.next)
                  × ((d : DirNode) → dir_of (v.nodes k) ≡ some d → d.parent ≡ some self))
            → ((w.next ≤ k) × (d.parent ≡ some self))
              ⊎ ((d0 : DirNode) × (dir_of (w.nodes k) ≡ some d0) × (d.parent ≡ d0.parent))
            → d.parent ≡ some i
        by (inl old) (inl (new, _)) = absurd (omega (arith, h.bounded i name k old, new))
        by (inl old) (inr (d0, was, same)) = same ∙ h.parents i name k d0 old was
        by (inr (here, _, new)) origin = new d q ∙ ap some (sym here)

    own_parent :
        (k : ℕ) (d : DirNode) (p : ℕ) → dir_of (v.nodes k) ≡ some d → d.parent ≡ some p → p < v.next
    own_parent k d p q e = by (c.dirs k d q)
      where
        by :
            ((w.next ≤ k) × (d.parent ≡ some self))
              ⊎ ((d0 : DirNode) × (dir_of (w.nodes k) ≡ some d0) × (d.parent ≡ d0.parent))
            → p < v.next
        by (inl (_, made)) = let same : self ≡ p = cc in omega (arith, same, allocated, c.grows)
        by (inr (d0, was, same)) =
            omega (arith, h.parent_bounded k d0 p was (sym same ∙ e), c.grows)

    pub ChangedAt-Linked : Linked v
    ChangedAt-Linked = record {
      bounded = child_bounded;
      parents = child_parent;
      parent_bounded = own_parent;
    }

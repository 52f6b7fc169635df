-- ===== src/Fs/Tree/Child.antt =====
-- The nodes of a world in which a directory in memory has a new child.
use chenlongos.Prelude.{ℕ, ◌≡◌, ◌≢◌, ◌<◌, ◌∙◌, Str, arith}
use chenlongos.Fs.Tree.Map.{map_insert}
use chenlongos.Prelude.{update, update_self, update_ne}
use chenlongos.Fs.Tree.Heap.{World, Node, DirNode, ram_dir, alloc}
use chenlongos.Fs.Tree.Ram.{insert_child}

abbrev pub inserted : DirNode → Str → ℕ → DirNode
inserted d name id = record { parent = d.parent; children = map_insert d.children name id }

module _ {O : Type 0} (w : World O) (id : ℕ) (d : DirNode) (name : Str) (n : Node O) where
  abbrev pub with_child : World O
  with_child = insert_child (alloc w n).0 id d name w.next

  pub with_child-fresh : id < w.next → with_child.nodes w.next ≡ n
  with_child-fresh h =
      update_ne (update w.nodes w.next n) id (ram_dir (inserted d name w.next)) {j = w.next}
        (λ e. omega (arith, h, e))
      ∙ update_self w.nodes w.next n

  pub with_child-dir : with_child.nodes id ≡ ram_dir (inserted d name w.next)
  with_child-dir = update_self (update w.nodes w.next n) id (ram_dir (inserted d name w.next))

  pub with_child-old : {j : ℕ} → j ≢ id → j ≢ w.next → with_child.nodes j ≡ w.nodes j
  with_child-old h k =
      update_ne (update w.nodes w.next n) id (ram_dir (inserted d name w.next)) h
      ∙ update_ne w.nodes w.next n k

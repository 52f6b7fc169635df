-- ===== src/Fs/Tree/Names.antt =====
-- What `lookup`, `create` and `remove` do with a plain name in a directory in memory.
use chenlongos.Prelude.{
  ℕ, ◌≡◌, refl, ap, ◌∙◌, Bool, true, false, not, ◌&&◌, Option, none, some, [], ◌∷◌, length, ◌==◌,
  if◌then◌else◌, if-false, Str, lacks, trim_start, arith,
}
use chenlongos.Fs.Types.{AxResult, ok, err, VfsNodeType, invalid_input}
use chenlongos.Fs.Tree.{
  lookup_fuel, create_fuel, remove_fuel, lookup, create, remove, lookup_on, create_on, remove_on,
}
use chenlongos.Fs.Tree.Map.{map_get}
use chenlongos.Fs.Tree.Heap.{
  World, DirNode, ram_dir, Others, cut, split_path, entry, is_self, is_parent, ok_or_not_found,
}
use chenlongos.Fs.Tree.Ram
use chenlongos.Fs.Tree.Ram.{
  is_dots, node_for, create_node, remove_node, insert_child, remove_child, is_full,
}

abbrev pub is_plain : Str → Bool
is_plain name = not (is_dots name) && lacks 47 name

cut-lacking : (s : Str) → lacks 47 s ≡ true → cut s ≡ (s, none)
cut-lacking [] h = refl
cut-lacking (c ∷ cs) h =
    let here : (c == 47) ≡ false = ground (arith, h) in
    let rest : lacks 47 cs ≡ true = ground (arith, h) in
    ap (cut_char c cs) here ∙ ap (λ (r : Str × Option Str). (c ∷ r.0, r.1)) (cut-lacking cs rest)
  where
    cut_char : ℕ → Str → Bool → Str × Option Str
    cut_char c cs b = elim b [ true ↦ ([], some cs) | false ↦ (c ∷ (cut cs).0, (cut cs).1) ]

trim_start-lacking : (s : Str) → lacks 47 s ≡ true → trim_start 47 s ≡ s
trim_start-lacking [] h = refl
trim_start-lacking (c ∷ cs) h = ground (arith, h)

split_path-plain : (name : Str) → is_plain name ≡ true → split_path name ≡ (name, none)
split_path-plain name h =
    let l : lacks 47 name ≡ true = ground (arith, h) in
    ap cut (trim_start-lacking name l) ∙ cut-lacking name l

module _ {O : Type 0} (w : World O) (id : ℕ) (d : DirNode) (name : Str) where
  entry-plain : is_plain name ≡ true → entry w id d name ≡ ok_or_not_found (map_get d.children name)
  unfolding entry
  entry-plain h =
      let a : is_self name ≡ false = ground (arith, h) in
      let b : is_parent name ≡ false = ground (arith, h) in rw a (rw b refl)

  abbrev looked : (ℕ → Str → Option (AxResult ℕ)) → Str × Option Str → Option (AxResult ℕ)
  looked go s = elim (entry w id d s.0) [
    | err e ↦ some (err e)
    | ok i ↦ elim s.1 [ none ↦ some (ok i) | some rest ↦ go i rest ]
  ]

  answer :
      (r : AxResult ℕ)
      → (elim r as (λ _. Option (AxResult ℕ)) [ err e ↦ some (err e) | ok i ↦ some (ok i) ])
        ≡ some r
  answer (ok i) = refl
  answer (err e) = refl

  lookup-plain :
      (go : ℕ → Str → Option (AxResult ℕ))
      → is_plain name ≡ true
      → Ram.lookup w go id d name ≡ some (ok_or_not_found (map_get d.children name))
  unfolding Ram.lookup
  lookup-plain go h =
      ap (looked go) (split_path-plain name h)
      ∙ answer (entry w id d name)
      ∙ ap some (entry-plain h)

  create-plain :
      (go : ℕ → Str → Option (World O × AxResult (Unit {0}))) (ty : VfsNodeType)
      → is_plain name ≡ true
      → Ram.create w go id d name ty ≡ some (create_node w id d name ty)
  unfolding Ram.create
  create-plain go ty h =
      ap (created go ty) (split_path-plain name h)
      ∙ ap some (if-false (w, ok tt) (create_node w id d name ty) (ground (arith, h)))
    where
      created :
          (ℕ → Str → Option (World O × AxResult (Unit {0})))
          → VfsNodeType
          → Str × Option Str
          → Option (World O × AxResult (Unit {0}))
      created go ty s = elim s.1 [
        | some rest ↦ elim (entry w id d s.0) [ err e ↦ some (w, err e) | ok i ↦ go i rest ]
        | none ↦ some (if is_dots s.0 then (w, ok tt) else create_node w id d s.0 ty)
      ]

  remove-plain :
      (go : ℕ → Str → Option (World O × AxResult (Unit {0})))
      → is_plain name ≡ true
      → Ram.remove w go id d name ≡ some (remove_node w id d name)
  unfolding Ram.remove
  remove-plain go h =
      ap (removed go) (split_path-plain name h)
      ∙ ap some (if-false (w, err invalid_input) (remove_node w id d name) (ground (arith, h)))
    where
      removed :
          (ℕ → Str → Option (World O × AxResult (Unit {0})))
          → Str × Option Str
          → Option (World O × AxResult (Unit {0}))
      removed go s = elim s.1 [
        | some rest ↦ elim (entry w id d s.0) [ err e ↦ some (w, err e) | ok i ↦ go i rest ]
        | none ↦ some (if is_dots s.0 then (w, err invalid_input) else remove_node w id d s.0)
      ]

module _ {O : Type 0} (others : Others O) (w : World O) (id : ℕ) (d : DirNode) (name : Str) where
  pub lookup-name :
      is_plain name ≡ true
      → w.nodes id ≡ ram_dir d
      → lookup others w id name ≡ some (ok_or_not_found (map_get d.children name))
  unfolding lookup_fuel
  lookup-name h e =
      ap (lookup_on others w (lookup_fuel others (length name) w) id name) e
      ∙ lookup-plain w id d name (lookup_fuel others (length name) w) h

  pub create-name :
      (ty : VfsNodeType)
      → is_plain name ≡ true
      → w.nodes id ≡ ram_dir d
      → create others w id name ty ≡ some (create_node w id d name ty)
  unfolding create_fuel
  create-name ty h e =
      ap (create_on others w (λ i p. create_fuel others (length name) w i p ty) id name ty) e
      ∙ create-plain w id d name (λ i p. create_fuel others (length name) w i p ty) ty h

  pub remove-name :
      is_plain name ≡ true
      → w.nodes id ≡ ram_dir d
      → remove others w id name ≡ some (remove_node w id d name)
  unfolding remove_fuel
  remove-name h e =
      ap (remove_on others w (remove_fuel others (length name) w) id name) e
      ∙ remove-plain w id d name (remove_fuel others (length name) w) h

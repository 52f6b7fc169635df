-- ===== src/FlattenObjects/Free.antt =====
-- Taking out and replacing objects: `remove` and `get_mut` of crates/flatten_objects/src/lib.rs.
use chenlongos.Prelude.{
  ℕ, ◌+◌, ◌-◌, ◌≤◌, ◌<◌, ◌≡◌, refl, ◌∙◌, ◌≢◌, sym, inl, inr, true, false, ◌&&◌, none, some, arith,
  ltb, if◌then◌else◌, ◌>>=◌, Bool-cases, ltb→lt, get_or, get_or-set_self, get_or-set_ne,
  get_elem?-eq-get_or, set, ℕ_discrete,
}
use mathlib.Core.Option
use chenlongos.FlattenObjects.Bitmap.{BitmapOps, BitmapLaws, size}
use chenlongos.FlattenObjects.Counting.{assigned_below-set, get-set_self, get-set_ne}
use chenlongos.FlattenObjects.{FlattenObjects, remove, get_mut}
use chenlongos.FlattenObjects.Ids.{view, IsValid}

module _ {ℓ} {B : BitmapOps} {T : Type ℓ} where
  -- An object that is seen under an ID stands in the table, and the ID is marked.
  seen :
      (t : FlattenObjects B T) (id : ℕ) {x : T}
      → view t id ≡ some x
      → (ltb id t.cap ≡ true) × (B.get t.id_bitmap id ≡ true) × (get_or t.objects id none ≡ some x)
  seen t id h = ground arith

  -- A table after the object of an ID was taken out.
  pub record Removed (t : FlattenObjects B T) (id : ℕ) (t' : FlattenObjects B T) : Type ℓ where
    pub valid : IsValid t'
    pub gone : view t' id ≡ none
    pub elsewhere : (j : ℕ) → j ≢ id → view t' j ≡ view t j
    pub fewer : t'.count + 1 ≡ t.count
    pub same_cap : t'.cap ≡ t.cap

module _ {ℓ} {B : BitmapOps} {T : Type ℓ} (L : BitmapLaws B) where
  bit-set_ne :
      (t : FlattenObjects B T) (id j : ℕ)
      → t.cap ≤ size
      → id < t.cap
      → j ≢ id
      → (if ltb j t.cap && B.get (B.set t.id_bitmap id false) j
          then get_or t.objects j none
          else none)
        ≡ view t j
  bit-set_ne t id j h k ne = elim (Bool-cases (ltb j t.cap)) [
    | inl e ↦
        rw
          (get-set_ne L t.id_bitmap id j false (omega arith) (omega (arith, ltb→lt j t.cap e))
            (omega arith))
          refl
    | inr e ↦ rw e refl
  ]

  freed-Removed :
      (t : FlattenObjects B T) (id : ℕ)
      → IsValid t
      → id < t.cap
      → B.get t.id_bitmap id ≡ true
      → Removed t id (record t { id_bitmap = B.set t.id_bitmap id false; count = t.count - 1 })
  freed-Removed t id v h marked =
      let n = rw marked at (assigned_below-set L t.cap id t.id_bitmap false h v.small) in
      record {
        valid = record {
          small = v.small;
          storage = v.storage;
          initialised = λ j p q. elim (ℕ_discrete j id) [
            | yes e ↦ cc (rw e at q, get-set_self L t.id_bitmap id false (omega arith))
            | no ne ↦ v.initialised j p (
                rw (get-set_ne L t.id_bitmap id j false (omega arith) (omega arith) (omega arith))
                  at q)
          ];
          counted = omega (arith, v.counted, n);
        };
        gone = rw (get-set_self L t.id_bitmap id false (omega arith)) (ground arith);
        elsewhere = λ j ne. bit-set_ne t id j v.small h ne;
        fewer = omega (arith, v.counted, n);
        same_cap = refl;
      }

  -- `remove` gives back the object of an assigned ID and frees the ID; nothing else changes, and
  -- the count, which was positive, falls by one. Under any other ID it returns nothing and changes
  -- nothing. It never panics on a valid table.
  pub remove_lem :
      (t : FlattenObjects B T) (id : ℕ)
      → IsValid t
      → ((x : T)
          → view t id ≡ some x
          → (t' : FlattenObjects B T) × (remove t id ≡ some (t', some x)) × Removed t id t')
        × (view t id ≡ none → remove t id ≡ some (t, none))
  unfolding remove
  remove_lem t id v = (
    λ x h.
        let (in_range, marked, at) = seen t id h in
        (
          record t { id_bitmap = B.set t.id_bitmap id false; count = t.count - 1 },
          rw
              (
                in_range,
                marked,
                get_elem?-eq-get_or t.objects id none
                    (omega (arith, v.storage, ltb→lt id t.cap in_range)),
                at,
                ◌>>=◌,
                Option.map,
              )
              refl,
          freed-Removed t id v (ltb→lt id t.cap in_range) marked,
        ),
    λ h. elim (Bool-cases (ltb id t.cap && B.get t.id_bitmap id)) [
      | inl e ↦
          let (x, at) = v.initialised id (ltb→lt id t.cap (ground arith)) (ground arith) in
          let found : view t id ≡ some x = rw e at in cc (sym h ∙ found)
      | inr e ↦ rw e refl
    ],
  )

  -- Through the reference that `get_mut` of a valid table gives for an assigned ID, the object of
  -- that ID is replaced and nothing else; for any other ID there is no reference.
  pub get_mut_lem :
      (t : FlattenObjects B T) (id : ℕ)
      → IsValid t
      → ((x : T)
          → view t id ≡ some x
          → (put : T → FlattenObjects B T) × (get_mut t id ≡ some (some (x, put)))
            × ((y : T)
                → (view (put y) id ≡ some y) × ((j : ℕ) → j ≢ id → view (put y) j ≡ view t j)))
        × (view t id ≡ none → get_mut t id ≡ some none)
  unfolding get_mut
  get_mut_lem t id v = (
    λ x h.
        let (in_range, marked, at) = seen t id h in
        (
          λ y. record t { objects = set t.objects id (some y) },
          rw
              (
                in_range,
                marked,
                get_elem?-eq-get_or t.objects id none
                    (omega (arith, v.storage, ltb→lt id t.cap in_range)),
                at,
                ◌>>=◌,
                Option.map,
              )
              refl,
          λ y. (
            rw
                (
                  in_range,
                  marked,
                  get_or-set_self t.objects id (some y) none
                      (omega (arith, v.storage, ltb→lt id t.cap in_range)),
                )
                refl,
            λ j ne.
                rw (get_or-set_ne t.objects {i = id} {j = j} (some y) none (λ e. ne (sym e))) refl,
          ),
        ),
    λ h. elim (Bool-cases (ltb id t.cap && B.get t.id_bitmap id)) [
      | inl e ↦
          let (x, at) = v.initialised id (ltb→lt id t.cap (ground arith)) (ground arith) in
          let found : view t id ≡ some x = rw e at in cc (sym h ∙ found)
      | inr e ↦ rw e refl
    ],
  )

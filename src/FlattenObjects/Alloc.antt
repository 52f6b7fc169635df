-- ===== src/FlattenObjects/Alloc.antt =====
-- Adding objects: `add`, `add_at` and `new` of crates/flatten_objects/src/lib.rs.
use chenlongos.Prelude.{
  if-true, subst, ◌+◌, set, ℕ, zero, suc, ◌≤◌, ◌<◌, ◌≡◌, refl, ◌∙◌, ◌≢◌, sym, inl, inr, true, false,
  ◌&&◌, Option, none, some, arith, ltb, Bool-cases, Option-cases, lt→ltb, ltb→lt, ltb-false→le,
  replicate, get_or-replicate, length-replicate,
}
use chenlongos.FlattenObjects.Bitmap.{BitmapOps, BitmapLaws, size}
use chenlongos.FlattenObjects.Counting.{assigned_below_all, assigned_below}
use chenlongos.FlattenObjects.{FlattenObjects, assign, add, add_at, new}
use chenlongos.FlattenObjects.Ids.{view, IsValid, Assigned, assign-Assigned}

module _ {ℓ} {B : BitmapOps} {T : Type ℓ} where
  -- A marked ID has an object.
  view_of_marked :
      (t : FlattenObjects B T) (j : ℕ)
      → IsValid t
      → j < t.cap
      → B.get t.id_bitmap j ≡ true
      → view t j ≢ none
  view_of_marked t j v h e missing =
      let (x, at) = v.initialised j h e in
      let seen : view t j ≡ some x = rw (lt→ltb j t.cap h, e) at in cc (sym seen ∙ missing)

  unmarked_of_view :
      (t : FlattenObjects B T) (id : ℕ)
      → IsValid t
      → id < t.cap
      → view t id ≡ none
      → B.get t.id_bitmap id ≡ false
  unmarked_of_view t id v h free = elim (Bool-cases (B.get t.id_bitmap id)) [
    | inl e ↦ absurd (view_of_marked t id v h e free)
    | inr e ↦ e
  ]

  -- The outcome of `add`: the object stands under an ID, or the table is full.
  pub data Added (t : FlattenObjects B T) (value : T) : Type ℓ where
    under :
        (id : ℕ) (t' : FlattenObjects B T)
        → add t value ≡ some (t', some id)
        → id < t.cap
        → view t id ≡ none
        → ((j : ℕ) → j < id → view t j ≢ none)
        → Assigned t id value t'
        → Added t value
    table_full :
        add t value ≡ some (t, none)
        → ((j : ℕ) → j < t.cap → view t j ≢ none)
        → t.count ≡ t.cap
        → Added t value

assigned_below-zeroed :
    {B : BitmapOps} (L : BitmapLaws B) (n : ℕ) → n ≤ size → assigned_below B n B.zeroed ≡ 0
assigned_below-zeroed L zero h = refl
assigned_below-zeroed {B} L (suc n) h =
    rw (L.get-zeroed n h, assigned_below-zeroed L n (omega arith)) (omega arith)

module _ {ℓ} {B : BitmapOps} {T : Type ℓ} (L : BitmapLaws B) where
  full :
      (t : FlattenObjects B T) (value : T)
      → IsValid t
      → add t value ≡ some (t, none)
      → ((j : ℕ) → j < t.cap → B.get t.id_bitmap j ≡ true)
      → Added t value
  full t value v e all =
      table_full e (λ j h. view_of_marked t j v h (all j h))
        (v.counted ∙ assigned_below_all B t.cap t.id_bitmap all)

  -- On a valid table `add` does not panic. It puts the object under the smallest free ID and
  -- changes no other, or, if every ID below the capacity is taken, returns nothing and changes
  -- nothing.
  pub add_lem : (t : FlattenObjects B T) (value : T) → IsValid t → Added t value
  unfolding add
  add_lem t value v = elim (Option-cases (B.first_false_index t.id_bitmap)) [
    | inl e ↦ full t value v (rw (e, add) refl) (λ j h. L.first_none t.id_bitmap e j (omega arith))
    | inr (id, e) ↦
        let (below, free, least) = L.first_some t.id_bitmap id e in
        elim (Bool-cases (ltb id t.cap)) [
          | inl in_range ↦
              let (t', runs, done) =
                assign-Assigned L t id value v (ltb→lt id t.cap in_range) free in
              under id t' (rw (e, add, in_range, runs) refl) (ltb→lt id t.cap in_range)
                (rw (in_range, free) refl)
                (λ j h. view_of_marked t j v (omega (arith, ltb→lt id t.cap in_range)) (least j h))
                done
          | inr out ↦
              full t value v (rw (e, add, out) refl)
                (λ j h. least j (omega (arith, ltb-false→le id t.cap out)))
        ]
  ]

  assign-panics :
      (t : FlattenObjects B T) (id : ℕ) (value : T) → t.cap ≤ id → assign t id value ≡ none
  unfolding assign
  assign-panics t id value h = ground arith

  -- `add_at` of a valid table puts the object under the given ID if that is free, and leaves the
  -- table alone if it is taken. An ID at or above the capacity is not refused: the call panics.
  pub add_at_lem :
      (t : FlattenObjects B T) (id : ℕ) (value : T)
      → IsValid t
      → (id < t.cap
          → view t id ≡ none
          → (t' : FlattenObjects B T) × (add_at t id value ≡ some (t', some id))
            × Assigned t id value t')
        × (view t id ≢ none → add_at t id value ≡ some (t, none))
        × (t.cap ≤ id → add_at t id value ≡ none)
  unfolding add_at
  add_at_lem t id value v = (
    λ h free.
        let unmarked = unmarked_of_view t id v h free in
        let (t', runs, done) = assign-Assigned L t id value v h unmarked in
        (t', rw (lt→ltb id t.cap h, unmarked, runs) refl, done),
    λ taken. elim (Bool-cases (ltb id t.cap && B.get t.id_bitmap id)) [
      | inl e ↦ rw e refl
      | inr e ↦ absurd (taken (rw e refl))
    ],
    λ h. ground (arith, assign-panics t id value h),
  )

  abbrev pub fresh : ℕ → FlattenObjects B T
  fresh capacity = record {
    cap = capacity;
    objects = replicate capacity none;
    id_bitmap = B.zeroed;
    count = 0;
  }

  pub fresh-IsValid : (capacity : ℕ) → capacity ≤ size → IsValid (fresh capacity)
  fresh-IsValid capacity h = record {
    small = h;
    storage = length-replicate {A = Option T} capacity none;
    initialised = λ id p q. cc (L.get-zeroed id (omega arith));
    counted = sym (assigned_below-zeroed L capacity h);
  }

  -- What `assign` leaves.
  abbrev pub assigned : FlattenObjects B T → ℕ → T → FlattenObjects B T
  assigned t id value = record t {
    objects = set t.objects id (some value);
    id_bitmap = B.set t.id_bitmap id true;
    count = t.count + 1;
  }

  pub assigned-IsValid :
      (t : FlattenObjects B T) (id : ℕ) (value : T)
      → IsValid t
      → id < t.cap
      → B.get t.id_bitmap id ≡ false
      → IsValid (assigned t id value)
  unfolding assign
  assigned-IsValid t id value v h free =
      let (t', runs, a) = assign-Assigned L t id value v h free in
      let made : some (assigned t id value) ≡ some t' =
        sym (if-true _ none (lt→ltb id t.cap h)) ∙ runs in
      let same : t' ≡ assigned t id value = cc made in subst IsValid same a.valid

  -- A freshly made table is valid and empty; a capacity above 1024 is refused by a panic.
  pub new_lem :
      (capacity : ℕ)
      → (capacity ≤ size
          → (t : FlattenObjects B T) × (new B T capacity ≡ some t)
            × IsValid t
            × (t.count ≡ 0)
            × ((j : ℕ) → view t j ≡ none))
        × (size < capacity → new B T capacity ≡ none)
  unfolding new
  new_lem capacity = (
    λ h. (
      fresh capacity,
      ground arith,
      fresh-IsValid capacity h,
      refl,
      λ j. ground (arith, get_or-replicate {A = Option T} capacity j none),
    ),
    λ h. ground arith,
  )

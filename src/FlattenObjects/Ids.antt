-- ===== src/FlattenObjects/Ids.antt =====
-- The table of `FlattenObjects` as a map from IDs to objects.
use chenlongos.Prelude.{
  ℕ, ◌+◌, ◌≤◌, ◌<◌, ◌≡◌, refl, ◌∙◌, ◌≢◌, inl, inr, Bool, true, false, ◌&&◌, Option, none, some,
  length, get_or, set, arith, ltb, if◌then◌else◌, ◌>>=◌, Bool-cases, length-set,
  get_elem?-eq-get_or, get_or-set_self, get_or-set_ne, ℕ_discrete as dec_eq, lt→ltb, ltb→lt,
}
use mathlib.Core.Option
use chenlongos.FlattenObjects.Bitmap.{BitmapOps, BitmapLaws, size}
use chenlongos.FlattenObjects.Counting.{
  assigned_below, assigned_below-set, get-set_self, get-set_ne,
}
use chenlongos.FlattenObjects.{FlattenObjects, get, assign}

module _ {ℓ} {B : BitmapOps} {T : Type ℓ} where
  -- The object under an ID, if the ID is assigned.
  abbrev pub view : FlattenObjects B T → ℕ → Option T
  view t id = if ltb id t.cap && B.get t.id_bitmap id then get_or t.objects id none else none

  pub record IsValid (t : FlattenObjects B T) : Type ℓ where
    pub small : t.cap ≤ size
    pub storage : length t.objects ≡ t.cap
    pub initialised :
        (id : ℕ)
        → id < t.cap
        → B.get t.id_bitmap id ≡ true
        → (v : T) × (get_or t.objects id none ≡ some v)
    pub counted : t.count ≡ assigned_below B t.cap t.id_bitmap

  -- On a valid table `get` never reads an uninitialised object: it returns the object of an
  -- assigned ID, and nothing for any other.
  pub get_lem : (t : FlattenObjects B T) (id : ℕ) → IsValid t → get t id ≡ some (view t id)
  unfolding get
  get_lem t id v = elim (Bool-cases (ltb id t.cap && B.get t.id_bitmap id)) [
    | inl e ↦
        let in_range : id < t.cap = ground arith in
        let (x, at) = v.initialised id in_range (ground arith) in
        rw (e, get_elem?-eq-get_or t.objects id none (omega arith), at, ◌>>=◌, Option.map) refl
    | inr e ↦ rw e refl
  ]

  -- A table after an object was put under a free ID.
  pub record Assigned (t : FlattenObjects B T) (id : ℕ) (value : T) (t' : FlattenObjects B T)
      : Type ℓ where
    pub valid : IsValid t'
    pub here : view t' id ≡ some value
    pub elsewhere : (j : ℕ) → j ≢ id → view t' j ≡ view t j
    pub more : t'.count ≡ t.count + 1
    pub same_cap : t'.cap ≡ t.cap

module _ {ℓ} {B : BitmapOps} {T : Type ℓ} (L : BitmapLaws B) where
  -- Neither a write to one object nor to one bit is seen under another ID.
  view-set_ne :
      (t : FlattenObjects B T) (id j : ℕ) (o : Option T) (b : Bool)
      → t.cap ≤ size
      → id < t.cap
      → j ≢ id
      → (if ltb j t.cap && B.get (B.set t.id_bitmap id b) j
          then get_or (set t.objects id o) j none
          else none)
        ≡ view t j
  view-set_ne t id j o b h k ne = elim (Bool-cases (ltb j t.cap)) [
    | inl e ↦
        rw
          (
            get-set_ne L t.id_bitmap id j b (omega arith) (omega (arith, ltb→lt j t.cap e))
                (omega arith),
            get_or-set_ne t.objects {i = id} {j = j} o none (omega arith),
          )
          refl
    | inr e ↦ rw e refl
  ]

  pub assign-Assigned :
      (t : FlattenObjects B T) (id : ℕ) (value : T)
      → IsValid t
      → id < t.cap
      → B.get t.id_bitmap id ≡ false
      → (t' : FlattenObjects B T) × (assign t id value ≡ some t') × Assigned t id value t'
  unfolding assign
  assign-Assigned t id value v h free = (
    record t {
      objects = set t.objects id (some value);
      id_bitmap = B.set t.id_bitmap id true;
      count = t.count + 1;
    },
    rw (lt→ltb id t.cap h) refl,
    record {
      valid = record {
        small = v.small;
        storage = length-set t.objects id (some value) ∙ v.storage;
        initialised = λ j p q. elim (dec_eq j id) [
          | yes e ↦ (value, rw e (get_or-set_self t.objects id (some value) none (omega arith)))
          | no ne ↦
              let (x, at) = v.initialised j p (
                rw (get-set_ne L t.id_bitmap id j true (omega arith) (omega arith) (omega arith)) at
                  q) in
              (x, get_or-set_ne t.objects (some value) none (omega arith) ∙ at)
        ];
        counted =
            let n = assigned_below-set L t.cap id t.id_bitmap true h v.small in
            omega (arith, v.counted, rw free at n);
      };
      here =
          rw
            (
              lt→ltb id t.cap h,
              get-set_self L t.id_bitmap id true (omega arith),
              get_or-set_self t.objects id (some value) none (omega arith),
            )
            refl;
      elsewhere = λ j ne. view-set_ne t id j (some value) true v.small h ne;
      more = refl;
      same_cap = refl;
    },
  )

-- ===== src/FlattenObjects.antt =====
-- Numbered objects, crates/flatten_objects/src/lib.rs.
-- The outer `none` of an operation is a panic or a read of an object that was never written.
pub mod Bitmap
mod Counting
pub mod Ids
pub mod Alloc
pub mod Free
mod Tests
use chenlongos.Prelude.{
  ℕ, ◌+◌, ◌-◌, Bool, true, false, ◌&&◌, Option, none, some, List, get_elem?, set, replicate, ltb,
  leb, if◌then◌else◌, ◌>>=◌,
}
use mathlib.Core.Option
use Bitmap.{BitmapOps, size}

-- `cap` is the constant parameter `CAP`; an object is `none` while it is uninitialised.
pub record FlattenObjects {ℓ} (B : BitmapOps) (T : Type ℓ) : Type ℓ where
  pub cap : ℕ
  pub objects : List (Option T)
  pub id_bitmap : B.Bitmap
  pub count : ℕ

pub new {ℓ} : (B : BitmapOps) (T : Type ℓ) → ℕ → Option (FlattenObjects B T)
new B T cap =
    if leb cap size
    then some (record { cap = cap; objects = replicate cap none; id_bitmap = B.zeroed; count = 0 })
    else none

module _ {ℓ} {B : BitmapOps} {T : Type ℓ} where
  pub is_assigned : FlattenObjects B T → ℕ → Bool
  is_assigned t id = ltb id t.cap && B.get t.id_bitmap id

  pub get : FlattenObjects B T → ℕ → Option (Option T)
  unfolding is_assigned
  get t id = if is_assigned t id then get_elem? t.objects id >>= Option.map some else some none

  -- The value, with what an assignment through the reference leaves behind.
  pub get_mut : FlattenObjects B T → ℕ → Option (Option (T × (T → FlattenObjects B T)))
  unfolding is_assigned
  get_mut t id =
      let write = λ (v : T).
        let t' : FlattenObjects B T = record t { objects = set t.objects id (some v) } in t' in
      if is_assigned t id
      then get_elem? t.objects id >>= Option.map (λ v. some (v, write))
      else some none

  -- `self.count += 1`, `self.id_bitmap.set(id, true)`, `self.objects[id].write(value)`.
  pub assign : FlattenObjects B T → ℕ → T → Option (FlattenObjects B T)
  assign t id value =
      if ltb id t.cap
      then some (record t {
        objects = set t.objects id (some value);
        id_bitmap = B.set t.id_bitmap id true;
        count = t.count + 1;
      })
      else none

  pub add : FlattenObjects B T → T → Option (FlattenObjects B T × Option ℕ)
  add t value = elim (B.first_false_index t.id_bitmap) [
    | none ↦ some (t, none)
    | some id ↦
        let added = assign t id value >>= λ t'. some (t', some id) in
        if ltb id t.cap then added else some (t, none)
  ]

  pub add_at : FlattenObjects B T → ℕ → T → Option (FlattenObjects B T × Option ℕ)
  unfolding is_assigned
  add_at t id value =
      if is_assigned t id then some (t, none) else assign t id value >>= λ t'. some (t', some id)

  pub remove : FlattenObjects B T → ℕ → Option (FlattenObjects B T × Option T)
  unfolding is_assigned
  remove t id =
      let freed : FlattenObjects B T = record t {
        id_bitmap = B.set t.id_bitmap id false;
        count = t.count - 1;
      } in
      if is_assigned t id
      then get_elem? t.objects id >>= Option.map (λ v. (freed, some v))
      else some (t, none)

-- ===== src/Pages/Allocation.antt =====
-- What allocating and freeing pages does to the pages.
use chenlongos.Prelude.{
  ℕ, suc, ◌+◌, ◌-◌, ◌*◌, ◌/◌, ◌%◌, ◌^◌, ◌≡◌, ◌<◌, refl, ap, ◌∙◌, Bool, true, false, ◌==◌,
  if◌then◌else◌, mod-eq_of_lt, arith,
}
use native.Mathlib.Nat.{mul-div_cancel}
use chenlongos.Addr.{wrapping_add, wrapping_sub}
use chenlongos.Pages.Bits.{BitAlloc, BitAllocLaws, capacity, in_run}
use chenlongos.Pages.{AllocResult, ok, err, BitmapPageAllocator, address, dealloc_pages}

module _ (B : BitAlloc) (a : BitmapPageAllocator B) (num : ℕ) where
  abbrev pub page_free : BitmapPageAllocator B → ℕ → Bool
  page_free c j = B.is_free c.inner j

  -- A run of pages that were free is taken, and nothing else changes; or nothing does.
  abbrev pub Allocated : BitmapPageAllocator B × AllocResult ℕ → Type 0
  Allocated (c, err e) = c ≡ a
  Allocated (c, ok pos) =
      (idx : ℕ) × (pos ≡ address B a idx)
      × ((j : ℕ) → in_run idx num j ≡ true → page_free a j ≡ true)
      × ((j : ℕ) → page_free c j ≡ (if in_run idx num j then false else page_free a j))
      × (c.used_pages ≡ wrapping_add a.used_pages num)
      × (c.base ≡ a.base)
      × (c.page_size ≡ a.page_size)

module _ (B : BitAlloc) (L : BitAllocLaws B) (a : BitmapPageAllocator B) where
  index_of_address :
      (idx : ℕ)
      → 0 < a.page_size
      → (idx * a.page_size + a.base) < 2 ^ 64
      → wrapping_sub (address B a idx) a.base / a.page_size ≡ idx
  index_of_address idx positive fits =
      let low : (idx * a.page_size + a.base) % 2 ^ 64 ≡ idx * a.page_size + a.base =
        mod-eq_of_lt fits in
      let wraps : ((idx * a.page_size + a.base) % 2 ^ 64 + 2 ^ 64 - a.base) % 2 ^ 64
          ≡ (idx * a.page_size + 2 ^ 64) % 2 ^ 64 =
        ap (λ x. x % 2 ^ 64) (omega (arith, low)) in
      let back : (idx * a.page_size + 2 ^ 64) % 2 ^ 64 ≡ idx * a.page_size = omega (arith, fits) in
      ap (λ x. x / a.page_size) (wraps ∙ back) ∙ mul-div_cancel idx positive

  -- Giving back a run of pages frees its first page only: when all of the run was in use, every
  -- other page stays as it was, although the count falls by the number of pages given back.
  pub dealloc_frees_one :
      (idx num : ℕ)
      → idx < capacity
      → 0 < a.page_size
      → (idx * a.page_size + a.base) < 2 ^ 64
      → ((j : ℕ) → in_run idx (suc num) j ≡ true → B.is_free a.inner j ≡ false)
      → ((j : ℕ)
          → B.is_free (dealloc_pages B a (address B a idx) (suc num)).inner j
            ≡ (if j == idx then true else B.is_free a.inner j))
        × ((dealloc_pages B a (address B a idx) (suc num)).used_pages
            ≡ wrapping_sub a.used_pages (suc num))
  unfolding dealloc_pages
  dealloc_frees_one idx num inside positive fits used = (
    (λ j.
        ap (λ i. B.is_free (B.dealloc a.inner i) j) (index_of_address idx positive fits)
        ∙ L.free-dealloc a.inner idx j inside (used idx (ground arith))),
    refl,
  )

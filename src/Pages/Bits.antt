-- ===== src/Pages/Bits.antt =====
-- What the allocator of pages uses of the third-party crate bitmap_allocator, with the behaviour
-- that its documentation gives: a set of bits, in which a one stands for a free page.
use chenlongos.Prelude.{
  ℕ, ◌+◌, ◌^◌, ◌%◌, ◌≡◌, ◌<◌, ◌≤◌, Bool, true, false, ◌&&◌, ◌||◌, Option, some, ltb, leb, ◌==◌,
  if◌then◌else◌,
}

pub record BitAlloc : Type 1 where
  pub Bits : Type 0
  pub is_free : Bits → ℕ → Bool
  pub default : Bits
  pub insert : Bits → ℕ → ℕ → Bits
  pub alloc : Bits → Option (ℕ × Bits)
  pub alloc_contiguous : Bits → ℕ → ℕ → Option (ℕ × Bits)
  pub dealloc : Bits → ℕ → Bits

-- The bits of a `BitAlloc1M`.
abbrev pub capacity : ℕ
capacity = 1048576

-- A number from `i` to below `i + n`.
abbrev pub in_run : ℕ → ℕ → ℕ → Bool
in_run i n j = leb i j && ltb j (i + n)

pub record BitAllocLaws (B : BitAlloc) : Type 0 where
  pub free-default : (j : ℕ) → B.is_free B.default j ≡ false
  pub free-insert :
      (b : B.Bits) (n j : ℕ)
      → n ≤ capacity
      → B.is_free (B.insert b 0 n) j ≡ (ltb j n || B.is_free b j)
  pub alloc-some :
      (b : B.Bits) (i : ℕ) (b' : B.Bits)
      → B.alloc b ≡ some (i, b')
      → (B.is_free b i ≡ true)
        × ((j : ℕ) → B.is_free b' j ≡ (if in_run i 1 j then false else B.is_free b j))
  pub contiguous-some :
      (b : B.Bits) (n align_log2 i : ℕ) (b' : B.Bits)
      → B.alloc_contiguous b n align_log2 ≡ some (i, b')
      → (i % 2 ^ align_log2 ≡ 0)
        × ((j : ℕ) → in_run i n j ≡ true → B.is_free b j ≡ true)
        × ((j : ℕ) → B.is_free b' j ≡ (if in_run i n j then false else B.is_free b j))
  pub free-dealloc :
      (b : B.Bits) (i j : ℕ)
      → i < capacity
      → B.is_free b i ≡ false
      → B.is_free (B.dealloc b i) j ≡ (if j == i then true else B.is_free b j)

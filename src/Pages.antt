-- ===== src/Pages.antt =====
-- The allocator of pages, crates/allocator/src/bitmap.rs with the helpers of lib.rs, over the
-- third-party crate bitmap_allocator. A `usize` wraps round; `none` is a failed assertion.
pub mod Bits
pub mod Allocation
mod Tests
use Prim.Native.Nat.{bit_and}
use chenlongos.Prelude.{
  ℕ, zero, suc, ◌+◌, ◌-◌, ◌*◌, ◌/◌, ◌%◌, ◌^◌, Bool, true, false, not, ◌&&◌, Option, none, some, ltb,
  ◌==◌, if◌then◌else◌,
}
use chenlongos.Addr.{bit_not, wrapping_add, wrapping_sub}
use chenlongos.Pages.Bits.{BitAlloc}

pub data AllocError : Type 0 where
  invalid_param memory_overlap no_memory not_allocated : AllocError

pub data AllocResult (A : Type 0) : Type 0 where
  ok : A → AllocResult A
  err : AllocError → AllocResult A

abbrev pub align_down : ℕ → ℕ → ℕ
align_down pos align = bit_and pos (bit_not (wrapping_sub align 1))

abbrev pub align_up : ℕ → ℕ → ℕ
align_up pos align =
    bit_and (wrapping_sub (wrapping_add pos align) 1) (bit_not (wrapping_sub align 1))

-- `usize::is_power_of_two` and `trailing_zeros`, of 64 bits.
abbrev pub is_power_of_two : ℕ → Bool
is_power_of_two n = not (n == 0) && (bit_and n (n - 1) == 0)

abbrev pub trailing_zeros : ℕ → ℕ → ℕ
trailing_zeros zero n = 0
trailing_zeros (suc bits) n =
    let rest = trailing_zeros bits (n / 2) in if n % 2 == 0 then suc rest else 0

module _ (B : BitAlloc) where
  pub record BitmapPageAllocator : Type 0 where
    pub page_size : ℕ
    pub base : ℕ
    pub total_pages : ℕ
    pub used_pages : ℕ
    pub inner : B.Bits

  abbrev pub new : ℕ → BitmapPageAllocator
  new page_size = record {
    page_size = page_size;
    base = 0;
    total_pages = 0;
    used_pages = 0;
    inner = B.default;
  }

  unfoldable pub init : BitmapPageAllocator → ℕ → ℕ → Option BitmapPageAllocator
  init a start size =
      let end = align_down (wrapping_add start size) a.page_size in
      let first = align_up start a.page_size in
      let pages = wrapping_sub end first / a.page_size in
      if is_power_of_two a.page_size
      then some (record {
        page_size = a.page_size;
        base = first;
        total_pages = pages;
        used_pages = a.used_pages;
        inner = B.insert a.inner 0 pages;
      })
      else none

  abbrev pub add_memory : BitmapPageAllocator → ℕ → ℕ → AllocResult (Unit {0})
  add_memory a start size = err no_memory

  abbrev pub with_inner : BitmapPageAllocator → ℕ → B.Bits → BitmapPageAllocator
  with_inner a used bits = record {
    page_size = a.page_size;
    base = a.base;
    total_pages = a.total_pages;
    used_pages = used;
    inner = bits;
  }

  abbrev pub address : BitmapPageAllocator → ℕ → ℕ
  address a idx = (idx * a.page_size + a.base) % 2 ^ 64

  -- What the bitmap found, as an address.
  abbrev pub found :
      BitmapPageAllocator → ℕ → Option (ℕ × B.Bits) → BitmapPageAllocator × AllocResult ℕ
  found a num none = (a, err no_memory)
  found a num (some (idx, bits)) =
      (with_inner a (wrapping_add a.used_pages num) bits, ok (address a idx))

  abbrev pub alloc_with : BitmapPageAllocator → ℕ → ℕ → BitmapPageAllocator × AllocResult ℕ
  alloc_with a zero align_log2 = (a, err invalid_param)
  alloc_with a (suc zero) align_log2 = found a 1 (B.alloc a.inner)
  alloc_with a (suc (suc n)) align_log2 =
      found a (suc (suc n)) (B.alloc_contiguous a.inner (suc (suc n)) align_log2)

  unfoldable pub alloc_pages : BitmapPageAllocator → ℕ → ℕ → BitmapPageAllocator × AllocResult ℕ
  alloc_pages a num align_pow2 =
      let align = align_pow2 / a.page_size in
      if not (align_pow2 % a.page_size == 0)
      then (a, err invalid_param)
      else (if not (is_power_of_two align)
          then (a, err invalid_param)
          else alloc_with a num (trailing_zeros 64 align))

  unfoldable pub dealloc_pages : BitmapPageAllocator → ℕ → ℕ → BitmapPageAllocator
  dealloc_pages a pos num =
      with_inner a (wrapping_sub a.used_pages num)
        (B.dealloc a.inner (wrapping_sub pos a.base / a.page_size))

  abbrev pub available_pages : BitmapPageAllocator → ℕ
  available_pages a = wrapping_sub a.total_pages a.used_pages

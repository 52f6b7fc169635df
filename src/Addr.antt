-- ===== src/Addr.antt =====
-- Addresses and their alignment, crates/memory_addr/src/lib.rs. A `usize` is a number below 2 ^ 64,
-- and sums and differences wrap round.
pub mod Align
mod Tests
use chenlongos.Prelude.{ℕ, ◌+◌, ◌-◌, ◌%◌, ◌^◌, Bool, ◌==◌}
use Prim.Native.Nat.{bit_and}

abbrev pub page_size_4k : ℕ
page_size_4k = 4096

-- `!x`, `x + y` and `x - y` of `usize`
abbrev pub bit_not : ℕ → ℕ
bit_not x = 2 ^ 64 - 1 - x

abbrev pub wrapping_add : ℕ → ℕ → ℕ
wrapping_add x y = (x + y) % 2 ^ 64

abbrev pub wrapping_sub : ℕ → ℕ → ℕ
wrapping_sub x y = (x + 2 ^ 64 - y) % 2 ^ 64

unfoldable pub align_down : ℕ → ℕ → ℕ
align_down addr align = bit_and addr (bit_not (wrapping_sub align 1))

unfoldable pub align_up : ℕ → ℕ → ℕ
align_up addr align =
    bit_and (wrapping_sub (wrapping_add addr align) 1) (bit_not (wrapping_sub align 1))

unfoldable pub align_offset : ℕ → ℕ → ℕ
align_offset addr align = bit_and addr (wrapping_sub align 1)

abbrev pub is_aligned : ℕ → ℕ → Bool
is_aligned addr align = align_offset addr align == 0

abbrev pub align_down_4k : ℕ → ℕ
align_down_4k addr = align_down addr page_size_4k

abbrev pub align_up_4k : ℕ → ℕ
align_up_4k addr = align_up addr page_size_4k

abbrev pub align_offset_4k : ℕ → ℕ
align_offset_4k addr = align_offset addr page_size_4k

abbrev pub is_aligned_4k : ℕ → Bool
is_aligned_4k addr = is_aligned addr page_size_4k

-- `PhysAddr` and `VirtAddr` are one number each.
pub record PhysAddr : Type 0 where
  pub phys : ℕ

pub record VirtAddr : Type 0 where
  pub virt : ℕ

abbrev pub phys_align_down : PhysAddr → ℕ → PhysAddr
phys_align_down a align = record { phys = align_down a.phys align }

abbrev pub phys_align_up : PhysAddr → ℕ → PhysAddr
phys_align_up a align = record { phys = align_up a.phys align }

abbrev pub phys_align_offset : PhysAddr → ℕ → ℕ
phys_align_offset a align = align_offset a.phys align

abbrev pub phys_is_aligned : PhysAddr → ℕ → Bool
phys_is_aligned a align = is_aligned a.phys align

abbrev pub phys_add : PhysAddr → ℕ → PhysAddr
phys_add a n = record { phys = wrapping_add a.phys n }

abbrev pub phys_sub : PhysAddr → ℕ → PhysAddr
phys_sub a n = record { phys = wrapping_sub a.phys n }

abbrev pub virt_align_down : VirtAddr → ℕ → VirtAddr
virt_align_down a align = record { virt = align_down a.virt align }

abbrev pub virt_align_up : VirtAddr → ℕ → VirtAddr
virt_align_up a align = record { virt = align_up a.virt align }

abbrev pub virt_align_offset : VirtAddr → ℕ → ℕ
virt_align_offset a align = align_offset a.virt align

abbrev pub virt_is_aligned : VirtAddr → ℕ → Bool
virt_is_aligned a align = is_aligned a.virt align

abbrev pub virt_add : VirtAddr → ℕ → VirtAddr
virt_add a n = record { virt = wrapping_add a.virt n }

abbrev pub virt_sub : VirtAddr → ℕ → VirtAddr
virt_sub a n = record { virt = wrapping_sub a.virt n }

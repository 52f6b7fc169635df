-- ===== src/Addr/Tests.antt =====
-- Alignment of concrete addresses.
use chenlongos.Prelude.{◌-◌, ◌≡◌, ◌≤◌, ◌<◌, ◌+◌, ◌%◌, ◌^◌, ◌↔◌, refl, true, arith}
use chenlongos.Addr.{align_down, align_up, align_offset, is_aligned, align_up_4k}
use chenlongos.Addr.Align.{align_down_lem}

page_after : align_up_4k 4097 ≡ 8192
unfolding align_up
page_after = refl

-- In the last page but one byte there is no page to go up to.
last_page : align_up_4k (2 ^ 64 - 2) ≡ 0
unfolding align_up
last_page = refl

align_down_lem_example :
    (align_down 4097 (2 ^ 12) % 2 ^ 12 ≡ 0)
    × (align_down 4097 (2 ^ 12) ≤ 4097)
    × (4097 < align_down 4097 (2 ^ 12) + 2 ^ 12)
    × (align_down 4097 (2 ^ 12) + align_offset 4097 (2 ^ 12) ≡ 4097)
    × ((is_aligned 4097 (2 ^ 12) ≡ true) ↔ (align_down 4097 (2 ^ 12) ≡ 4097))
align_down_lem_example = align_down_lem 12 4097 (omega arith) (omega arith)

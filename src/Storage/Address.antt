-- ===== src/Storage/Address.antt =====
-- The address arithmetic of storage/page.cpp: pages of 2^14 bytes, 2^10 row ids to a page.
use cat_db.Prelude.{ℕ, ◌+◌, ◌*◌, ◌/◌, ◌%◌, ◌^◌, ◌<◌, ◌≡◌, if◌then◌else◌, ltb, arith}

-- `page_offset << 14` on 64 bits; a 32-bit offset does not overflow it.
unfoldable pub get_real_page_offset : ℕ → ℕ
get_real_page_offset page_offset = page_offset * 2 ^ 14 % 2 ^ 64

unfoldable pub get_virtual_page_offset : ℕ → ℕ
get_virtual_page_offset offset =
    let page_offset = offset / 2 ^ 14 in if ltb 0x7FFFFFFF page_offset then 0 else page_offset

unfoldable pub get_page_offset_from_row_id : ℕ → ℕ
get_page_offset_from_row_id row_id = row_id / 2 ^ 10

-- `page_offset << 10` on 32 bits: what does not fit is lost.
unfoldable pub get_beg_row_id_from_page_offset : ℕ → ℕ
get_beg_row_id_from_page_offset page_offset = page_offset * 2 ^ 10 % 2 ^ 32

-- The two conversions of a page's address undo each other, below 2^31 pages.
pub virtual-real :
    (page_offset : ℕ)
    → page_offset < 2 ^ 31
    → get_virtual_page_offset (get_real_page_offset page_offset) ≡ page_offset
unfolding get_virtual_page_offset get_real_page_offset
virtual-real page_offset h = ground arith

-- A row id that is one of the 1024 from the first of a page leads back to the page, and has bit 31
-- clear, below 2^21 pages.
pub page_of_row :
    (page_offset k : ℕ)
    → page_offset < 2 ^ 21
    → k < 2 ^ 10
    → (get_page_offset_from_row_id (get_beg_row_id_from_page_offset page_offset + k) ≡ page_offset)
      × (get_beg_row_id_from_page_offset page_offset + k < 2 ^ 31)
unfolding get_page_offset_from_row_id get_beg_row_id_from_page_offset
page_of_row page_offset k h hk = ground arith

-- ===== src/Storage/IoService.antt =====
-- storage/IoService.h and storage/IoService.cpp: the file of a table, page by page.
-- `file_handle` says whether the handle is not null, `file` what stands in the file and `present`
-- whether there is one. A page's buffer is kept as the page that its bytes make up. `fseek`,
-- `fsetpos` and `fwrite` on an open file succeed, and nobody else writes to it.
use cat_db.Prelude.{
  ℕ, zero, suc, ◌+◌, ◌-◌, ◌*◌, ◌≡◌, ◌≢◌, ◌<◌, ◌≤◌, refl, ap, Bool, true, false, ◌||◌, not, List, [],
  ◌∷◌, if◌then◌else◌, leb, length, get_or, arith,
}
use cat_db.Error.{
  Code, Result, ok, err, success, table_file_not_exists, bad_page_in_file, empty_table_space,
}
use cat_db.Storage.Address.{get_virtual_page_offset}
use cat_db.Storage.Page.{Page, page_size, reset_page}

pub record IoService : Type 0 where
  pub file_handle : Bool
  pub present : Bool
  pub file : List Page

abbrev pub make_io_service : Bool → List Page → IoService
make_io_service present file = record { file_handle = false; present = present; file = file }

-- `creatable` is whether `fopen` with mode `wb+` finds the directory and may write there.
unfoldable pub open_io : Bool → IoService → Code × IoService
open_io creatable io =
    if io.present
    then (success, record io { file_handle = true })
    else if creatable
    then (success, record { file_handle = true; present = true; file = [] })
    else (table_file_not_exists, record io { file_handle = false })

-- 16384 zero bytes, which a write behind the end of the file leaves before it.
unfoldable pub hole : Page
hole = record {
  table_id = 0;
  page_offset = 0;
  page_pre = 0;
  page_next = 0;
  beg_row_id = 0;
  end_row_id = 0;
  row_count = 0;
  free_offset = 0;
  free_size = 0;
  memory = λ i. 0;
  free_space = 0;
  row_info = [];
  row_idx = 0;
  is_dirty = false;
}

-- `fread` of the page at `page_offset` into a new page's buffer, and `reset_page`.
unfoldable pub read_page : IoService → ℕ → Result Page
read_page io page_offset =
    if not io.file_handle
    then err table_file_not_exists
    else if leb (length io.file) page_offset
    then err bad_page_in_file
    else ok (reset_page (record (get_or io.file page_offset hole) { is_dirty = false }))

unfoldable pub write_at : List Page → ℕ → Page → List Page
write_at [] zero p = p ∷ []
write_at [] (suc k) p = hole ∷ write_at [] k p
write_at (q ∷ qs) zero p = p ∷ qs
write_at (q ∷ qs) (suc k) p = q ∷ write_at qs k p

unfoldable pub write_page : IoService → Page → Code × IoService
write_page io p =
    if not io.file_handle
    then (table_file_not_exists, io)
    else (success, record io { file = write_at io.file p.page_offset p })

-- The code and `offset`, which is 0 before the call.
unfoldable pub end_offset : IoService → Code × ℕ
end_offset io =
    if not io.file_handle
    then (table_file_not_exists, 0)
    else if leb page_size (length io.file * page_size)
    then (success, get_virtual_page_offset (length io.file * page_size - page_size))
    else (empty_table_space, 0)

unfoldable pub close_io : IoService → IoService
close_io io = record io { file_handle = false }

unfoldable pub delete_file : IoService → Code × IoService
delete_file io =
    if io.present
    then (success, record io { present = false; file = [] })
    else (table_file_not_exists, io)

-- `fopen` with mode `w` empties the file or makes one, and the handle is closed again.
unfoldable pub clear_file : Bool → IoService → Code × IoService
clear_file creatable io =
    if io.present || creatable
    then (success, record { file_handle = false; present = true; file = [] })
    else (table_file_not_exists, record io { file_handle = false })

unfoldable pub get_file_size : IoService → ℕ
get_file_size io = if io.present then length io.file * page_size else 0

pub length-write_at :
    (f : List Page) (k : ℕ) (p : Page)
    → k ≤ length f
    → (length f ≤ length (write_at f k p))
      × (k < length (write_at f k p))
      × (length (write_at f k p) ≤ length f + 1)
      × (k < length f → length (write_at f k p) ≡ length f)
unfolding write_at
length-write_at [] zero p h = (omega arith, omega arith, omega arith, λ lt. absurd (omega arith))
length-write_at [] (suc k) p h = absurd (omega arith)
length-write_at (q ∷ qs) zero p h = (omega arith, omega arith, omega arith, λ lt. refl)
length-write_at (q ∷ qs) (suc k) p h =
    let (a, b, c, d) = length-write_at qs k p (omega arith) in
    (omega (arith, a), omega (arith, b), omega (arith, c), λ lt. ap suc (d (omega arith)))

pub get_or-write_at_self : (f : List Page) (k : ℕ) (p d : Page) → get_or (write_at f k p) k d ≡ p
unfolding write_at
get_or-write_at_self [] zero p d = refl
get_or-write_at_self [] (suc k) p d = get_or-write_at_self [] k p d
get_or-write_at_self (q ∷ qs) zero p d = refl
get_or-write_at_self (q ∷ qs) (suc k) p d = get_or-write_at_self qs k p d

pub get_or-write_at_ne :
    (f : List Page) (k j : ℕ) (p d : Page)
    → j ≢ k
    → j < length f
    → get_or (write_at f k p) j d ≡ get_or f j d
unfolding write_at
get_or-write_at_ne [] k j p d ne h = absurd (omega arith)
get_or-write_at_ne (q ∷ qs) zero zero p d ne h = absurd (ne refl)
get_or-write_at_ne (q ∷ qs) zero (suc j) p d ne h = refl
get_or-write_at_ne (q ∷ qs) (suc k) zero p d ne h = refl
get_or-write_at_ne (q ∷ qs) (suc k) (suc j) p d ne h =
    get_or-write_at_ne qs k j p d (λ e. ne (ap suc e)) (omega arith)

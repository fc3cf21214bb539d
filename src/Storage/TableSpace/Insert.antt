-- ===== src/Storage/TableSpace/Insert.antt =====
-- `insert_row` of storage/table_space.cpp: on the last page, or on a new one behind it.
use cat_db.Prelude.{
  ℕ, suc, ◌+◌, ◌*◌, ◌^◌, ◌≤◌, ◌<◌, ◌≡◌, refl, ◌∙◌, ap, ◌⊎◌, inl, inr, true, false, List, [], ◌∷◌,
  ◌++◌, some, if◌then◌else◌, length, get_or, set, arith, Bool-cases,
}
use cat_db.Error.{Result, success, ok, code_of}
use cat_db.Object.{ObjectClass}
use cat_db.Row.{Row}
use cat_db.Storage.Address.{get_beg_row_id_from_page_offset}
use cat_db.Storage.Format.{Stored, row_width}
use cat_db.Storage.Page.{Page, make_page, have_free_space_insert, inserted}
use cat_db.Storage.Page
use cat_db.Storage.Page.Contents.{Entry}
use cat_db.Storage.Page.Record.{objects_width}
use cat_db.Storage.Page.Insert.{
  IsStoredRow, insert_row-IsPage, insert_row_page, row_width-objects_width,
}
use cat_db.Storage.PageMap.{find, put, put-put, find-put_self}
use cat_db.Storage.TableSpace.{
  TableSpace, create_page, page_at, insert_into, new_page, insert_last, insert_row,
}
use cat_db.Storage.TableSpace.Held.{IsPageOf, IsSpace, put-IsSpace, append-IsSpace}
use cat_db.Storage.TableSpace.Last.{get_last_page-IsLoaded, get_last_page_empty}

pub page_at-find :
    (ts : TableSpace) (k : ℕ) (p : Page) → find ts.pages k ≡ some p → page_at ts k ≡ p
page_at-find ts k p e = rw (page_at, e) refl

create_page-find :
    (ts : TableSpace) (k : ℕ) → find (create_page ts k).pages k ≡ some (new_page ts k)
unfolding create_page
create_page-find ts k = find-put_self ts.pages k (new_page ts k)

module _ {O : Type 0} ⦃class : ObjectClass O⦄ ⦃stored : Stored O⦄ where
  -- The rows after the new one: in front of the last page's, or alone on a page behind it. Its id says
  -- where it is.
  abbrev pub IsPlaced : List (List (Entry O)) → Entry O → List (List (Entry O)) → Type 0
  IsPlaced ess e ess' =
      ((m : ℕ) × (length ess ≡ suc m)
        × (e.id ≡ m * 1024 + length (get_or ess m []))
        × (ess' ≡ set ess m (e ∷ get_or ess m [])))
      ⊎ ((e.id ≡ length ess * 1024) × (ess' ≡ ess ++ (e ∷ []) ∷ []))

  -- A row with a column takes 12 bytes or more.
  row_width_least : (row : Row O) → IsStoredRow row → 0 < length row.cells → 12 ≤ row_width row
  row_width_least row h some_cell =
      let wide = row_width-objects_width row h in least row.cells some_cell (row_width row) wide
    where
      least :
          (xs : List O)
          → 0 < length xs
          → (w : ℕ) → w ≡ objects_width xs + 4 + length xs * 4
          → 12 ≤ w
      least [] h w e = absurd (omega arith)
      least (x ∷ xs) h w e = omega arith

  pub insert-IsPageOf :
      (table_id k : ℕ) (p : Page) (es : List (Entry O)) (row : Row O)
      → IsPageOf table_id k p es
      → IsStoredRow row
      → 0 < length row.cells
      → have_free_space_insert p row ≡ true
      → k < 2 ^ 21
      → (p' : Page) × (Page.insert_row p row ≡ (ok p.end_row_id, p'))
        × IsPageOf table_id k p'
            (record { id = p.end_row_id; gone = false; cells = row.cells } ∷ es)
        × (p'.is_dirty ≡ true)
        × (p.end_row_id ≡ k * 1024 + length es)
  insert-IsPageOf table_id k p es row h good some_cell room few =
      let page = h.is_page in
      let ids : p.end_row_id + 1 < 2 ^ 31 =
        omega (
          arith, few, h.beg_is, h.roomy, page.end_is, page.count_is, page.offset_is, page.size_is,
        ) in
      let (p', run, kept, page') = insert_row-IsPage p es row page good room ids in
      let (m, is) = insert_row_page p p' row p.end_row_id room run in
      (
        p',
        run,
        record {
          is_page = page';
          table_is = kept.0 ∙ h.table_is;
          offset_is = rw is h.offset_is;
          next_is = rw is h.next_is;
          beg_is = kept.1 ∙ h.beg_is;
          roomy = rw is (omega (arith, h.roomy, row_width_least row good some_cell));
        },
        rw is refl,
        omega (arith, page.end_is, h.beg_is),
      )

  pub new_page-IsPageOf :
      (ts : TableSpace) (k : ℕ) → k < 2 ^ 21 → IsPageOf {O = O} ts.table_id k (new_page ts k) []
  unfolding get_beg_row_id_from_page_offset
  new_page-IsPageOf ts k few = record {
    is_page = record {
      entries_are = tt;
      count_is = refl;
      end_is = omega arith;
      end_small = omega arith;
      offset_is = refl;
      size_is = refl;
    };
    table_is = refl;
    offset_is = refl;
    next_is = omega (arith, few);
    beg_is = omega (arith, few);
    roomy = omega arith;
  }

  insert_into-run :
      (ts : TableSpace) (k id : ℕ) (row : Row O) (p p' : Page)
      → find ts.pages k ≡ some p
      → Page.insert_row p row ≡ (ok id, p')
      → insert_into ts k row ≡ (success, record ts { pages = put ts.pages k p' })
  insert_into-run ts k id row p p' found run =
      ap (λ (r : Result ℕ × Page). (code_of r.0, record ts { pages = put ts.pages k r.1 }))
        (ap (λ q. Page.insert_row q row) (page_at-find ts k p found) ∙ run)

  new_page_room :
      (ts : TableSpace) (k : ℕ) (row : Row O)
      → row_width row + 8 ≤ 16344
      → have_free_space_insert (new_page ts k) row ≡ true
  unfolding have_free_space_insert
  new_page_room ts k row fits = ground (arith, fits)

  -- On a page that was not there before.
  pub insert_new-IsSpace :
      (ts : TableSpace) (ess : List (List (Entry O))) (row : Row O)
      → IsSpace ts ess
      → IsStoredRow row
      → 0 < length row.cells
      → row_width row + 8 ≤ 16344
      → length ess < 2 ^ 21
      → (ts' : TableSpace) × (e : Entry O) × (insert_into
            (create_page ts (length ess))
            (length ess)
            row
          ≡ (success, ts'))
        × (e.gone ≡ false)
        × (e.cells ≡ row.cells)
        × (e.id ≡ length ess * 1024)
        × IsSpace ts' (ess ++ (e ∷ []) ∷ [])
  unfolding create_page
  insert_new-IsSpace ts ess row h good some_cell fits few =
      let n = length ess in
      let page = new_page-IsPageOf ts n few in
      let (p', run, page', dirty, id) =
        insert-IsPageOf ts.table_id n (new_page ts n) [] row page good some_cell
          (new_page_room ts n row fits) few in
      let e : Entry O = record {
        id = (new_page ts n).end_row_id;
        gone = false;
        cells = row.cells;
      } in
      (
        record ts { pages = put ts.pages n p' },
        e,
        insert_into-run (create_page ts n) n (new_page ts n).end_row_id row (new_page ts n) p'
              (find-put_self ts.pages n (new_page ts n)) run
            ∙ ap (λ ps. (success, record ts { pages = ps }))
                (put-put ts.pages n (new_page ts n) p'),
        refl,
        refl,
        id ∙ omega arith,
        append-IsSpace ts ess p' (e ∷ []) h few page' dirty,
      )

  -- The page of `get_last_page` has the room, or has it not.
  insert_last_room :
      (ts : TableSpace) (k : ℕ) (row : Row O) (p : Page)
      → page_at ts k ≡ p
      → have_free_space_insert p row ≡ true
      → insert_last row (ok k, ts) ≡ insert_into ts k row
  insert_last_room ts k row p at room =
      ap
        (λ b.
          if b
          then insert_into ts k row
          else insert_into (create_page ts (page_at ts k).page_next) (page_at ts k).page_next row)
        (ap (λ q. have_free_space_insert q row) at ∙ room)

  insert_last_full :
      (ts : TableSpace) (k n : ℕ) (row : Row O) (p : Page)
      → page_at ts k ≡ p
      → have_free_space_insert p row ≡ false
      → p.page_next ≡ n
      → insert_last row (ok k, ts) ≡ insert_into (create_page ts n) n row
  insert_last_full ts k n row p at full next =
      ap
        (λ b.
          if b
          then insert_into ts k row
          else insert_into (create_page ts (page_at ts k).page_next) (page_at ts k).page_next row)
        (ap (λ q. have_free_space_insert q row) at ∙ full)
      ∙ ap (λ j. insert_into (create_page ts j) j row) (ap (λ (q : Page). q.page_next) at ∙ next)

  -- A row that an empty page has the room for is put in, by which the table gets the row as it is: in
  -- front of the rows of its last page when that has the room, on a new page behind it otherwise. Its
  -- id is that of no other row, and leads to its page. The table has fewer than 2^21 pages, and the
  -- row a column.
  pub insert_row-IsSpace :
      (ts : TableSpace) (ess : List (List (Entry O))) (row : Row O)
      → IsSpace ts ess
      → IsStoredRow row
      → 0 < length row.cells
      → row_width row + 8 ≤ 16344
      → length ess < 2 ^ 21
      → (ts' : TableSpace) × (ess' : List (List (Entry O))) × (e : Entry O) × (insert_row ts row
          ≡ (success, ts'))
        × (e.gone ≡ false)
        × (e.cells ≡ row.cells)
        × IsPlaced ess e ess'
        × IsSpace ts' ess'
  unfolding insert_row
  insert_row-IsSpace ts [] row h good some_cell fits few =
      let none_yet = get_last_page_empty ts h in
      let room = new_page_room ts 0 row fits in
      let (ts', e, run, gone, cells, id, space) =
        insert_new-IsSpace ts [] row h good some_cell fits few in
      (
        ts',
        (e ∷ []) ∷ [],
        e,
        ap (insert_last row) none_yet
            ∙ insert_last_room (create_page ts 0) 0 row (new_page ts 0)
                (page_at-find (create_page ts 0) 0 (new_page ts 0) (create_page-find ts 0)) room
            ∙ run,
        gone,
        cells,
        inr (id, refl),
        space,
      )
  insert_row-IsSpace ts (es ∷ ess) row h good some_cell fits few =
      let m = length ess in
      let (ts1, last, loaded) = get_last_page-IsLoaded ts (es ∷ ess) m h refl in
      let p = loaded.page in
      let at = page_at-find ts1 m p loaded.found in
      elim (Bool-cases (have_free_space_insert p row)) [
        | inl room ↦
            let (p', run, page', dirty, id) =
              insert-IsPageOf ts1.table_id m p (get_or (es ∷ ess) m []) row loaded.is_page good
                some_cell room (omega (arith, few)) in
            let e : Entry O = record { id = p.end_row_id; gone = false; cells = row.cells } in
            (
              record ts1 { pages = put ts1.pages m p' },
              set (es ∷ ess) m (e ∷ get_or (es ∷ ess) m []),
              e,
              ap (insert_last row) last
                  ∙ insert_last_room ts1 m row p at room
                  ∙ insert_into-run ts1 m p.end_row_id row p p' loaded.found run,
              refl,
              refl,
              inl (m, refl, id, refl),
              put-IsSpace ts1 (es ∷ ess) m p' (e ∷ get_or (es ∷ ess) m []) loaded.is_space
                  (omega arith) page' (inl dirty),
            )
        | inr full ↦
            let (ts', e, run, gone, cells, id, space) =
              insert_new-IsSpace ts1 (es ∷ ess) row loaded.is_space good some_cell fits few in
            (
              ts',
              (es ∷ ess) ++ (e ∷ []) ∷ [],
              e,
              ap (insert_last row) last
                  ∙ insert_last_full ts1 m (suc m) row p at full
                      (loaded.is_page.next_is ∙ omega arith)
                  ∙ run,
              gone,
              cells,
              inr (id, refl),
              space,
            )
      ]

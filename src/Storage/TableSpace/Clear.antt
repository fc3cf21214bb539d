-- ===== src/Storage/TableSpace/Clear.antt =====
-- `delete_all_row` and the creation of tables, storage/table_space.cpp.
use cat_db.Prelude.{
  ℕ, ◌≡◌, refl, Bool-cases, inl, inr, subst, sym, Bool, true, false, [], ◌∷◌, arith,
}
use cat_db.Error.{Code, success}
use cat_db.Object.{ObjectClass}
use cat_db.Storage.Format.{Stored}
use cat_db.Storage.Page.{rewind}
use cat_db.Storage.IoService.{
  IoService, make_io_service, open_io, clear_file, close_io, get_file_size,
}
use cat_db.Storage.PageMap.{PageMap}
use cat_db.Storage.TableSpace.{
  TableSpace, make_table_space, destroy, close_pages, close_space, open_space, delete_all_row,
  create_table, table_space_size,
}
use cat_db.Storage.TableSpace.Held.{IsSpace}
use cat_db.Storage.TableSpace.Release.{reset-IsSpace}

close_pages-closed :
    (ps : PageMap) (io : IoService) → io.file_handle ≡ false → close_pages ps io ≡ io
unfolding close_pages destroy
close_pages-closed [] io shut = refl
close_pages-closed ((k, p) ∷ ps) io shut = elim (Bool-cases p.is_dirty) [
  | inl y ↦
      let kept : destroy (rewind p) io ≡ io = simp (destroy, y, shut) refl in
      rw kept (close_pages-closed ps io shut)
  | inr nay ↦
      let kept : destroy (rewind p) io ≡ io = simp (destroy, nay) refl in
      rw kept (close_pages-closed ps io shut)
]

-- An empty file that is not open.
abbrev no_file : IoService
no_file = make_io_service true []

module _ {O : Type 0} ⦃class : ObjectClass O⦄ ⦃stored : Stored O⦄ where
  new_file-IsSpace :
      (ts : TableSpace)
      → ts.io.file_handle ≡ true
      → ts.io.file ≡ []
      → ts.pages ≡ []
      → IsSpace {O = O} ts []
  new_file-IsSpace ts opened file pages = record {
    opened = opened;
    ordered = rw pages tt;
    held = λ k lt. absurd (omega arith);
    within = λ k p found. absurd (ground (arith, pages, found));
    short = rw file (omega arith);
    small = omega arith;
  }

  opened-IsSpace :
      (creatable : Bool) (table_id : ℕ)
      → IsSpace {O = O} (open_space creatable (make_table_space no_file table_id)) []
  unfolding open_space open_io
  opened-IsSpace creatable table_id =
      let opened = record (make_table_space no_file table_id) {
        io = record { file_handle = true; present = true; file = [] };
      } in
      reset-IsSpace opened [] (new_file-IsSpace opened refl refl refl)

  -- After `delete_all_row` and `close` the table is empty, whatever pages were in memory and dirty: a
  -- table space that is opened on it has no rows. The file is there.
  pub delete_all_row-empties :
      (ts : TableSpace) (creatable : Bool)
      → ts.io.present ≡ true
      → ((delete_all_row creatable ts).0 ≡ success)
        × IsSpace {O = O}
            (open_space creatable
              (make_table_space (close_space (delete_all_row creatable ts).1).io ts.table_id))
            []
  unfolding delete_all_row close_space clear_file open_space open_io
  delete_all_row-empties ts creatable there =
      let cleared : clear_file creatable ts.io ≡ (success, no_file) =
        simp (clear_file, there) refl in
      subst
        (λ (r : Code × IoService).
          (r.0 ≡ success)
          × IsSpace {O = O}
              (open_space creatable (make_table_space (close_pages ts.pages r.1) ts.table_id)) [])
        (sym cleared)
        (refl, rw (close_pages-closed ts.pages no_file refl) (opened-IsSpace creatable ts.table_id))

  -- A table that is created has no rows and takes no bytes.
  pub create_table-empty :
      (io : IoService) (table_id : ℕ)
      → io.present ≡ false
      → ((create_table true io).0 ≡ success)
        × (table_space_size (create_table true io).1 ≡ 0)
        × IsSpace {O = O} (open_space false (make_table_space (create_table true io).1 table_id)) []
  unfolding create_table table_space_size get_file_size open_io close_io open_space
  create_table-empty io table_id absent =
      let created : create_table true io ≡ (success, no_file) =
        simp (create_table, open_io, absent) refl in
      subst
        (λ (r : Code × IoService).
          (r.0 ≡ success)
          × (table_space_size r.1 ≡ 0)
          × IsSpace {O = O} (open_space false (make_table_space r.1 table_id)) [])
        (sym created) (refl, refl, opened-IsSpace false table_id)

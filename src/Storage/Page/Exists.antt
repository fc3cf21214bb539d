-- ===== src/Storage/Page/Exists.antt =====
-- `row_id_exists` of storage/page.cpp.
use cat_db.Prelude.{
  ℕ, zero, suc, ◌+◌, ◌^◌, ◌≤◌, ◌<◌, ◌≡◌, refl, sym, ◌∙◌, ◌⊎◌, inl, inr, Bool, true, false, not,
  ◌&&◌, List, [], ◌∷◌, ◌++◌, length, get_or, if◌then◌else◌, ltb, leb, ◌==◌, arith, none,
  length-append, get_or-append_length, Bool-cases,
}
use mathlib.Core.List.{append_assoc}
use cat_db.Error.{success, row_id_deleted as code_row_id_deleted}
use cat_db.Object.{ObjectClass}
use cat_db.Storage.Memory.{Memory}
use cat_db.Storage.Format.{Stored}
use cat_db.Storage.Page.{Page, RowInfo, row_id_exists, exists_from, beyond}
use cat_db.Storage.Page.Contents.{Entry, IsEntries, IsPage, info_id, length-IsEntries}
use cat_db.Storage.Page.Search.{live, find, row_id_deleted-info_id}
use cat_db.Storage.Page.Delete.{found_code, find_beyond}

-- For an id with bit 31 clear the two tests of the loop are one.
one_test :
    {A : Type 0} (id own : ℕ) (gone : Bool) (x y z : A)
    → id < 2 ^ 31
    → own < 2 ^ 31
    → (if id == info_id own gone then (if gone then x else y) else z)
      ≡ (if id == own && not gone then y else z)
one_test id own true x y z h h' = ground arith
one_test id own false x y z h h' = ground arith

module _ {O : Type 0} ⦃class : ObjectClass O⦄ ⦃stored : Stored O⦄ where
  exists_from-find :
      (infos pre : List RowInfo) (es : List (Entry O)) (all : List RowInfo) (m : Memory)
      (limit beg id i n : ℕ)
      → id < 2 ^ 31
      → IsEntries m limit beg infos es
      → all ≡ pre ++ infos
      → i ≡ length pre
      → n ≡ length infos
      → exists_from id all i n ≡ found_code (find id es)
  unfolding exists_from
  exists_from-find [] pre [] all m limit beg id i zero small h ea ei en = refl
  exists_from-find [] pre [] all m limit beg id i (suc n) small h ea ei en = absurd (omega arith)
  exists_from-find [] pre (e ∷ es) all m limit beg id i n small h ea ei en = elim h [ ]
  exists_from-find (info ∷ infos) pre [] all m limit beg id i n small h ea ei en = elim h [ ]
  exists_from-find (info ∷ infos) pre (e ∷ es) all m limit beg id i zero small h ea ei en =
      absurd (omega arith)
  exists_from-find (info ∷ infos) pre (e ∷ es) all m limit beg id i (suc n) small h ea ei en =
      let at : get_or all i beyond ≡ info =
        rw (ea, ei, get_or-append_length pre infos info beyond) refl in
      let ih =
        exists_from-find infos (pre ++ info ∷ []) es all m limit beg id (i + 1) n small h.2
          (ea ∙ sym (append_assoc pre (info ∷ []) infos)) (rw length-append (omega arith))
          (omega arith) in
      let tests =
        one_test id e.id e.gone code_row_id_deleted success (found_code (find id es)) small
          h.0.id_small in
      rw (exists_from, at, h.0.id_is, row_id_deleted-info_id e.id e.gone h.0.id_small, ih)
        (tests ∙ elim (Bool-cases (live id e)) [ inl y ↦ rw y refl | inr nay ↦ rw nay refl ])

  -- `row_id_exists` succeeds on the ids that `select_row` finds, and gives `ROW_ID_NOT_FOUND` on every
  -- other, those of deleted rows too; `ROW_ID_DELETED` is never given.
  pub row_id_exists-find :
      (p : Page) (es : List (Entry O)) (id : ℕ)
      → IsPage p es
      → row_id_exists p id ≡ found_code (find id es)
  unfolding row_id_exists
  row_id_exists-find p es id h =
      let len = length-IsEntries p.row_info es p.memory p.free_space p.beg_row_id h.entries_are in
      let absent : (id < p.beg_row_id) ⊎ (p.beg_row_id + length es ≤ id) → find id es ≡ none =
        find_beyond p.row_info es p.memory p.free_space p.beg_row_id id h.entries_are in
      elim (Bool-cases (ltb id p.beg_row_id)) [
        | inl y ↦
            let below : id < p.beg_row_id = ground (arith, y) in rw (y, absent (inl below)) refl
        | inr nay ↦ elim (Bool-cases (leb p.end_row_id id)) [
          | inl y ↦
              let above : p.end_row_id ≤ id = ground (arith, y) in
              rw (nay, y, absent (inr (omega (arith, h.end_is, above)))) refl
          | inr low ↦
              let small : id < 2 ^ 31 = ground (arith, low, h.end_small) in
              rw (nay, low)
                (exists_from-find p.row_info [] es p.row_info p.memory p.free_space p.beg_row_id id
                  0 p.row_count small h.entries_are refl refl (omega (arith, len, h.count_is)))
        ]
      ]

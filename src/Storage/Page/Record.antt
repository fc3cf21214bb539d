-- ===== src/Storage/Page/Record.antt =====
-- The loop of `serialize_row` in storage/page.cpp, and the record that it is to write.
use cat_db.Prelude.{
  ℕ, zero, suc, ◌+◌, ◌-◌, ◌*◌, ◌%◌, ◌≤◌, ◌<◌, ◌≡◌, refl, sym, subst, ◌∙◌, ◌⊎◌, inl, Bool, true,
  false, List, [], ◌∷◌, ◌++◌, length, get_or-append_length, length-append, if◌then◌else◌, ltb,
  lt→ltb, arith,
}
use mathlib.Core.List.{append_assoc}
use cat_db.Error.{ok}
use cat_db.Object.{ObjectClass}
use cat_db.Row.{Row, get_cell}
use cat_db.Storage.Memory.{Memory, put16, get16, get16_congr, put16_other, get16-put16}
use cat_db.Storage.Format.{Stored, put_object, object_end, serialize_from}
use cat_db.Storage.Page.Layout.{
  IsStored, StoredAt, put_object_other, put_object-StoredAt, keep-StoredAt,
}

-- The addresses that the loop leaves alone, with column `i` next and its object to go to `pos`:
-- the offsets up to this column's, the objects before, and what is behind the record.
abbrev pub IsOutside : (beg i count pos size j : ℕ) → Type 0
IsOutside beg i count pos size j =
    (j < beg + 2 + 2 * (i + 1))
    ⊎ (((beg + 4 + 4 * count ≤ j) × (j < beg + pos)) ⊎ (beg + pos + size ≤ j))

-- The offset of the next column, written when there is a next.
unfoldable pub link : Bool → Memory → ℕ → ℕ → Memory
link b m a v = if b then put16 m a v else m

pub link_other : (b : Bool) (m : Memory) (a v j : ℕ) → (j < a) ⊎ (a + 1 < j) → link b m a v j ≡ m j
unfolding link
link_other true m a v j h = put16_other m a v j h
link_other false m a v j h = refl

pub link_there :
    (b : Bool) (m : Memory) (a v : ℕ) → b ≡ true → v < 65536 → get16 (link b m a v) a ≡ v
unfolding link
link_there true m a v h small = omega (arith, get16-put16 m a v)
link_there false m a v h small = absurd (cc)

module _ {O : Type 0} ⦃class : ObjectClass O⦄ ⦃stored : Stored O⦄ where
  abbrev pub objects_width : List O → ℕ
  objects_width [] = 0
  objects_width (x ∷ xs) = stored.width x + 4 + objects_width xs

  abbrev pub AllStored : List O → Type 0
  AllStored [] = Unit
  AllStored (x ∷ xs) = IsStored x × AllStored xs

  -- Columns `i`, `i + 1`, … of the record at `beg` are these objects, all below `limit`.
  abbrev pub IsRecord : (m : Memory) (limit beg i : ℕ) → List O → Type 0
  IsRecord m limit beg i [] = Unit
  IsRecord m limit beg i (x ∷ xs) =
      (beg + 2 + 2 * (i + 1) ≤ limit)
      × (beg + get16 m (beg + 2 + 2 * i) + 4 + stored.width x ≤ limit)
      × StoredAt m (beg + get16 m (beg + 2 + 2 * i)) x
      × IsRecord m limit beg (i + 1) xs

  -- Writes from `limit` on leave the record there.
  pub keep-IsRecord :
      (xs : List O) (m m' : Memory) (limit limit' beg i : ℕ)
      → ((j : ℕ) → j < limit → m' j ≡ m j)
      → limit ≤ limit'
      → IsRecord m limit beg i xs
      → IsRecord m' limit' beg i xs
  keep-IsRecord [] m m' limit limit' beg i same le h = tt
  keep-IsRecord (x ∷ xs) m m' limit limit' beg i same le (slot, fits, there, rest) =
      let off : get16 m' (beg + 2 + 2 * i) ≡ get16 m (beg + 2 + 2 * i) =
        get16_congr m' m (beg + 2 + 2 * i) (same _ (omega arith)) (same _ (omega arith)) in
      (
        omega arith,
        omega arith,
        subst (λ o. StoredAt m' (beg + o) x) (sym off)
            (keep-StoredAt m m' (beg + get16 m (beg + 2 + 2 * i)) x (λ j p q. same j (omega arith))
              there),
        keep-IsRecord xs m m' limit limit' beg (i + 1) same le rest,
      )

  abbrev pub Written : (row : Row O) (limit beg count i n pos : ℕ) → List O → Memory → Type 0
  Written row limit beg count i n pos xs m =
      (m' : Memory) × (serialize_from row beg count i n m ≡ ok m')
      × ((j : ℕ) → IsOutside beg i count pos (objects_width xs) j → m' j ≡ m j)
      × IsRecord m' limit beg i xs

  one_column :
      (row : Row O) (beg count i n pos : ℕ) (m : Memory) (x : O)
      → get_cell row i ≡ ok x
      → IsStored x
      → get16 m (beg + 2 + 2 * i) ≡ pos
      → pos + 4 + stored.width x < 65536
      → serialize_from row beg count i (suc n) m
        ≡ serialize_from row beg count (i + 1) n (
            link
              (ltb i (count - 1))
              (put_object m (beg + pos) x)
              (beg + 2 + 2 * (i + 1))
              (pos + 4 + stored.width x))
  unfolding serialize_from object_end link
  one_column row beg count i n pos m x e h o small =
      let behind : beg + pos + (4 + stored.width x % 65536) % 65536 - beg
          ≡ pos + 4 + stored.width x =
        omega (arith, small) in
      rw (serialize_from, e, h.serial_ok, o, object_end, behind, link) refl

  pub serialize_from-Written :
      (xs pre : List O) (row : Row O) (limit beg count i n pos : ℕ) (m : Memory)
      → row.cells ≡ pre ++ xs
      → row.row_desc.column_count ≡ count
      → i ≡ length pre
      → n ≡ length xs
      → i + n ≡ count
      → AllStored xs
      → 4 + 4 * count ≤ pos
      → pos + objects_width xs < 65536
      → beg + pos + objects_width xs ≤ limit
      → (0 < n → get16 m (beg + 2 + 2 * i) ≡ pos)
      → Written row limit beg count i n pos xs m
  unfolding serialize_from
  serialize_from-Written [] pre row limit beg count i zero pos m ec ed ei en et hs lo hi top here =
      (m, refl, (λ j o. refl), tt)
  serialize_from-Written [] pre row limit beg count i (suc n) pos m ec ed ei en et hs lo hi top
        here =
      absurd (omega arith)
  serialize_from-Written (x ∷ xs) pre row limit beg count i zero pos m ec ed ei en et hs lo hi top
        here =
      absurd (omega arith)
  serialize_from-Written (x ∷ xs) pre row limit beg count i (suc n) pos m ec ed ei en et hs lo hi
        top here =
      let h = hs.0 in
      let w = stored.width x in
      let o = here (omega arith) in
      let cell : get_cell row i ≡ ok x =
        rw (ed, lt→ltb i count (omega arith), ec, ei, get_or-append_length pre xs x class.nullptr)
          refl in
      let pos' = pos + 4 + w in
      let m1 = put_object m (beg + pos) x in
      let at = beg + 2 + 2 * (i + 1) in
      let more = ltb i (count - 1) in
      let m2 = link more m1 at pos' in
      let linked : (j : ℕ) → (j < at) ⊎ (at + 1 < j) → m2 j ≡ m1 j = link_other more m1 at pos' in
      let next : 0 < n → get16 m2 at ≡ pos' =
        λ p. link_there more m1 at pos' (lt→ltb i (count - 1) (omega arith)) (omega arith) in
      let (m', run, frame, record') =
        serialize_from-Written xs (pre ++ x ∷ []) row limit beg count (i + 1) n pos' m2
          (ec ∙ sym (append_assoc pre (x ∷ []) xs)) ed (rw length-append (omega arith))
          (omega arith) (omega arith) hs.1 (omega arith) (omega arith) (omega arith) next in
      let same : (j : ℕ) → IsOutside beg i count pos (w + 4 + objects_width xs) j → m' j ≡ m j =
        λ j out.
          frame j (ground arith)
          ∙ linked j (ground arith)
          ∙ put_object_other m (beg + pos) x j h (ground arith) in
      let kept : (j : ℕ) → beg + pos ≤ j → j < beg + pos + 3 + w → m' j ≡ m1 j =
        λ j p q. frame j (ground arith) ∙ linked j (ground arith) in
      let at_pos : get16 m' (beg + 2 + 2 * i) ≡ pos =
        get16_congr m' m (beg + 2 + 2 * i) (same _ (inl (omega arith))) (same _ (inl (omega arith)))
        ∙ o in
      (
        m',
        one_column row beg count i n pos m x cell h o (omega arith) ∙ run,
        same,
        (
          omega arith,
          omega (arith, at_pos),
          subst (λ off. StoredAt m' (beg + off) x) (sym at_pos)
              (keep-StoredAt m1 m' (beg + pos) x kept (put_object-StoredAt m (beg + pos) x h)),
          record',
        ),
      )

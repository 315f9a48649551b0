-- ===== src/Mvcc/Cells/Scan.antt =====
-- Scan of server/mvcc_leveldb.go is what Get gives for the keys of its range.
use mathlib.Core.Path.{subst}
use mock_tikv.Prelude.{
  Bool, ℕ, suc, ◌≡◌, inl, inr, refl, sym, ap, ◌∙◌, true, false, Option, none, some, List, [], ◌∷◌,
  ◌++◌, map, Bytes, All, length, take, ◌+◌, arith, Bool-cases,
}
use mock_tikv.Errors.{Result, ok, err}
use mock_tikv.Bytes.{equal}
use mock_tikv.Bytes.Order.{equal_iff}
use mock_tikv.Entry.{IsolationLevel}
use mock_tikv.Engine.{Engine, EngineLaws}
use mock_tikv.Mvcc.{Pair, lock_ts, get}
use mock_tikv.Mvcc.Scan.{found_pair, scan_bound, scan_start, scan_loop, new_scan_iterator, scan}
use mock_tikv.Mvcc.Cells.{Cell, key_of, encode_cell, CellFits, Holds, InOrder, Beyond, Entry}
use mock_tikv.Mvcc.Cells.Shape.{in_order}
use mock_tikv.Mvcc.Cells.Read.{
  decode_key, lock_of-Beyond, values_of-Beyond, visible, view_get, get-view,
}
use mock_tikv.Mvcc.Cells.Keys.{
  keys_in, behind, inside, scanned, length-behind, Beyond-behind, Entry-first,
}
use mock_tikv.Mvcc.Cells.Range.{
  inside-fit, inside-InOrder, inside-passes, lock_of-inside, values_of-inside, in_range-inside,
  Entry-inside,
}
use mock_tikv.Mvcc.Cells.Gets.{
  reads, up_to-take, seen, Agree, Agree-rest, reads_first, scan_loop-reads,
}

-- A key that the database does not have reads as nil.
seen_nothing :
    (ts : ℕ) (iso : IsolationLevel) (k : Bytes) (cs : List Cell)
    → Beyond k cs
    → found_pair k (seen ts iso cs k) ≡ []
unfolding view_get lock_ts visible
seen_nothing ts iso k cs b = rw (lock_of-Beyond k cs b, values_of-Beyond k cs b) refl

pub own_first :
    (k : Bytes) (c : Cell) (cs : List Cell)
    → equal (key_of c) k ≡ false
    → behind k (c ∷ cs) ≡ c ∷ cs
unfolding behind
own_first k c cs u = rw u refl

-- The loop of Scan begins at a key that the database may not have.
opening :
    (ts : ℕ) (iso : IsolationLevel) (g : Bytes → Result (Option Bytes)) (k : Bytes) (cs : List Cell)
    → Entry k cs
    → Agree ts iso g cs cs
    → found_pair k (seen ts iso cs k) ++ reads g (keys_in (behind k cs)) ≡ reads g (keys_in cs)
unfolding behind keys_in
opening ts iso g k [] e a = rw (seen_nothing ts iso k [] tt) refl
opening ts iso g k (c ∷ cs) e a = elim (Bool-cases (equal (key_of c) k)) [
  | inl t ↦
      let same : key_of c ≡ k = (equal_iff (key_of c) k).0 t in
      subst
        (λ j.
          found_pair j (seen ts iso (c ∷ cs) j) ++ reads g (keys_in (behind j (c ∷ cs)))
          ≡ reads g (keys_in (c ∷ cs)))
        same (reads_first 0 ts iso g c cs a.0)
  | inr u ↦
      let stays : behind k (c ∷ cs) ≡ c ∷ cs = own_first k c cs u in
      let b : Beyond k (c ∷ cs) = rw stays at (Beyond-behind k (c ∷ cs) e) in
      ap (λ ps. ps ++ reads g (keys_in (behind k (c ∷ cs)))) (seen_nothing ts iso k (c ∷ cs) b)
      ∙ ap (λ ds. reads g (keys_in ds)) stays
]

-- The key that a scan begins with
abbrev pub first_key : Bytes → List Cell → Bytes
first_key [] [] = []
first_key [] (c ∷ cs) = key_of c
first_key (x ∷ xs) cs = x ∷ xs

scan_start-cells :
    (start_key : Bytes) (cs : List Cell)
    → All CellFits cs
    → scan_start start_key (map encode_cell cs, none)
      ≡ ok ((map encode_cell cs, none), first_key start_key cs)
unfolding scan_start
scan_start-cells [] [] h = refl
scan_start-cells [] (c ∷ cs) h = rw (decode_key c h.0) refl
scan_start-cells (x ∷ xs) [] h = refl
scan_start-cells (x ∷ xs) (c ∷ cs) h = refl

pub Entry-first_key :
    (start_key end_key : Bytes) (cs : List Cell)
    → All CellFits cs
    → InOrder cs
    → Entry
        (first_key start_key (inside (scanned start_key end_key) cs))
        (inside (scanned start_key end_key) cs)
Entry-first_key (x ∷ xs) end_key cs h o = Entry-inside x xs end_key cs h o
Entry-first_key [] end_key cs h o =
    first (inside (scanned [] end_key) cs) (inside-fit (scanned [] end_key) cs h)
      (inside-InOrder (scanned [] end_key) cs o)
  where
    first : (ds : List Cell) → All CellFits ds → InOrder ds → Entry (first_key [] ds) ds
    first [] h o = tt
    first (d ∷ ds) h o = Entry-first d ds h.0 o

pub length-map : (cs : List Cell) → length (map encode_cell cs) ≡ length cs
length-map [] = refl
length-map (c ∷ cs) = ap suc (length-map cs)

module _ (e : Engine) (laws : EngineLaws e) (db : e.Db) (cells : List Cell)
    (h : Holds e db cells) where
  pub cells-InOrder : InOrder cells
  cells-InOrder = in_order cells h.fit (rw h.stored at (laws.sorted db))

  gets-Agree :
      (ts : ℕ) (iso : IsolationLevel) (w : Bytes → Bool) (ds : List Cell)
      → All (λ d. w (key_of d) ≡ true) ds
      → Agree ts iso (λ k. get e db k ts iso) (inside w cells) ds
  gets-Agree ts iso w [] p = tt
  gets-Agree ts iso w (d ∷ ds) p = (
    rw (lock_of-inside w (key_of d) cells p.0, values_of-inside w (key_of d) cells p.0)
        (sym (get-view e laws db cells h (key_of d) ts iso)),
    gets-Agree ts iso w ds p.1,
  )

  pub new_scan_iterator-cells :
      (start_key end_key : Bytes)
      → new_scan_iterator e db start_key end_key
        ≡ ok (
          (map encode_cell (inside (scanned start_key end_key) cells), none),
          first_key start_key (inside (scanned start_key end_key) cells),
        )
  unfolding new_scan_iterator
  new_scan_iterator-cells start_key end_key =
      ap (scan_start start_key) (
        laws.iterate_lem db (record { start = scan_bound start_key; limit = scan_bound end_key })
        ∙ rw (h.stored, in_range-inside start_key end_key cells h.fit) refl)
      ∙ scan_start-cells start_key (inside (scanned start_key end_key) cells)
          (inside-fit (scanned start_key end_key) cells h.fit)

  -- Scan does not panic, and returns what Get gives for each key of its range: in the order of the
  -- keys, a pair for a value and an error pair for a locked key, nothing for a key without a
  -- value, up to the limit. The range is that of the keys of the stored cells from the start key
  -- on and below the end key, each of them if it is not empty. The engine keeps its laws, and the
  -- database holds cells that can be stored and read back.
  pub scan-get :
      (start_key end_key : Bytes) (limit ts : ℕ) (iso : IsolationLevel)
      → scan e db start_key end_key limit ts iso
        ≡ some (
            take limit
              (reads (λ k. get e db k ts iso) (keys_in (inside (scanned start_key end_key) cells))))
  unfolding scan
  scan-get start_key end_key limit ts iso =
      ap
        (λ r. elim r as (λ _. Option (List Pair)) [
          | err x ↦ none
          | ok s ↦ some (scan_loop (length s.0.0 + 2) limit ts iso s.0 s.1 [])
        ])
        (new_scan_iterator-cells start_key end_key)
      ∙ ap some (
          enough
          ∙ scan_loop-reads limit ts iso g (suc (length range)) first range []
              (inside-fit w cells h.fit) (inside-InOrder w cells cells-InOrder) entry
              (Agree-rest limit ts iso g first range range agree)
              (omega (arith, length-behind first range))
          ∙ up_to-take limit limit [] _ (omega arith)
          ∙ ap (take limit) (opening ts iso g first range entry agree))
    where
      w : Bytes → Bool
      w = scanned start_key end_key

      range : List Cell
      range = inside w cells

      first : Bytes
      first = first_key start_key range

      g : Bytes → Result (Option Bytes)
      g k = get e db k ts iso

      entry : Entry first range
      entry = Entry-first_key start_key end_key cells h.fit cells-InOrder

      agree : Agree ts iso g range range
      agree = gets-Agree ts iso w range (inside-passes w cells)

      enough :
          scan_loop
            (length (map encode_cell range) + 2)
            limit
            ts
            iso
            (map encode_cell range, none)
            first
            []
          ≡ scan_loop (suc (suc (length range))) limit ts iso (map encode_cell range, none) first []
      enough =
          let q : length (map encode_cell range) + 2 ≡ suc (suc (length range)) =
            omega (arith, length-map range) in
          ap (λ n. scan_loop n limit ts iso (map encode_cell range, none) first []) q

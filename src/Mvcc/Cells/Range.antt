-- ===== src/Mvcc/Cells/Range.antt =====
-- What the iterator of newScanIterator in server/mvcc_leveldb.go shows: the cells of a range of keys.
use mock_tikv.Prelude.{
  inl, inr, ℕ, ◌≡◌, refl, ap, Bool, true, false, List, [], ◌∷◌, map, Bytes, All, ◌&&◌, arith,
  Bool-cases,
}
use mock_tikv.Bytes.{equal, less, less_eq}
use mock_tikv.Bytes.Order.{equal_iff}
use mock_tikv.Key.{mvcc_encode, lock_ver}
use mock_tikv.Key.Laws.{cmp-mvcc_encode}
use mock_tikv.Engine.{in_range, above, below}
use mock_tikv.Mvcc.Scan.{scan_bound}
use mock_tikv.Mvcc.Cells.{
  Cell, lock_cell, value_cell, key_of, ver_of, encode_cell, CellFits, AllAfter, InOrder, lock_of,
  values_of, from, Entry,
}
use mock_tikv.Mvcc.Cells.Shape.{from-Entry, ver-le, ver-IsU64, start_test}
use mock_tikv.Mvcc.Cells.Keys.{inside, scanned}

pub inside-fit : (w : Bytes → Bool) (cs : List Cell) → All CellFits cs → All CellFits (inside w cs)
unfolding inside
inside-fit w [] h = tt
inside-fit w (c ∷ cs) h = elim (Bool-cases (w (key_of c))) [
  | inl t ↦ rw t (h.0, inside-fit w cs h.1)
  | inr u ↦ rw u (inside-fit w cs h.1)
]

inside-AllAfter :
    (w : Bytes → Bool) (c : Cell) (cs : List Cell) → AllAfter c cs → AllAfter c (inside w cs)
unfolding inside
inside-AllAfter w c [] h = tt
inside-AllAfter w c (d ∷ ds) h = elim (Bool-cases (w (key_of d))) [
  | inl t ↦ rw t (h.0, inside-AllAfter w c ds h.1)
  | inr u ↦ rw u (inside-AllAfter w c ds h.1)
]

pub inside-InOrder : (w : Bytes → Bool) (cs : List Cell) → InOrder cs → InOrder (inside w cs)
unfolding inside
inside-InOrder w [] h = tt
inside-InOrder w (c ∷ cs) h = elim (Bool-cases (w (key_of c))) [
  | inl t ↦ rw t (inside-AllAfter w c cs h.0, inside-InOrder w cs h.1)
  | inr u ↦ rw u (inside-InOrder w cs h.1)
]

pub inside-passes :
    (w : Bytes → Bool) (cs : List Cell) → All (λ c. w (key_of c) ≡ true) (inside w cs)
unfolding inside
inside-passes w [] = tt
inside-passes w (c ∷ cs) = elim (Bool-cases (w (key_of c))) [
  | inl t ↦ rw t (t, inside-passes w cs)
  | inr u ↦ rw u (inside-passes w cs)
]

left_out : (w : Bytes → Bool) (i j : Bytes) → w j ≡ true → w i ≡ false → equal i j ≡ false
left_out w i j t u = elim (Bool-cases (equal i j)) [
  | inr f ↦ f
  | inl s ↦ let p : i ≡ j = (equal_iff i j).0 s in cc (t, u, ap w p)
]

pub lock_of-inside :
    (w : Bytes → Bool) (j : Bytes) (cs : List Cell)
    → w j ≡ true
    → lock_of j (inside w cs) ≡ lock_of j cs
unfolding inside lock_of
lock_of-inside w j [] t = refl
lock_of-inside w j (lock_cell i l ∷ cs) t = elim (Bool-cases (w i)) [
  | inl s ↦ rw s (ground (arith, lock_of-inside w j cs t))
  | inr u ↦ rw (u, left_out w i j t u) (lock_of-inside w j cs t)
]
lock_of-inside w j (value_cell i v ∷ cs) t = elim (Bool-cases (w i)) [
  | inl s ↦ rw s (lock_of-inside w j cs t)
  | inr u ↦ rw u (lock_of-inside w j cs t)
]

pub values_of-inside :
    (w : Bytes → Bool) (j : Bytes) (cs : List Cell)
    → w j ≡ true
    → values_of j (inside w cs) ≡ values_of j cs
unfolding inside values_of
values_of-inside w j [] t = refl
values_of-inside w j (lock_cell i l ∷ cs) t = elim (Bool-cases (w i)) [
  | inl s ↦ rw s (values_of-inside w j cs t)
  | inr u ↦ rw u (values_of-inside w j cs t)
]
values_of-inside w j (value_cell i v ∷ cs) t = elim (Bool-cases (w i)) [
  | inl s ↦ rw s (ground (arith, values_of-inside w j cs t))
  | inr u ↦ rw (u, left_out w i j t u) (values_of-inside w j cs t)
]

-- The bounds of the iterator cut at keys, not at versions.
end_test :
    (k : Bytes) (c : Cell)
    → CellFits c
    → less (encode_cell c).key (mvcc_encode k lock_ver) ≡ less (key_of c) k
unfolding less
end_test k c h = ground (
  arith,
  cmp-mvcc_encode (key_of c) k (ver_of c) lock_ver (ver-IsU64 c h) (omega arith),
  ver-le c h,
)

range_test :
    (start_key end_key : Bytes) (c : Cell)
    → CellFits c
    → (above (scan_bound start_key) (encode_cell c).key
        && below (scan_bound end_key) (encode_cell c).key)
      ≡ scanned start_key end_key (key_of c)
range_test [] [] c h = refl
range_test [] (y ∷ ys) c h = end_test (y ∷ ys) c h
range_test (x ∷ xs) [] c h = rw (start_test (x ∷ xs) c h)
range_test (x ∷ xs) (y ∷ ys) c h = rw (start_test (x ∷ xs) c h, end_test (y ∷ ys) c h)

pub in_range-inside :
    (start_key end_key : Bytes) (cs : List Cell)
    → All CellFits cs
    → in_range
        (record { start = scan_bound start_key; limit = scan_bound end_key })
        (map encode_cell cs)
      ≡ map encode_cell (inside (scanned start_key end_key) cs)
unfolding in_range inside
in_range-inside start_key end_key [] h = refl
in_range-inside start_key end_key (c ∷ cs) h =
    rw (range_test start_key end_key c h.0)
      (elim (Bool-cases (scanned start_key end_key (key_of c))) [
        | inl t ↦ rw t (ap (λ r. encode_cell c ∷ r) (in_range-inside start_key end_key cs h.1))
        | inr u ↦ rw u (in_range-inside start_key end_key cs h.1)
      ])

from_all : (k : Bytes) (cs : List Cell) → All (λ c. less_eq k (key_of c) ≡ true) cs → from k cs ≡ cs
unfolding from
from_all k [] h = refl
from_all k (c ∷ cs) h = rw h.0 (ap (λ r. c ∷ r) (from_all k cs h.1))

begins :
    (x : ℕ) (xs end_key : Bytes) (cs : List Cell)
    → All (λ c. scanned (x ∷ xs) end_key (key_of c) ≡ true) cs
    → All (λ c. less_eq (x ∷ xs) (key_of c) ≡ true) cs
begins x xs end_key [] h = tt
begins x xs end_key (c ∷ cs) h = (ground (arith, h.0), begins x xs end_key cs h.1)

-- The range begins with the entry of its start key, if one is given.
pub Entry-inside :
    (x : ℕ) (xs end_key : Bytes) (cs : List Cell)
    → All CellFits cs
    → InOrder cs
    → Entry (x ∷ xs) (inside (scanned (x ∷ xs) end_key) cs)
Entry-inside x xs end_key cs h o =
    let w : Bytes → Bool = scanned (x ∷ xs) end_key in
    let q : from (x ∷ xs) (inside w cs) ≡ inside w cs =
      from_all (x ∷ xs) (inside w cs) (begins x xs end_key (inside w cs) (inside-passes w cs)) in
    rw q at (from-Entry (x ∷ xs) (inside w cs) (inside-fit w cs h) (inside-InOrder w cs o))

-- ===== src/Mvcc/Cells/Shape.antt =====
-- The cells from a key on, in a database in order.
use Prim.Native.Nat.{compare}
use mock_tikv.Prelude.{
  Ordering, ◌≡◌, ◌<◌, ◌≤◌, ◌⊎◌, inl, inr, refl, sym, ap, ◌∙◌, true, false, none, some, List, [],
  ◌∷◌, map, Bytes, All, IsU64, arith, Bool-cases,
}
use mock_tikv.Bytes.{cmp, equal, less_eq}
use mock_tikv.Bytes.Order.{andthen, cmp_trans, cmp-eq, cmp_self, equal_iff}
use mock_tikv.Key.{mvcc_encode, lock_ver}
use mock_tikv.Key.Laws.{cmp-mvcc_encode}
use mock_tikv.Engine.{in_range, AllAbove, IsSorted}
use mock_tikv.Mvcc.Cells.{
  Cell, lock_cell, value_cell, key_of, ver_of, encode_cell, CellFits, order, AllAfter, InOrder,
  lock_of, values_of, from, Beyond, Values, Entry,
}

pub ver-IsU64 : (c : Cell) → CellFits c → IsU64 (ver_of c)
ver-IsU64 (lock_cell k l) h = omega arith
ver-IsU64 (value_cell k v) h = omega arith

-- The engine's order of the stored items is the order of the cells.
pub cmp-encode_cell :
    (c d : Cell) → CellFits c → CellFits d → cmp (encode_cell c).key (encode_cell d).key ≡ order c d
cmp-encode_cell c d hc hd =
    cmp-mvcc_encode (key_of c) (key_of d) (ver_of c) (ver_of d) (ver-IsU64 c hc) (ver-IsU64 d hd)

all_after :
    (c : Cell) (cs : List Cell)
    → CellFits c
    → All CellFits cs
    → AllAbove (encode_cell c).key (map encode_cell cs)
    → AllAfter c cs
all_after c [] hc h a = tt
all_after c (d ∷ ds) hc h a = (sym (cmp-encode_cell c d hc h.0) ∙ a.0, all_after c ds hc h.1 a.1)

pub in_order : (cs : List Cell) → All CellFits cs → IsSorted (map encode_cell cs) → InOrder cs
in_order [] h s = tt
in_order (c ∷ cs) h s = (all_after c cs h.0 h.1 s.0, in_order cs h.1 s.1)

pub andthen_lt :
    (o p : Ordering)
    → andthen o p ≡ Ordering.lt
    → (o ≡ Ordering.lt) ⊎ ((o ≡ Ordering.eq) × (p ≡ Ordering.lt))
andthen_lt Ordering.lt p h = inl refl
andthen_lt Ordering.eq p h = inr (refl, h)
andthen_lt Ordering.gt p h = cc

not_gt : (a b : Bytes) → less_eq a b ≡ true → (cmp a b ≡ Ordering.lt) ⊎ (a ≡ b)
unfolding less_eq
not_gt a b h = split (cmp a b) refl h
  where
    split :
        (o : Ordering)
        → cmp a b ≡ o
        → (elim o [ Ordering.gt ↦ false | _ ↦ true ]) ≡ true
        → (cmp a b ≡ Ordering.lt) ⊎ (a ≡ b)
    split Ordering.lt e t = inl e
    split Ordering.eq e t = inr (cmp-eq a b e)
    split Ordering.gt e t = cc

less_eq_lt : (a b : Bytes) → cmp a b ≡ Ordering.lt → less_eq a b ≡ true
unfolding less_eq
less_eq_lt a b h = ground arith

pub less_eq_self : (a : Bytes) → less_eq a a ≡ true
unfolding less_eq
less_eq_self a = ground (arith, cmp_self a)

-- A cell behind one has a key above its key, or the same key and a lower version.
pub after_cases :
    (c d : Cell)
    → order c d ≡ Ordering.lt
    → (cmp (key_of c) (key_of d) ≡ Ordering.lt) ⊎ ((key_of d ≡ key_of c) × (ver_of d < ver_of c))
after_cases c d h =
    elim (andthen_lt (cmp (key_of c) (key_of d)) (compare (ver_of d) (ver_of c)) h) [
      | inl lt ↦ inl lt
      | inr (eq, lt) ↦ inr (sym (cmp-eq (key_of c) (key_of d) eq), ground arith)
    ]

above_trans :
    (k : Bytes) (c d : Cell)
    → cmp k (key_of c) ≡ Ordering.lt
    → order c d ≡ Ordering.lt
    → cmp k (key_of d) ≡ Ordering.lt
above_trans k c d h a = elim (after_cases c d a) [
  | inl lt ↦ cmp_trans k (key_of c) (key_of d) h lt
  | inr (same, lower) ↦ rw same h
]

-- Behind a key above `k` all keys are above `k`.
pub Beyond-after :
    (k : Bytes) (c : Cell) (cs : List Cell)
    → cmp k (key_of c) ≡ Ordering.lt
    → AllAfter c cs
    → Beyond k cs
Beyond-after k c [] h a = tt
Beyond-after k c (d ∷ ds) h a = (above_trans k c d h a.0, Beyond-after k c ds h a.1)

-- Behind a cell of `k` come the other values of `k`, and then keys above it.
pub Values-after :
    (k : Bytes) (c : Cell) (cs : List Cell)
    → key_of c ≡ k
    → ver_of c ≤ lock_ver
    → AllAfter c cs
    → InOrder cs
    → Values k cs
Values-after k c [] e v a o = tt
Values-after k c (lock_cell j l ∷ cs) e v a o = elim (after_cases c (lock_cell j l) a.0) [
  | inl lt ↦
      let h : cmp k j ≡ Ordering.lt = rw e at lt in (h, Beyond-after k (lock_cell j l) cs h o.0)
  | inr (same, lower) ↦ absurd (omega arith)
]
Values-after k c (value_cell j w ∷ cs) e v a o =
    values_cell (after_cases c (value_cell j w) a.0)
      (λ same lower. Values-after k (value_cell j w) cs same (omega arith) o.0 o.1)
  where
    values_cell :
        (cmp (key_of c) j ≡ Ordering.lt) ⊎ ((j ≡ key_of c) × (w.commit_ts < ver_of c))
        → (j ≡ k → w.commit_ts < ver_of c → Values k cs)
        → ((j ≡ k) × Values k cs) ⊎ Beyond k (value_cell j w ∷ cs)
    values_cell (inl lt) ih =
        let h : cmp k j ≡ Ordering.lt = rw e at lt in
        inr (h, Beyond-after k (value_cell j w) cs h o.0)
    values_cell (inr (same, lower)) ih = inl (same ∙ e, ih (same ∙ e) lower)

from_Beyond : (k : Bytes) (cs : List Cell) → Beyond k cs → from k cs ≡ cs
unfolding from
from_Beyond k [] b = refl
from_Beyond k (c ∷ cs) b = rw (less_eq_lt k (key_of c) b.0) (ap (λ r. c ∷ r) (from_Beyond k cs b.1))

from_Values : (k : Bytes) (cs : List Cell) → Values k cs → from k cs ≡ cs
unfolding from
from_Values k [] v = refl
from_Values k (lock_cell j l ∷ cs) b = from_Beyond k (lock_cell j l ∷ cs) b
from_Values k (value_cell j w ∷ cs) (inl (e, v)) =
    rw (e, less_eq_self k) (ap (λ r. value_cell k w ∷ r) (from_Values k cs v))
from_Values k (value_cell j w ∷ cs) (inr b) = from_Beyond k (value_cell j w ∷ cs) b

entry_beyond :
    (k : Bytes) (c : Cell) (cs : List Cell)
    → cmp k (key_of c) ≡ Ordering.lt
    → Beyond k cs
    → Entry k (c ∷ from k cs)
entry_beyond k (lock_cell j l) cs h b = rw (from_Beyond k cs b) (inr (h, b))
entry_beyond k (value_cell j w) cs h b = rw (from_Beyond k cs b) (inr (h, b))

entry_own :
    (k : Bytes) (c : Cell) (cs : List Cell) → key_of c ≡ k → Values k cs → Entry k (c ∷ from k cs)
entry_own k (lock_cell j l) cs e v = rw (from_Values k cs v) (inl (e, v))
entry_own k (value_cell j w) cs e v = rw (from_Values k cs v) (inl (e, v))

pub ver-le : (c : Cell) → CellFits c → ver_of c ≤ lock_ver
ver-le (lock_cell k l) h = omega arith
ver-le (value_cell k v) h = omega arith

-- From a key on, a database in order shows the lock of the key, its values, and then other keys.
pub from-Entry : (k : Bytes) (cs : List Cell) → All CellFits cs → InOrder cs → Entry k (from k cs)
unfolding from
from-Entry k [] h o = tt
from-Entry k (c ∷ cs) h o = elim (Bool-cases (less_eq k (key_of c))) [
  | inr lower ↦ rw lower (from-Entry k cs h.1 o.1)
  | inl there ↦ rw there (elim (not_gt k (key_of c) there) [
    | inl lt ↦ entry_beyond k c cs lt (Beyond-after k c cs lt o.0)
    | inr e ↦ entry_own k c cs (sym e) (Values-after k c cs (sym e) (ver-le c h.0) o.0 o.1)
  ])
]

-- A key that is not from `k` on is not `k`.
pub other_key : (k j : Bytes) → less_eq k j ≡ false → equal j k ≡ false
other_key k j u = elim (Bool-cases (equal j k)) [
  | inl t ↦ cc (u, less_eq_self k, (equal_iff j k).0 t)
  | inr f ↦ f
]

pub start_test :
    (k : Bytes) (c : Cell)
    → CellFits c
    → less_eq (mvcc_encode k lock_ver) (encode_cell c).key ≡ less_eq k (key_of c)
unfolding less_eq
start_test k c h = ground (
  arith,
  cmp-mvcc_encode k (key_of c) lock_ver (ver_of c) (omega arith) (ver-IsU64 c h),
  ver-le c h,
)

pub lock_of-from : (k : Bytes) (cs : List Cell) → lock_of k (from k cs) ≡ lock_of k cs
unfolding lock_of from
lock_of-from k [] = refl
lock_of-from k (lock_cell j l ∷ cs) = elim (Bool-cases (less_eq k j)) [
  | inl t ↦ rw t (ground (arith, lock_of-from k cs))
  | inr u ↦ rw (u, other_key k j u) (lock_of-from k cs)
]
lock_of-from k (value_cell j v ∷ cs) = elim (Bool-cases (less_eq k j)) [
  | inl t ↦ rw t (lock_of-from k cs)
  | inr u ↦ rw u (lock_of-from k cs)
]

pub values_of-from : (k : Bytes) (cs : List Cell) → values_of k (from k cs) ≡ values_of k cs
unfolding values_of from
values_of-from k [] = refl
values_of-from k (lock_cell j l ∷ cs) = elim (Bool-cases (less_eq k j)) [
  | inl t ↦ rw t (values_of-from k cs)
  | inr u ↦ rw u (values_of-from k cs)
]
values_of-from k (value_cell j v ∷ cs) = elim (Bool-cases (less_eq k j)) [
  | inl t ↦ rw t (ground (arith, values_of-from k cs))
  | inr u ↦ rw (u, other_key k j u) (values_of-from k cs)
]

-- What the iterator of a key shows
pub in_range-from :
    (k : Bytes) (cs : List Cell)
    → All CellFits cs
    → in_range (record { start = some (mvcc_encode k lock_ver); limit = none }) (map encode_cell cs)
      ≡ map encode_cell (from k cs)
unfolding in_range from
in_range-from k [] h = refl
in_range-from k (c ∷ cs) h = rw (start_test k c h.0) (ground (arith, in_range-from k cs h.1))

pub from-fit : (k : Bytes) (cs : List Cell) → All CellFits cs → All CellFits (from k cs)
unfolding from
from-fit k [] h = tt
from-fit k (c ∷ cs) h = elim (Bool-cases (less_eq k (key_of c))) [
  | inl t ↦ rw t (h.0, from-fit k cs h.1)
  | inr u ↦ rw u (from-fit k cs h.1)
]

-- ===== src/Mvcc/Cells/View.antt =====
-- The lock and the values of each key after one operation on the cells.
use Prim.Native.Nat.{compare}
use mock_tikv.Prelude.{
  Ordering, ◌≡◌, ◌<◌, refl, none, some, List, [], ◌∷◌, Bytes, All, if◌then◌else◌, arith,
}
use mock_tikv.Bytes.{cmp, equal}
use mock_tikv.Bytes.Order.{cmp_self, cmp-eq, equal_iff}
use mock_tikv.Key.{lock_ver}
use mock_tikv.Marshal.{MvccLock, MvccValue}
use mock_tikv.Mvcc.Cells.{
  Cell, lock_cell, value_cell, key_of, CellFits, InOrder, lock_of, values_of,
}
use mock_tikv.Mvcc.Cells.Shape.{Beyond-after, Values-after}
use mock_tikv.Mvcc.Cells.Read.{values_of-Beyond, lock_of-Values}
use mock_tikv.Mvcc.Cells.Change.{put_cell, drop_lock}

-- A value put among the values of its key, newest first; it replaces one of its timestamp.
unfoldable pub put_version : MvccValue → List MvccValue → List MvccValue
put_version v [] = v ∷ []
put_version v (w ∷ ws) =
    let rest = put_version v ws in
    elim (compare w.commit_ts v.commit_ts) [
      | Ordering.lt ↦ v ∷ w ∷ ws
      | Ordering.eq ↦ v ∷ ws
      | Ordering.gt ↦ w ∷ rest
    ]

pub lock_of-put_lock :
    (j k : Bytes) (l : MvccLock) (cs : List Cell)
    → All CellFits cs
    → lock_of j (put_cell (lock_cell k l) cs) ≡ (if equal k j then some l else lock_of j cs)
unfolding lock_of put_cell
lock_of-put_lock j k l [] h = refl
lock_of-put_lock j k l (lock_cell i m ∷ cs) h = ground (
  arith,
  lock_of-put_lock j k l cs h.1,
  cmp-eq k i,
  cmp_self i,
  equal_iff k j,
  equal_iff i j,
  equal_iff k i,
)
lock_of-put_lock j k l (value_cell i w ∷ cs) h =
    ground (arith, lock_of-put_lock j k l cs h.1, cmp-eq k i, h.0.1)

pub values_of-put_lock :
    (j k : Bytes) (l : MvccLock) (cs : List Cell)
    → All CellFits cs
    → values_of j (put_cell (lock_cell k l) cs) ≡ values_of j cs
unfolding values_of put_cell
values_of-put_lock j k l [] h = refl
values_of-put_lock j k l (lock_cell i m ∷ cs) h = ground (arith, values_of-put_lock j k l cs h.1)
values_of-put_lock j k l (value_cell i w ∷ cs) h =
    ground (arith, values_of-put_lock j k l cs h.1, h.0.1)

pub lock_of-put_value :
    (j k : Bytes) (v : MvccValue) (cs : List Cell)
    → v.commit_ts < lock_ver
    → lock_of j (put_cell (value_cell k v) cs) ≡ lock_of j cs
unfolding lock_of put_cell
lock_of-put_value j k v [] h = refl
lock_of-put_value j k v (lock_cell i m ∷ cs) h = ground (arith, lock_of-put_value j k v cs h)
lock_of-put_value j k v (value_cell i w ∷ cs) h = ground (arith, lock_of-put_value j k v cs h)

-- Nothing of `k` stands behind a key above it.
values_behind :
    (k : Bytes) (c : Cell) (cs : List Cell)
    → cmp k (key_of c) ≡ Ordering.lt
    → InOrder (c ∷ cs)
    → values_of k cs ≡ []
values_behind k c cs h o = values_of-Beyond k cs (Beyond-after k c cs h o.0)

pub values_of-put_value :
    (j k : Bytes) (v : MvccValue) (cs : List Cell)
    → All CellFits cs
    → InOrder cs
    → v.commit_ts < lock_ver
    → values_of j (put_cell (value_cell k v) cs)
      ≡ (if equal k j then put_version v (values_of j cs) else values_of j cs)
unfolding values_of put_cell put_version
values_of-put_value j k v [] h o b = ground arith
values_of-put_value j k v (lock_cell i m ∷ cs) h o b = ground (
  arith,
  values_of-put_value j k v cs h.1 o.1 b,
  values_behind k (lock_cell i m) cs,
  cmp-eq k i,
  equal_iff k j,
)
values_of-put_value j k v (value_cell i w ∷ cs) h o b = ground (
  arith,
  values_of-put_value j k v cs h.1 o.1 b,
  values_behind k (value_cell i w) cs,
  cmp-eq k i,
  cmp_self k,
  equal_iff k j,
  equal_iff i j,
)

no_other_lock :
    (k : Bytes) (l : MvccLock) (cs : List Cell) → InOrder (lock_cell k l ∷ cs) → lock_of k cs ≡ none
no_other_lock k l cs o =
    lock_of-Values k cs (Values-after k (lock_cell k l) cs refl (omega arith) o.0 o.1)

-- A key has one lock at most.
pub lock_of-drop_lock :
    (j k : Bytes) (cs : List Cell)
    → All CellFits cs
    → InOrder cs
    → lock_of j (drop_lock k cs) ≡ (if equal k j then none else lock_of j cs)
unfolding lock_of drop_lock
lock_of-drop_lock j k [] h o = ground arith
lock_of-drop_lock j k (lock_cell i m ∷ cs) h o = ground (
  arith,
  lock_of-drop_lock j k cs h.1 o.1,
  no_other_lock i m cs o,
  equal_iff k j,
  equal_iff i j,
  equal_iff i k,
)
lock_of-drop_lock j k (value_cell i w ∷ cs) h o = lock_of-drop_lock j k cs h.1 o.1

pub values_of-drop_lock :
    (j k : Bytes) (cs : List Cell) → values_of j (drop_lock k cs) ≡ values_of j cs
unfolding values_of drop_lock
values_of-drop_lock j k [] = refl
values_of-drop_lock j k (lock_cell i m ∷ cs) = ground (arith, values_of-drop_lock j k cs)
values_of-drop_lock j k (value_cell i w ∷ cs) = ground (arith, values_of-drop_lock j k cs)

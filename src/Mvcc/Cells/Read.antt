-- ===== src/Mvcc/Cells/Read.antt =====
-- What the decoders of the iterator read, in terms of the lock and the values of the key.
use mock_tikv.Prelude.{
  ℕ, Ordering, ◌≡◌, inl, inr, refl, ap, ◌∙◌, true, false, Option, none, some, List, [], ◌∷◌, map,
  Bytes, All, if◌then◌else◌, arith, leb, ◌==◌, Bool-cases,
}
use mock_tikv.Errors.{Result, ok, err, ◌>>=◌}
use mock_tikv.Bytes.{cmp, equal}
use mock_tikv.Bytes.Order.{cmp_self, equal_iff}
use mock_tikv.Key.{mvcc_decode}
use mock_tikv.Key.Laws.{mvcc_decode-mvcc_encode}
use mock_tikv.Marshal.{MvccLock, MvccValue, type_rollback, type_delete}
use mock_tikv.Marshal.RoundTrip.{unmarshal_lock-marshal_lock, unmarshal_value-marshal_value}
use mock_tikv.Entry.{IsolationLevel, get_txn_commit_info}
use mock_tikv.Engine.{Engine, EngineLaws}
use mock_tikv.Mvcc.{
  lock_at, value_at, lock_decode, value_loop, value_from, value_after, value_of, lock_ts,
  txn_commit_info, key_iter, get,
}
use mock_tikv.Mvcc.Cells.{
  Cell, lock_cell, value_cell, key_of, ver_of, encode_cell, CellFits, Holds, lock_of, values_of,
  from, Beyond, Values, Entry,
}
use mock_tikv.Mvcc.Cells.Shape.{
  in_range-from, from-Entry, in_order, lock_of-from, values_of-from, ver-IsU64, from-fit,
}

pub decode_key : (c : Cell) → CellFits c → mvcc_decode (encode_cell c).key ≡ ok (key_of c, ver_of c)
decode_key c h = mvcc_decode-mvcc_encode (key_of c) (ver_of c) (ver-IsU64 c h)

no_min : (l : MvccLock) → l.min_commit_ts ≡ 0 → record l { min_commit_ts = 0 } ≡ l
no_min l h = ground (arith, h)

lock_at-lock_cell :
    (k j : Bytes) (l : MvccLock)
    → CellFits (lock_cell j l)
    → lock_at k (encode_cell (lock_cell j l)) ≡ ok (if equal j k then some l else none)
unfolding lock_at
lock_at-lock_cell k j l h =
    rw (decode_key (lock_cell j l) h, unmarshal_lock-marshal_lock l h.0, no_min l h.1)
      (ground arith)

lock_at-value_cell :
    (k j : Bytes) (v : MvccValue)
    → CellFits (value_cell j v)
    → lock_at k (encode_cell (value_cell j v)) ≡ ok none
unfolding lock_at
lock_at-value_cell k j v h = rw (decode_key (value_cell j v) h) (ground arith)

pub value_at-lock_cell :
    (k j : Bytes) (l : MvccLock)
    → CellFits (lock_cell j l)
    → value_at k (encode_cell (lock_cell j l)) ≡ ok none
unfolding value_at
value_at-lock_cell k j l h = rw (decode_key (lock_cell j l) h) (ground arith)

pub value_at-value_cell :
    (k j : Bytes) (v : MvccValue)
    → CellFits (value_cell j v)
    → value_at k (encode_cell (value_cell j v)) ≡ ok (if equal j k then some v else none)
unfolding value_at
value_at-value_cell k j v h =
    rw (decode_key (value_cell j v) h, unmarshal_value-marshal_value v h.0) (ground arith)

pub ne_of_lt : (k j : Bytes) → cmp k j ≡ Ordering.lt → equal j k ≡ false
ne_of_lt k j h = elim (Bool-cases (equal j k)) [
  | inl t ↦ cc (h, cmp_self k, (equal_iff j k).0 t)
  | inr f ↦ f
]

pub eq_self : (k j : Bytes) → j ≡ k → equal j k ≡ true
eq_self k j e = (equal_iff j k).1 e

pub lock_of-Beyond : (k : Bytes) (cs : List Cell) → Beyond k cs → lock_of k cs ≡ none
unfolding lock_of
lock_of-Beyond k [] b = refl
lock_of-Beyond k (lock_cell j l ∷ cs) b = rw (ne_of_lt k j b.0) (lock_of-Beyond k cs b.1)
lock_of-Beyond k (value_cell j v ∷ cs) b = lock_of-Beyond k cs b.1

pub values_of-Beyond : (k : Bytes) (cs : List Cell) → Beyond k cs → values_of k cs ≡ []
unfolding values_of
values_of-Beyond k [] b = refl
values_of-Beyond k (lock_cell j l ∷ cs) b = values_of-Beyond k cs b.1
values_of-Beyond k (value_cell j v ∷ cs) b = rw (ne_of_lt k j b.0) (values_of-Beyond k cs b.1)

pub lock_of-Values : (k : Bytes) (cs : List Cell) → Values k cs → lock_of k cs ≡ none
unfolding lock_of
lock_of-Values k [] v = refl
lock_of-Values k (lock_cell j l ∷ cs) b = unfold lock_of in lock_of-Beyond k (lock_cell j l ∷ cs) b
lock_of-Values k (value_cell j w ∷ cs) (inl (e, v)) = lock_of-Values k cs v
lock_of-Values k (value_cell j w ∷ cs) (inr b) = lock_of-Beyond k cs b.1

-- What is left of the cells of `k` behind its lock
unfoldable pub unlocked : Bytes → List Cell → List Cell
unlocked k [] = []
unlocked k (lock_cell j l ∷ cs) = if equal j k then cs else lock_cell j l ∷ cs
unlocked k (value_cell j v ∷ cs) = value_cell j v ∷ cs

pub lock_decode-cells :
    (k : Bytes) (cs : List Cell)
    → All CellFits cs
    → Entry k cs
    → lock_decode k (map encode_cell cs, none)
      ≡ ok (lock_of k cs, (map encode_cell (unlocked k cs), none))
unfolding lock_decode lock_of unlocked
lock_decode-cells k [] h e = refl
lock_decode-cells k (lock_cell j l ∷ cs) h (inl (e, v)) =
    rw (lock_at-lock_cell k j l h.0, eq_self k j e)
lock_decode-cells k (lock_cell j l ∷ cs) h (inr b) =
    rw (lock_at-lock_cell k j l h.0, ne_of_lt k j b.0, lock_of-Beyond k cs b.1)
lock_decode-cells k (value_cell j v ∷ cs) h (inl (e, vs)) =
    rw (lock_at-value_cell k j v h.0, lock_of-Values k cs vs)
lock_decode-cells k (value_cell j v ∷ cs) h (inr b) =
    rw (lock_at-value_cell k j v h.0, lock_of-Beyond k cs b.1)

pub unlocked-Values : (k : Bytes) (cs : List Cell) → Entry k cs → Values k (unlocked k cs)
unfolding unlocked
unlocked-Values k [] e = tt
unlocked-Values k (lock_cell j l ∷ cs) (inl (e, v)) = rw (eq_self k j e) v
unlocked-Values k (lock_cell j l ∷ cs) (inr b) = rw (ne_of_lt k j b.0) b
unlocked-Values k (value_cell j v ∷ cs) e = e

pub unlocked-fit : (k : Bytes) (cs : List Cell) → All CellFits cs → All CellFits (unlocked k cs)
unfolding unlocked
unlocked-fit k [] h = tt
unlocked-fit k (lock_cell j l ∷ cs) h = elim (Bool-cases (equal j k)) [
  | inl t ↦ rw t h.1
  | inr f ↦ rw f h
]
unlocked-fit k (value_cell j v ∷ cs) h = h

pub values_of-unlocked : (k : Bytes) (cs : List Cell) → values_of k (unlocked k cs) ≡ values_of k cs
unfolding unlocked values_of
values_of-unlocked k [] = refl
values_of-unlocked k (lock_cell j l ∷ cs) = ground arith
values_of-unlocked k (value_cell j v ∷ cs) = refl

-- The first value that is no rollback record and not newer than `ts`; a deletion shows as nil.
unfoldable pub visible : ℕ → List MvccValue → Option Bytes
visible ts [] = none
visible ts (v ∷ vs) =
    if v.value_type == type_rollback
    then visible ts vs
    else if leb v.commit_ts ts
    then (if v.value_type == type_delete then none else some v.value)
    else visible ts vs

value_loop-cells :
    (k : Bytes) (ts : ℕ) (cs : List Cell)
    → All CellFits cs
    → Values k cs
    → (value_loop k ts (map encode_cell cs) none).1 ≡ ok (visible ts (values_of k cs))
unfolding value_loop values_of visible
value_loop-cells k ts [] h v = refl
value_loop-cells k ts (lock_cell j l ∷ cs) h b =
    rw (value_at-lock_cell k j l h.0, value_loop, values_of-Beyond k cs b.1)
value_loop-cells k ts (value_cell j w ∷ cs) h (inl (e, v)) =
    rw (value_at-value_cell k j w h.0, eq_self k j e, value_loop)
      (ground (arith, value_loop-cells k ts cs h.1 v))
value_loop-cells k ts (value_cell j w ∷ cs) h (inr b) =
    rw (value_at-value_cell k j w h.0, ne_of_lt k j b.0, value_loop, values_of-Beyond k cs b.1)

pub txn_commit_info-cells :
    (k : Bytes) (start_ts : ℕ) (cs : List Cell)
    → All CellFits cs
    → Values k cs
    → txn_commit_info k start_ts (map encode_cell cs)
      ≡ ok (get_txn_commit_info (values_of k cs) start_ts)
unfolding txn_commit_info values_of get_txn_commit_info
txn_commit_info-cells k s [] h v = refl
txn_commit_info-cells k s (lock_cell j l ∷ cs) h b =
    rw (value_at-lock_cell k j l h.0, values_of-Beyond k cs b.1)
txn_commit_info-cells k s (value_cell j w ∷ cs) h (inl (e, v)) =
    rw (value_at-value_cell k j w h.0, eq_self k j e)
      (ground (arith, txn_commit_info-cells k s cs h.1 v))
txn_commit_info-cells k s (value_cell j w ∷ cs) h (inr b) =
    rw (value_at-value_cell k j w h.0, ne_of_lt k j b.0, values_of-Beyond k cs b.1)

-- Get on a lock and a list of values
unfoldable pub view_get :
    Option MvccLock → List MvccValue → Bytes → ℕ → IsolationLevel → Result (Option Bytes)
unfolding visible lock_ts
view_get lock values key ts iso = do ts' ← lock_ts lock ts key iso; ok (visible ts' values)

value_from-cells :
    (r : Result ℕ) (k : Bytes) (cs : List Cell)
    → All CellFits cs
    → Values k cs
    → (value_from r k (map encode_cell cs, none)).1 ≡ (do ts ← r; ok (visible ts (values_of k cs)))
unfolding value_from
value_from-cells (ok ts) k cs h v = value_loop-cells k ts cs h v
value_from-cells (err x) k cs h v = refl

pub value_of-cells :
    (cs : List Cell) (k : Bytes) (ts : ℕ) (iso : IsolationLevel)
    → All CellFits cs
    → Entry k cs
    → (value_of (map encode_cell cs, none) k ts iso).1
      ≡ view_get (lock_of k cs) (values_of k cs) k ts iso
unfolding value_of value_after view_get
value_of-cells cs k ts iso fit shape = rw (lock_decode-cells k cs fit shape) (
    value_from-cells (lock_ts (lock_of k cs) ts k iso) k (unlocked k cs) (unlocked-fit k cs fit)
      (unlocked-Values k cs shape)
    ∙ rw (values_of-unlocked k cs))

module _ (e : Engine) (laws : EngineLaws e) where
  pub key_iter-cells :
      (db : e.Db) (cells : List Cell) (k : Bytes)
      → Holds e db cells
      → key_iter e db k ≡ (map encode_cell (from k cells), none)
  key_iter-cells db cells k h = laws.iterate_lem db _ ∙ rw (h.stored, in_range-from k cells h.fit)

  pub Entry-cells :
      (db : e.Db) (cells : List Cell) (k : Bytes) → Holds e db cells → Entry k (from k cells)
  Entry-cells db cells k h =
      from-Entry k cells h.fit (in_order cells h.fit (rw h.stored at (laws.sorted db)))

  -- Get reads the lock and the values of its key: it checks the lock as `lock_ts` does, and
  -- returns the first value of the key that is no rollback record and not newer, and nil if that
  -- is a deletion or there is none. The engine keeps its laws, and the database holds cells that
  -- can be stored and read back.
  pub get-view :
      (db : e.Db) (cells : List Cell)
      → Holds e db cells
      → (key : Bytes) (ts : ℕ) (iso : IsolationLevel)
      → get e db key ts iso ≡ view_get (lock_of key cells) (values_of key cells) key ts iso
  unfolding get
  get-view db cells h key ts iso =
      ap (λ it. (value_of it key ts iso).1) (key_iter-cells db cells key h)
      ∙ value_of-cells (from key cells) key ts iso (from-fit key cells h.fit)
          (Entry-cells db cells key h)
      ∙ rw (lock_of-from key cells, values_of-from key cells)

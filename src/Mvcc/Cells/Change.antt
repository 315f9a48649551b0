-- ===== src/Mvcc/Cells/Change.antt =====
-- What a batch of the MVCC operations does to the cells.
use mock_tikv.Prelude.{
  Ordering, ◌≡◌, ◌<◌, inl, inr, refl, ap, ◌∙◌, false, List, [], ◌∷◌, map, Bytes, All, if◌then◌else◌,
  arith, Bool-cases,
}
use mock_tikv.Bytes.{cmp, equal}
use mock_tikv.Key.{mvcc_encode, lock_ver}
use mock_tikv.Key.Laws.{cmp-mvcc_encode}
use mock_tikv.Marshal.{MvccLock, MvccValue}
use mock_tikv.Engine.{BatchOp, put, delete, put_item, delete_item, apply_batch, Engine, EngineLaws}
use mock_tikv.Mvcc.Cells.{
  Cell, lock_cell, value_cell, payload_of, encode_cell, CellFits, Holds, order,
}
use mock_tikv.Mvcc.Cells.Shape.{cmp-encode_cell}

-- The cells with one more, which replaces a cell of the same key and version.
unfoldable pub put_cell : Cell → List Cell → List Cell
put_cell c [] = c ∷ []
put_cell c (d ∷ ds) =
    let rest = put_cell c ds in
    elim (order c d) [ Ordering.lt ↦ c ∷ d ∷ ds | Ordering.eq ↦ c ∷ ds | Ordering.gt ↦ d ∷ rest ]

-- The cells without the lock of a key
unfoldable pub drop_lock : Bytes → List Cell → List Cell
drop_lock k [] = []
drop_lock k (lock_cell j l ∷ cs) = if equal j k then cs else lock_cell j l ∷ drop_lock k cs
drop_lock k (value_cell j v ∷ cs) = value_cell j v ∷ drop_lock k cs

-- The operations of a batch, on cells
pub data CellOp : Type 0 where
  store : Cell → CellOp
  unlock : Bytes → CellOp

abbrev pub encode_op : CellOp → BatchOp
encode_op (store c) = put (encode_cell c).key (payload_of c)
encode_op (unlock k) = delete (mvcc_encode k lock_ver)

abbrev pub OpFits : CellOp → Type 0
OpFits (store c) = CellFits c
OpFits (unlock k) = Unit

unfoldable pub apply_cells : List CellOp → List Cell → List Cell
unfolding put_cell drop_lock
apply_cells [] cells = cells
apply_cells (store c ∷ ops) cells = apply_cells ops (put_cell c cells)
apply_cells (unlock k ∷ ops) cells = apply_cells ops (drop_lock k cells)

put_item-cells :
    (c : Cell) (cs : List Cell)
    → CellFits c
    → All CellFits cs
    → put_item (encode_cell c).key (payload_of c) (map encode_cell cs)
      ≡ map encode_cell (put_cell c cs)
unfolding put_item put_cell
put_item-cells c [] h hs = refl
put_item-cells c (d ∷ ds) h hs =
    go (order c d) refl (cmp-encode_cell c d h hs.0) (put_item-cells c ds h hs.1)
  where
    go :
        (o : Ordering)
        → order c d ≡ o
        → cmp (encode_cell c).key (encode_cell d).key ≡ order c d
        → put_item (encode_cell c).key (payload_of c) (map encode_cell ds)
          ≡ map encode_cell (put_cell c ds)
        → put_item (encode_cell c).key (payload_of c) (map encode_cell (d ∷ ds))
          ≡ map encode_cell (put_cell c (d ∷ ds))
    go Ordering.lt e q r = rw (q ∙ e, e, put_item, put_cell)
    go Ordering.eq e q r = rw (q ∙ e, e, put_item, put_cell)
    go Ordering.gt e q r = rw (q ∙ e, e, put_item, put_cell) (ap (λ t. encode_cell d ∷ t) r)

put_cell-fit :
    (c : Cell) (cs : List Cell) → CellFits c → All CellFits cs → All CellFits (put_cell c cs)
unfolding put_cell
put_cell-fit c [] h hs = (h, tt)
put_cell-fit c (d ∷ ds) h hs = go (order c d) refl (put_cell-fit c ds h hs.1)
  where
    go :
        (o : Ordering)
        → order c d ≡ o
        → All CellFits (put_cell c ds)
        → All CellFits (put_cell c (d ∷ ds))
    go Ordering.lt e r = rw (e, put_cell) (h, hs)
    go Ordering.eq e r = rw (e, put_cell) (h, hs.1)
    go Ordering.gt e r = rw (e, put_cell) (hs.0, r)

lock_key_test :
    (k j : Bytes) (l : MvccLock)
    → equal (encode_cell (lock_cell j l)).key (mvcc_encode k lock_ver) ≡ equal j k
unfolding equal
lock_key_test k j l =
    ground (arith, cmp-mvcc_encode j k lock_ver lock_ver (omega arith) (omega arith))

value_key_test :
    (k j : Bytes) (v : MvccValue)
    → v.commit_ts < lock_ver
    → equal (encode_cell (value_cell j v)).key (mvcc_encode k lock_ver) ≡ false
unfolding equal
value_key_test k j v h =
    ground (arith, cmp-mvcc_encode j k v.commit_ts lock_ver (omega arith) (omega arith))

delete_item-cells :
    (k : Bytes) (cs : List Cell)
    → All CellFits cs
    → delete_item (mvcc_encode k lock_ver) (map encode_cell cs) ≡ map encode_cell (drop_lock k cs)
unfolding delete_item drop_lock
delete_item-cells k [] h = refl
delete_item-cells k (lock_cell j l ∷ cs) h =
    rw (lock_key_test k j l) (ground (arith, delete_item-cells k cs h.1))
delete_item-cells k (value_cell j v ∷ cs) h =
    rw (value_key_test k j v h.0.1)
      (ap (λ t. encode_cell (value_cell j v) ∷ t) (delete_item-cells k cs h.1))

drop_lock-fit : (k : Bytes) (cs : List Cell) → All CellFits cs → All CellFits (drop_lock k cs)
unfolding drop_lock
drop_lock-fit k [] h = tt
drop_lock-fit k (lock_cell j l ∷ cs) h = elim (Bool-cases (equal j k)) [
  | inl t ↦ rw t h.1
  | inr f ↦ rw f (h.0, drop_lock-fit k cs h.1)
]
drop_lock-fit k (value_cell j v ∷ cs) h = (h.0, drop_lock-fit k cs h.1)

apply_batch-cells :
    (ops : List CellOp) (cs : List Cell)
    → All OpFits ops
    → All CellFits cs
    → apply_batch (map encode_op ops) (map encode_cell cs) ≡ map encode_cell (apply_cells ops cs)
unfolding apply_batch apply_cells
apply_batch-cells [] cs ho h = refl
apply_batch-cells (store c ∷ ops) cs ho h =
    ap (apply_batch (map encode_op ops)) (put_item-cells c cs ho.0 h)
    ∙ apply_batch-cells ops (put_cell c cs) ho.1 (put_cell-fit c cs ho.0 h)
apply_batch-cells (unlock k ∷ ops) cs ho h =
    ap (apply_batch (map encode_op ops)) (delete_item-cells k cs h)
    ∙ apply_batch-cells ops (drop_lock k cs) ho.1 (drop_lock-fit k cs h)

apply_cells-fit :
    (ops : List CellOp) (cs : List Cell)
    → All OpFits ops
    → All CellFits cs
    → All CellFits (apply_cells ops cs)
unfolding apply_cells
apply_cells-fit [] cs ho h = h
apply_cells-fit (store c ∷ ops) cs ho h =
    apply_cells-fit ops (put_cell c cs) ho.1 (put_cell-fit c cs ho.0 h)
apply_cells-fit (unlock k ∷ ops) cs ho h =
    apply_cells-fit ops (drop_lock k cs) ho.1 (drop_lock-fit k cs h)

-- A batch of encoded operations, written to the engine, changes the cells as the operations say.
pub write-Holds :
    (e : Engine)
    → EngineLaws e
    → (db : e.Db) (cells : List Cell) (ops : List CellOp) → Holds e db cells
    → All OpFits ops
    → Holds e (e.write db (map encode_op ops)).0 (apply_cells ops cells)
write-Holds e laws db cells ops h ho = record {
  stored =
      laws.write_contents db (map encode_op ops)
      ∙ ap (apply_batch (map encode_op ops)) h.stored
      ∙ apply_batch-cells ops cells ho h.fit;
  fit = apply_cells-fit ops cells ho h.fit;
}

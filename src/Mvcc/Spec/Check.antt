-- ===== src/Mvcc/Spec/Check.antt =====
-- What CheckTxnStatus of MVCCLevelDB answers, and what it does to the cells.
use mock_tikv.Prelude.{
  ℕ, ◌≡◌, ◌<◌, refl, sym, ap, ◌∙◌, inl, inr, false, not, Option, none, some, List, [], ◌∷◌, map,
  Bytes, All, ◌==◌, if◌then◌else◌, arith, Bool-cases,
}
use mock_tikv.Errors.{Error, Result, ok}
use mock_tikv.Bytes.{equal}
use mock_tikv.Bytes.Order.{equal_iff}
use mock_tikv.Key.{lock_ver}
use mock_tikv.Marshal.{MvccLock, MvccValue, type_rollback, marshal_lock}
use mock_tikv.Entry.{tomb, get_txn_commit_info}
use mock_tikv.Engine.{Engine, EngineLaws}
use mock_tikv.Mvcc.Write.{own_lock}
use mock_tikv.Mvcc.Status.{
  is_outdated, push_min_commit_ts, answered, check_locked, check_unlocked, check_owned, check_iter,
  check_txn_status,
}
use mock_tikv.Mvcc.Cells.{
  Cell, lock_cell, value_cell, encode_cell, CellFits, lock_of, values_of, from, Holds, Values,
  Entry,
}
use mock_tikv.Mvcc.Cells.Shape.{lock_of-from, values_of-from, from-fit}
use mock_tikv.Mvcc.Cells.Read.{
  unlocked, lock_decode-cells, unlocked-Values, unlocked-fit, values_of-unlocked,
  txn_commit_info-cells, key_iter-cells, Entry-cells,
}
use mock_tikv.Mvcc.Cells.Change.{CellOp, store, unlock, encode_op, OpFits, apply_cells, write-Holds}
use mock_tikv.Mvcc.Cells.Effect.{View, view_of, view_op, view_ops, view_of-apply_cells}
use mock_tikv.Mvcc.Spec.Fit.{tomb-fit}

-- The commit timestamp of the record of a transaction, 0 if it is no commit
abbrev pub commit_ts_of : Option MvccValue → ℕ
commit_ts_of none = 0
commit_ts_of (some c) = if not (c.value_type == type_rollback) then c.commit_ts else 0

-- The answer and the operations, from the transaction's lock and the values of the key: an outdated
-- lock is rolled back, and one that lives is stored again.
unfoldable pub spec_check : Option MvccLock → List MvccValue → Bytes → ℕ → ℕ → (ℕ × ℕ) × List CellOp
unfolding is_outdated
spec_check (some l) values key lock_ts current_ts =
    if is_outdated l current_ts
    then ((0, 0), store (value_cell key (tomb lock_ts)) ∷ unlock key ∷ [])
    else ((l.ttl, 0), store (lock_cell key l) ∷ [])
spec_check none values key lock_ts current_ts =
    ((0, commit_ts_of (get_txn_commit_info values lock_ts)), [])

abbrev LockCellOk : Option MvccLock → Bytes → Type 0
LockCellOk none k = Unit
LockCellOk (some l) k = CellFits (lock_cell k l)

own_cell-fit :
    (o : Option MvccLock) (k : Bytes) (ts : ℕ) → LockCellOk o k → LockCellOk (own_lock o ts) k
unfolding own_lock
own_cell-fit none k ts h = tt
own_cell-fit (some l) k ts h = elim (Bool-cases (l.start_ts == ts)) [
  | inl t ↦ rw t h
  | inr u ↦ rw u tt
]

lock_cell-fit :
    (k j : Bytes) (cells : List Cell) → All CellFits cells → LockCellOk (lock_of k cells) j
unfolding lock_of
lock_cell-fit k j [] h = tt
lock_cell-fit k j (lock_cell i l ∷ cs) h = elim (Bool-cases (equal i k)) [
  | inl t ↦ rw t h.0
  | inr u ↦ rw u (lock_cell-fit k j cs h.1)
]
lock_cell-fit k j (value_cell i v ∷ cs) h = lock_cell-fit k j cs h.1

module _ (e : Engine) (laws : EngineLaws e) where
  check_unlocked_lem : (o : Option MvccValue) → check_unlocked e (ok o) ≡ ok (0, commit_ts_of o)
  check_unlocked_lem none = refl
  check_unlocked_lem (some c) = elim (Bool-cases (c.value_type == type_rollback)) [
    | inl t ↦ rw t refl
    | inr u ↦ rw u refl
  ]

  answered_ok :
      (w : e.Db × Option Error) (ttl commit_ts : ℕ)
      → w.1 ≡ none
      → answered e w ttl commit_ts ≡ (w.0, ok (ttl, commit_ts))
  answered_ok (db, none) ttl commit_ts q = refl
  answered_ok (db, some x) ttl commit_ts q = cc

  -- The call answers so, and has changed the cells so.
  abbrev pub Does : List Cell → e.Db × Result (ℕ × ℕ) → (ℕ × ℕ) × List CellOp → Type 0
  Does cells w s = (w.1 ≡ ok s.0) × Holds e w.0 (apply_cells s.1 cells)

  answered-Does :
      (db : e.Db) (cells : List Cell) (ops : List CellOp) (ttl commit_ts : ℕ)
      → Holds e db cells
      → All OpFits ops
      → Does cells
          (answered e (e.write db (map encode_op ops)) ttl commit_ts)
          ((ttl, commit_ts), ops)
  answered-Does db cells ops ttl commit_ts h f =
      rw
        (answered_ok (e.write db (map encode_op ops)) ttl commit_ts
          (laws.write_ok db (map encode_op ops)))
        (refl, write-Holds e laws db cells ops h f)

  -- A lock that is pushed is stored as it was: MarshalBinary leaves minCommitTS out.
  marshal_lock-push :
      (l : MvccLock) (caller_start_ts current_ts : ℕ)
      → marshal_lock (push_min_commit_ts l caller_start_ts current_ts) ≡ marshal_lock l
  unfolding marshal_lock push_min_commit_ts
  marshal_lock-push l caller_start_ts current_ts = refl

  check_owned-Does :
      (db : e.Db) (cells : List Cell) (o : Option MvccLock) (rest : List Cell) (k : Bytes)
      (lock_ts caller_start_ts current_ts : ℕ)
      → Holds e db cells
      → LockCellOk o k
      → All CellFits rest
      → Values k rest
      → lock_ts < lock_ver
      → Does cells
          (check_owned e db o (map encode_cell rest) k lock_ts caller_start_ts current_ts)
          (spec_check o (values_of k rest) k lock_ts current_ts)
  unfolding check_owned spec_check
  check_owned-Does db cells none rest k lock_ts caller_start_ts current_ts h ho hr v hl = (
    ap (check_unlocked e) (txn_commit_info-cells k lock_ts rest hr v)
        ∙ check_unlocked_lem (get_txn_commit_info (values_of k rest) lock_ts),
    unfold apply_cells in h,
  )
  check_owned-Does db cells (some l) rest k lock_ts caller_start_ts current_ts h ho hr v hl =
      elim (Bool-cases (is_outdated l current_ts)) [
        | inl t ↦
            rw (check_locked, t)
              (answered-Does db cells (store (value_cell k (tomb lock_ts)) ∷ unlock k ∷ []) 0 0 h
                (tomb-fit k lock_ts hl, (tt, tt)))
        | inr u ↦
            rw (check_locked, u, marshal_lock-push l caller_start_ts current_ts)
              (answered-Does db cells (store (lock_cell k l) ∷ []) l.ttl 0 h (ho, tt))
      ]

  check_iter-Does :
      (db : e.Db) (cells : List Cell) (cs : List Cell) (k : Bytes)
      (lock_ts caller_start_ts current_ts : ℕ)
      → Holds e db cells
      → LockCellOk (own_lock (lock_of k cs) lock_ts) k
      → All CellFits cs
      → Entry k cs
      → lock_ts < lock_ver
      → Does cells
          (check_iter e db (map encode_cell cs, none) k lock_ts caller_start_ts current_ts)
          (spec_check (own_lock (lock_of k cs) lock_ts) (values_of k cs) k lock_ts current_ts)
  unfolding check_iter
  check_iter-Does db cells [] k lock_ts caller_start_ts current_ts h ho hr v hl =
      unfold lock_of values_of own_lock spec_check get_txn_commit_info apply_cells in (refl, h)
  check_iter-Does db cells (c ∷ cs) k lock_ts caller_start_ts current_ts h ho hr v hl =
      rw (lock_decode-cells k (c ∷ cs) hr v, ← values_of-unlocked k (c ∷ cs))
        (check_owned-Does db cells (own_lock (lock_of k (c ∷ cs)) lock_ts) (unlocked k (c ∷ cs)) k
          lock_ts caller_start_ts current_ts h ho (unlocked-fit k (c ∷ cs) hr)
          (unlocked-Values k (c ∷ cs) v) hl)

  -- CheckTxnStatus answers by the lock and the values of the primary key before the call. A lock
  -- of the transaction that is outdated is rolled back; one that lives is stored again as it was,
  -- with its ttl for an answer; and without the lock the answer is the commit timestamp of the
  -- transaction's record, or 0, and nothing changes. The start timestamp is below lockVer. The
  -- engine keeps its laws, and the database holds cells that can be stored and read back.
  pub check_txn_status-Does :
      (db : e.Db) (cells : List Cell)
      → Holds e db cells
      → (primary_key : Bytes) (lock_ts caller_start_ts current_ts : ℕ) → lock_ts < lock_ver
      → Does cells (check_txn_status e db primary_key lock_ts caller_start_ts current_ts) (
          spec_check
            (own_lock (lock_of primary_key cells) lock_ts)
            (values_of primary_key cells)
            primary_key
            lock_ts
            current_ts)
  unfolding check_txn_status
  check_txn_status-Does db cells h k lock_ts caller_start_ts current_ts hl =
      rw (key_iter-cells e laws db cells k h, ← lock_of-from k cells, ← values_of-from k cells)
        (check_iter-Does db cells (from k cells) k lock_ts caller_start_ts current_ts h
          (rw lock_of-from
            (own_cell-fit (lock_of k cells) k lock_ts (lock_cell-fit k k cells h.fit)))
          (from-fit k cells h.fit) (Entry-cells e laws db cells k h) hl)

  with_lock : {o p : Option MvccLock} (vs : List MvccValue) → o ≡ p → ◌≡◌ {A = View} (o, vs) (p, vs)
  with_lock vs q = cc q

  stored_again :
      (j k : Bytes) (l : MvccLock) (cells : List Cell)
      → lock_of k cells ≡ some l
      → view_ops j (store (lock_cell k l) ∷ []) (view_of j cells) ≡ view_of j cells
  unfolding view_ops view_op
  stored_again j k l cells q = elim (Bool-cases (equal k j)) [
    | inl t ↦
        let same : k ≡ j = (equal_iff k j).0 t in
        rw t (with_lock (values_of j cells) (sym q ∙ ap (λ i. lock_of i cells) same))
    | inr u ↦ rw u refl
  ]

  -- CheckTxnStatus on a live lock of the transaction answers its ttl, and leaves the lock and the
  -- values of every key as they were, whatever the caller's and the current timestamp: it means to
  -- push the lock's minCommitTS forward, and the push is not stored. The start timestamp is below
  -- lockVer. The engine keeps its laws, and the database holds cells that can be stored and read
  -- back.
  pub check_txn_status_live :
      (db : e.Db) (cells : List Cell)
      → Holds e db cells
      → (primary_key : Bytes) (l : MvccLock) (caller_start_ts current_ts : ℕ)
      → lock_of primary_key cells ≡ some l
      → l.start_ts < lock_ver
      → is_outdated l current_ts ≡ false
      → ((check_txn_status e db primary_key l.start_ts caller_start_ts current_ts).1
          ≡ ok (l.ttl, 0))
        × ((cells' : List Cell) × Holds e
              (check_txn_status e db primary_key l.start_ts caller_start_ts current_ts).0
              cells'
            × ((j : Bytes) → view_of j cells' ≡ view_of j cells))
  check_txn_status_live db cells h k l caller_start_ts current_ts q hl live =
      let own : own_lock (lock_of k cells) l.start_ts ≡ some l =
        rw q (unfold own_lock in ground arith) in
      let fit : CellFits (lock_cell k l) = rw q at (lock_cell-fit k k cells h.fit) in
      let sp : spec_check (own_lock (lock_of k cells) l.start_ts) (values_of k cells) k l.start_ts
            current_ts
          ≡ ((l.ttl, 0), store (lock_cell k l) ∷ []) =
        rw own (unfold spec_check in rw live refl) in
      let (answer, holds) =
        rw sp at (check_txn_status-Does db cells h k l.start_ts caller_start_ts current_ts hl) in
      (
        answer,
        (
          apply_cells (store (lock_cell k l) ∷ []) cells,
          holds,
          λ j.
              view_of-apply_cells e laws j (store (lock_cell k l) ∷ []) db cells h (fit, tt)
              ∙ stored_again j k l cells q,
        ),
      )

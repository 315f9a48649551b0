-- ===== src/Mvcc/Spec.antt =====
-- What Prewrite, Commit, Rollback and Cleanup of MVCCLevelDB do to the cells, in terms of the lock and
-- the values of a key alone: the abstract counterpart of prewriteMutation, commitKey and rollbackKey.
-- The children prove that the code does this, and what a reader sees of it.
mod Tests
pub mod Resolve
pub mod Keys
pub mod Fit
pub mod Refine
pub mod Commit
pub mod Visible
pub mod Prewrite
pub mod Check
pub mod Rollback
use Prim.Native.String.{String}
use mock_tikv.Prelude.{
  ℕ, ◌≡◌, ◌<◌, ◌≤◌, ◌^◌, Bool, true, false, not, Option, none, some, List, [], ◌∷◌, ◌++◌, Bytes,
  ◌==◌, if◌then◌else◌, length, map, IsU64,
}
use mock_tikv.Errors.{Error, Result, ok, err, retryable, already_committed, ◌>>=◌}
use mock_tikv.Key.{lock_ver}
use mock_tikv.Marshal.{MvccLock, MvccValue, type_rollback, c10_m}
use mock_tikv.Entry.{Mutation, lock_err, op_lock, tomb, committed, get_txn_commit_info, newer_head}
use mock_tikv.Engine.{Engine, Batch}
use mock_tikv.Mvcc.Write.{any_error, new_lock, commit_value, own_lock}
use mock_tikv.Mvcc.Cells.{Cell, lock_cell, value_cell, lock_of, values_of, Holds}
use mock_tikv.Mvcc.Cells.Change.{CellOp, store, unlock, encode_op, apply_cells}

-- A key with a lock belongs to the lock's transaction; a key with a value that is not older cannot be
-- locked.
unfoldable pub spec_prewrite :
    Option MvccLock → List MvccValue → Mutation → ℕ → Bytes → ℕ → Result (List CellOp)
spec_prewrite (some l) values m start_ts primary ttl =
    if not (l.start_ts == start_ts) then err (lock_err l m.key) else ok []
spec_prewrite none values m start_ts primary ttl =
    if newer_head values start_ts
    then err (retryable "write conflict")
    else ok (store (lock_cell m.key (new_lock m start_ts primary ttl)) ∷ [])

-- The operations that turn a lock into its value
abbrev pub commit_ops : MvccLock → Bytes → ℕ → ℕ → List CellOp
commit_ops l key start_ts commit_ts =
    if not (l.op == op_lock)
    then store (value_cell key (commit_value l start_ts commit_ts)) ∷ unlock key ∷ []
    else unlock key ∷ []

-- A transaction with its lock is committed; one that is committed stays so.
unfoldable pub spec_commit : Option MvccLock → List MvccValue → Bytes → ℕ → ℕ → Result (List CellOp)
spec_commit (some l) values key start_ts commit_ts = ok (commit_ops l key start_ts commit_ts)
spec_commit none values key start_ts commit_ts =
    if committed (get_txn_commit_info values start_ts)
    then ok []
    else err (retryable "txn not found")

-- What a rollback does where the transaction holds no lock, with the record that it finds
unfoldable pub spec_unlocked : Option MvccValue → Bytes → ℕ → Result (List CellOp)
spec_unlocked none key start_ts = ok (store (value_cell key (tomb start_ts)) ∷ [])
spec_unlocked (some c) key start_ts =
    if not (c.value_type == type_rollback) then err (already_committed c.commit_ts) else ok []

-- A transaction with its lock, or with nothing, leaves a rollback record; a committed one is an error.
unfoldable pub spec_rollback : Option MvccLock → List MvccValue → Bytes → ℕ → Result (List CellOp)
unfolding spec_unlocked
spec_rollback (some l) values key start_ts =
    ok (store (value_cell key (tomb start_ts)) ∷ unlock key ∷ [])
spec_rollback none values key start_ts =
    spec_unlocked (get_txn_commit_info values start_ts) key start_ts

-- The operations of a batch, encoded
abbrev pub encoded : Result (List CellOp) → Result Batch
encoded (ok ops) = ok (map encode_op ops)
encoded (err x) = err x

-- The operations of all keys of a call, or the first error: each key is judged by the cells before
-- the call.
unfoldable pub spec_commit_all : List Cell → List Bytes → ℕ → ℕ → Result (List CellOp)
unfolding spec_commit
spec_commit_all cells [] start_ts commit_ts = ok []
spec_commit_all cells (k ∷ ks) start_ts commit_ts =
    let more = spec_commit_all cells ks start_ts commit_ts in
    do
      ops ←
          spec_commit (own_lock (lock_of k cells) start_ts) (values_of k cells) k start_ts commit_ts
      rest ← more
      ok (ops ++ rest)

unfoldable pub spec_rollback_all : List Cell → List Bytes → ℕ → Result (List CellOp)
unfolding spec_rollback
spec_rollback_all cells [] start_ts = ok []
spec_rollback_all cells (k ∷ ks) start_ts =
    let more = spec_rollback_all cells ks start_ts in
    do
      ops ← spec_rollback (own_lock (lock_of k cells) start_ts) (values_of k cells) k start_ts
      rest ← more
      ok (ops ++ rest)

abbrev pub Outcomes : Type 0
Outcomes = List (Option Error) × List CellOp

abbrev pub add_outcome : Result (List CellOp) → Outcomes → Outcomes
add_outcome (err x) (errs, rest) = (some x ∷ errs, rest)
add_outcome (ok ops) (errs, rest) = (none ∷ errs, ops ++ rest)

-- The outcome of each mutation, and the operations of those that succeed
unfoldable pub spec_prewrite_all : List Cell → List Mutation → Bytes → ℕ → ℕ → Outcomes
unfolding spec_prewrite
spec_prewrite_all cells [] primary start_ts ttl = ([], [])
spec_prewrite_all cells (m ∷ ms) primary start_ts ttl =
    add_outcome (spec_prewrite (lock_of m.key cells) (values_of m.key cells) m start_ts primary ttl)
      (spec_prewrite_all cells ms primary start_ts ttl)

-- A call does as specified: it applies the operations and succeeds, or it fails with the error and
-- changes nothing.
abbrev pub Refines :
    (e : Engine) → e.Db → List Cell → e.Db × Result (Unit {0}) → Result (List CellOp) → Type 0
Refines e db cells (db', r) (ok ops) = (r ≡ ok tt) × Holds e db' (apply_cells ops cells)
Refines e db cells (db', r) (err x) = (db' ≡ db) × (r ≡ err x)

-- A prewrite applies the operations of its mutations if each of them succeeds; the errors are those of
-- the mutations either way.
abbrev pub PrewriteRefines :
    (e : Engine) → e.Db → List Cell → e.Db × List (Option Error) → Outcomes → Type 0
PrewriteRefines e db cells (db', errs') (errs, ops) =
    (errs' ≡ errs) × (if any_error e errs then db' ≡ db else Holds e db' (apply_cells ops cells))

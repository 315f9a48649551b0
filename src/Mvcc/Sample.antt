-- ===== src/Mvcc/Sample.antt =====
-- A small database in memory for the tests: two keys, and a transaction that has locked one.
use mock_tikv.Errors.{Result, ok, err}
use mock_tikv.Mvcc.Write.{commit}
use mock_tikv.Mvcc.Spec.{Refines, commit_ops, spec_commit, spec_commit_all}
use mock_tikv.Mvcc.Spec.Refine.{commit-Refines}
use mock_tikv.Prelude.{
  ◌≤◌, ◌++◌, append-nil, All, ◌≡◌, refl, none, some, true, false, List, [], ◌∷◌, arith, Bytes,
}
use mock_tikv.Bytes.{cmp, equal}
use mock_tikv.Marshal.{MvccValue, MvccLock, type_put}
use mock_tikv.Entry.{op_put, Mutation, get_txn_commit_info, newer_head}
use mock_tikv.Engine.Memory.{MemDb, memory, empty_db, memory-EngineLaws}
use mock_tikv.Mvcc.{get}
use mock_tikv.Mvcc.Write.{own_lock}
use mock_tikv.Mvcc.Cells.{Cell, lock_cell, value_cell, Holds, CellFits, lock_of, values_of}
use mock_tikv.Mvcc.Cells.Change.{CellOp, store, unlock, encode_op, apply_cells, write-Holds}
use mock_tikv.Mvcc.Cells.Effect.{mem_key}
use mock_tikv.Mvcc.Spec.Fit.{MutationFits, PrewriteFits}
use mock_tikv.Mvcc.Spec.Commit.{owned}

abbrev pub key_a : Bytes
key_a = 97 ∷ []

abbrev pub old_value : MvccValue
old_value = record { value_type = type_put; start_ts = 5; commit_ts = 10; value = 1 ∷ [] }

abbrev pub a_lock : MvccLock
a_lock = record {
  start_ts = 25;
  primary = key_a;
  value = 3 ∷ [];
  op = op_put;
  ttl = 3000;
  min_commit_ts = 0;
}

pub old_value_fits : CellFits (value_cell key_a old_value)
old_value_fits = (
  record {
    type_fits = omega arith;
    start_ts_fits = omega arith;
    commit_ts_fits = omega arith;
    value_fits = omega arith;
  },
  omega arith,
)

pub a_lock_fits : CellFits (lock_cell key_a a_lock)
a_lock_fits = (
  record {
    start_ts_fits = omega arith;
    primary_fits = omega arith;
    value_fits = omega arith;
    op_fits = omega arith;
    ttl_fits = omega arith;
  },
  refl,
)

-- A key with a value of timestamp 10 and a lock of timestamp 25
abbrev pub cells : List Cell
cells = apply_cells (store (value_cell key_a old_value) ∷ store (lock_cell key_a a_lock) ∷ []) []

abbrev pub db : MemDb
db =
    (memory.write empty_db (
      encode_op (store (value_cell key_a old_value))
      ∷ encode_op (store (lock_cell key_a a_lock))
      ∷ [])).0

pub db-Holds : Holds memory db cells
unfolding mock_tikv.Engine.in_range
db-Holds =
    write-Holds memory memory-EngineLaws empty_db []
      (store (value_cell key_a old_value) ∷ store (lock_cell key_a a_lock) ∷ [])
      (record { stored = refl; fit = tt }) (old_value_fits, (a_lock_fits, tt))

-- A key that nothing has written
abbrev pub key_b : Bytes
key_b = 98 ∷ []

pub not_mem_b : mem_key key_b (key_a ∷ []) ≡ false
unfolding equal cmp
not_mem_b = refl

abbrev pub put_b : Mutation
put_b = record { op = op_put; key = key_b; value = 7 ∷ [] }

abbrev pub put_a : Mutation
put_a = record { op = op_put; key = key_a; value = 8 ∷ [] }

pub put_b-MutationFits : MutationFits put_b
put_b-MutationFits = record { value_fits = omega arith; op_fits = omega arith }

pub put_a-MutationFits : MutationFits put_a
put_a-MutationFits = record { value_fits = omega arith; op_fits = omega arith }

pub at_25-PrewriteFits : PrewriteFits key_a 25 3000
at_25-PrewriteFits = record {
  primary_fits = omega arith;
  start_ts_fits = omega arith;
  ttl_fits = omega arith;
}

pub at_26-PrewriteFits : PrewriteFits key_b 26 3000
at_26-PrewriteFits = record {
  primary_fits = omega arith;
  start_ts_fits = omega arith;
  ttl_fits = omega arith;
}

-- What the tests compute of the cells
pub lock_a : lock_of key_a cells ≡ some a_lock
unfolding lock_of apply_cells mock_tikv.Mvcc.Cells.Change.put_cell equal cmp
lock_a = refl

pub values_a : values_of key_a cells ≡ old_value ∷ []
unfolding values_of apply_cells mock_tikv.Mvcc.Cells.Change.put_cell equal cmp
values_a = refl

pub lock_b : lock_of key_b cells ≡ none
unfolding lock_of apply_cells mock_tikv.Mvcc.Cells.Change.put_cell equal cmp
lock_b = refl

pub values_b : values_of key_b cells ≡ []
unfolding values_of apply_cells mock_tikv.Mvcc.Cells.Change.put_cell equal cmp
values_b = refl

pub owned_a : owned key_a cells 25 ≡ some a_lock
unfolding own_lock
owned_a = rw lock_a refl

pub mem_a : mem_key key_a (key_a ∷ []) ≡ true
unfolding equal cmp
mem_a = refl

pub no_record_a : get_txn_commit_info (values_of key_a cells) 25 ≡ none
unfolding get_txn_commit_info
no_record_a = rw values_a refl

pub free_b : newer_head (values_of key_b cells) 25 ≡ false
unfolding newer_head
free_b = rw values_b refl

-- A commit that refines a specification that succeeds has succeeded.
pub succeeds :
    (w : MemDb × Result (Unit {0})) (r : Result (List CellOp)) (ops : List CellOp)
    → r ≡ ok ops
    → Refines memory db cells w r
    → w.1 ≡ ok tt
succeeds w (ok ops') ops q h = h.0
succeeds w (err x) ops q h = cc q

spec_commits : spec_commit_all cells (key_a ∷ []) 25 30 ≡ ok (commit_ops a_lock key_a 25 30 ++ [])
unfolding spec_commit_all spec_commit
spec_commits = rw (owned_a, append-nil) refl

pub commits : (commit memory db (key_a ∷ []) 25 30).1 ≡ ok tt
commits = succeeds _ _ _ spec_commits (
    commit-Refines memory memory-EngineLaws db cells db-Holds (key_a ∷ []) 25 30 (omega arith)
      (omega arith))

pub not_newer : All (λ v. v.commit_ts ≤ 30) (values_of key_a cells)
not_newer = rw values_a (omega arith, tt)

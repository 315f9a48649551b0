-- ===== src/Mvcc/Write.antt =====
-- Prewrite, Commit, Rollback and Cleanup of MVCCLevelDB: each reads the database, collects a batch, and
-- writes the batch if no key has failed.
use mock_tikv.Prelude.{
  ℕ, Bool, true, false, not, Option, none, some, List, [], ◌∷◌, ◌++◌, Bytes, leb, ◌==◌,
  if◌then◌else◌,
}
use mock_tikv.Errors.{Error, Result, ok, err, retryable, already_committed, ◌>>=◌}
use mock_tikv.Key.{mvcc_encode, lock_ver}
use mock_tikv.Marshal.{MvccLock, MvccValue, marshal_lock, marshal_value, type_rollback}
use mock_tikv.Entry.{Mutation, lock_err, op_lock, value_type_of, tomb, committed}
use mock_tikv.Engine.{Item, Iter, Batch, put, delete, Engine}
use mock_tikv.Mvcc.{lock_decode, value_decode, txn_commit_info, key_iter}

-- The lock that prewriteMutation writes
abbrev pub new_lock : Mutation → ℕ → Bytes → ℕ → MvccLock
new_lock mutation start_ts primary ttl = record {
  start_ts = start_ts;
  primary = primary;
  value = mutation.value;
  op = mutation.op;
  ttl = ttl;
  min_commit_ts = 0;
}

-- prewriteMutation on a key with no lock, with what the value decoder found
unfoldable pub prewrite_unlocked : Option MvccValue → Mutation → ℕ → Bytes → ℕ → Result Batch
prewrite_unlocked none mutation start_ts primary ttl = ok (
    put (mvcc_encode mutation.key lock_ver) (marshal_lock (new_lock mutation start_ts primary ttl))
    ∷ [])
prewrite_unlocked (some v) mutation start_ts primary ttl =
    if leb start_ts v.commit_ts
    then err (retryable "write conflict")
    else ok (
        put (mvcc_encode mutation.key lock_ver)
          (marshal_lock (new_lock mutation start_ts primary ttl))
        ∷ [])

-- prewriteMutation on the iterator of its key: what it adds to the batch.
unfoldable pub prewrite_locked : Option MvccLock → Iter → Mutation → ℕ → Bytes → ℕ → Result Batch
unfolding prewrite_unlocked
prewrite_locked (some l) it mutation start_ts primary ttl =
    if not (l.start_ts == start_ts) then err (lock_err l mutation.key) else ok []
prewrite_locked none it mutation start_ts primary ttl = do
  (r, _) ← value_decode mutation.key it
  prewrite_unlocked r mutation start_ts primary ttl

-- prewriteMutation
unfoldable pub prewrite_mutation : Iter → Mutation → ℕ → Bytes → ℕ → Result Batch
unfolding prewrite_locked
prewrite_mutation it mutation start_ts primary ttl = do
  (lock, it') ← lock_decode mutation.key it
  prewrite_locked lock it' mutation start_ts primary ttl

-- The record of a committed lock
abbrev pub commit_value : MvccLock → ℕ → ℕ → MvccValue
commit_value lock start_ts commit_ts = record {
  value_type = value_type_of lock.op;
  start_ts = start_ts;
  commit_ts = commit_ts;
  value = lock.value;
}

-- commitLock
unfoldable pub commit_lock : MvccLock → Bytes → ℕ → ℕ → Batch
unfolding value_type_of
commit_lock lock key start_ts commit_ts =
    (if not (lock.op == op_lock)
      then put (mvcc_encode key commit_ts) (marshal_value (commit_value lock start_ts commit_ts))
        ∷ []
      else [])
    ++ delete (mvcc_encode key lock_ver) ∷ []

-- rollbackLock
unfoldable pub rollback_lock : Bytes → ℕ → Batch
rollback_lock key start_ts =
    put (mvcc_encode key start_ts) (marshal_value (tomb start_ts))
    ∷ delete (mvcc_encode key lock_ver)
    ∷ []

-- commitKey behind its lock decoder, which left the iterator at `items`
unfoldable pub commit_locked : Option MvccLock → List Item → Bytes → ℕ → ℕ → Result Batch
commit_locked none items key start_ts commit_ts = do
  c ← txn_commit_info key start_ts items
  if committed c then ok [] else err (retryable "txn not found")
commit_locked (some l) items key start_ts commit_ts = ok (commit_lock l key start_ts commit_ts)

-- The lock, if it is that of the transaction `start_ts`
unfoldable pub own_lock : Option MvccLock → ℕ → Option MvccLock
own_lock none start_ts = none
own_lock (some l) start_ts = if l.start_ts == start_ts then some l else none

-- commitKey
unfoldable pub commit_key : Iter → Bytes → ℕ → ℕ → Result Batch
unfolding commit_locked own_lock
commit_key it key start_ts commit_ts = do
  (lock, (items, fault)) ← lock_decode key it
  commit_locked (own_lock lock start_ts) items key start_ts commit_ts

-- The end of rollbackKey, with what is known of the transaction
unfoldable pub rollback_unlocked : Option MvccValue → Bytes → ℕ → Result Batch
rollback_unlocked none key start_ts =
    ok (put (mvcc_encode key start_ts) (marshal_value (tomb start_ts)) ∷ [])
rollback_unlocked (some c) key start_ts =
    if not (c.value_type == type_rollback) then err (already_committed c.commit_ts) else ok []

-- rollbackKey behind its lock decoder
unfoldable pub rollback_locked : Option MvccLock → List Item → Bytes → ℕ → Result Batch
unfolding rollback_unlocked
rollback_locked (some l) items key start_ts = ok (rollback_lock key start_ts)
rollback_locked none items key start_ts = do
  c ← txn_commit_info key start_ts items
  rollback_unlocked c key start_ts

-- rollbackKey. An iterator that is not valid is not looked at, not even for its error.
unfoldable pub rollback_key : Iter → Bytes → ℕ → Result Batch
unfolding rollback_locked own_lock
rollback_key ([], fault) key start_ts = rollback_unlocked none key start_ts
rollback_key (x ∷ xs, fault) key start_ts = do
  (lock, (items, fault')) ← lock_decode key (x ∷ xs, fault)
  rollback_locked (own_lock lock start_ts) items key start_ts

module _ (e : Engine) where
  -- The error of `db.Write`, as the result of the method
  abbrev pub written : e.Db × Option Error → e.Db × Result (Unit {0})
  written (db, none) = (db, ok tt)
  written (db, some x) = (db, err x)

  -- The end of a method that returns an error before it writes its batch
  abbrev pub write_batch : e.Db → Result Batch → e.Db × Result (Unit {0})
  write_batch db (err x) = (db, err x)
  write_batch db (ok batch) = written (e.write db batch)

  -- One round of the first loop of Prewrite: a mutation that fails adds its error alone.
  abbrev pub add_round : Result Batch → List (Option Error) × Batch → List (Option Error) × Batch
  add_round (err x) (errs, batch) = (some x ∷ errs, batch)
  add_round (ok ops) (errs, batch) = (none ∷ errs, ops ++ batch)

  -- The first loop of Prewrite: the errors, and the batch.
  unfoldable pub prewrite_all : e.Db → List Mutation → Bytes → ℕ → ℕ → List (Option Error) × Batch
  unfolding prewrite_mutation
  prewrite_all db [] primary start_ts ttl = ([], [])
  prewrite_all db (m ∷ ms) primary start_ts ttl =
      add_round (prewrite_mutation (key_iter e db m.key) m start_ts primary ttl)
        (prewrite_all db ms primary start_ts ttl)

  abbrev pub any_error : List (Option Error) → Bool
  any_error [] = false
  any_error (none ∷ errs) = any_error errs
  any_error (some x ∷ errs) = true

  -- The end of Prewrite, with what `db.Write` has returned
  abbrev pub after_prewrite : List (Option Error) → e.Db × Option Error → e.Db × List (Option Error)
  after_prewrite errs (db, none) = (db, errs)
  after_prewrite errs (db, some x) = (db, [])

  -- Prewrite behind its first loop
  abbrev pub write_locks : e.Db → List (Option Error) × Batch → e.Db × List (Option Error)
  write_locks db (errs, batch) =
      if any_error errs then (db, errs) else after_prewrite errs (e.write db batch)

  -- MVCCLevelDB.Prewrite. If the write fails the source returns nil, as if nothing had gone wrong.
  unfoldable pub prewrite : e.Db → List Mutation → Bytes → ℕ → ℕ → e.Db × List (Option Error)
  unfolding prewrite_all
  prewrite db mutations primary start_ts ttl =
      write_locks db (prewrite_all db mutations primary start_ts ttl)

  -- The loops of Commit and Rollback: the batch, or the first error.
  unfoldable pub commit_all : e.Db → List Bytes → ℕ → ℕ → Result Batch
  unfolding commit_key
  commit_all db [] start_ts commit_ts = ok []
  commit_all db (k ∷ ks) start_ts commit_ts =
      let more = commit_all db ks start_ts commit_ts in
      do ops ← commit_key (key_iter e db k) k start_ts commit_ts; batch ← more; ok (ops ++ batch)

  -- MVCCLevelDB.Commit
  unfoldable pub commit : e.Db → List Bytes → ℕ → ℕ → e.Db × Result (Unit {0})
  unfolding commit_all
  commit db keys start_ts commit_ts = write_batch db (commit_all db keys start_ts commit_ts)

  unfoldable pub rollback_all : e.Db → List Bytes → ℕ → Result Batch
  unfolding rollback_key
  rollback_all db [] start_ts = ok []
  rollback_all db (k ∷ ks) start_ts =
      let more = rollback_all db ks start_ts in
      do ops ← rollback_key (key_iter e db k) k start_ts; batch ← more; ok (ops ++ batch)

  -- MVCCLevelDB.Rollback
  unfoldable pub rollback : e.Db → List Bytes → ℕ → e.Db × Result (Unit {0})
  unfolding rollback_all
  rollback db keys start_ts = write_batch db (rollback_all db keys start_ts)

  -- MVCCLevelDB.Cleanup
  unfoldable pub cleanup : e.Db → Bytes → ℕ → e.Db × Result (Unit {0})
  unfolding rollback_key
  cleanup db key start_ts = write_batch db (rollback_key (key_iter e db key) key start_ts)

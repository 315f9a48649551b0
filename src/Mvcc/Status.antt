-- ===== src/Mvcc/Status.antt =====
-- ScanLock, CheckTxnStatus, ResolveLock and BatchResolveLock of MVCCLevelDB.
use mock_tikv.Prelude.{
  ℕ, zero, suc, ◌+◌, ◌/◌, ◌^◌, Bool, not, Option, none, some, List, [], ◌∷◌, ◌++◌, Bytes, length,
  ltb, leb, ◌==◌, ◌&&◌, if◌then◌else◌, add_u64,
}
use mock_tikv.Errors.{Error, Result, ok, err, ◌>>=◌}
use mock_tikv.Key.{mvcc_encode, lock_ver}
use mock_tikv.Marshal.{MvccLock, MvccValue, marshal_lock, type_rollback}
use mock_tikv.Engine.{Item, Iter, Batch, put, Engine}
use mock_tikv.Mvcc.{lock_decode, skip_decode, txn_commit_info, key_iter}
use mock_tikv.Mvcc.Write.{write_batch, commit_lock, rollback_lock, own_lock}
use mock_tikv.Mvcc.Scan.{new_scan_iterator}

-- kvrpcpb.LockInfo, as far as it is filled in
pub record LockInfo : Type 0 where
  pub primary_lock : Bytes
  pub lock_version : ℕ
  pub key : Bytes

-- What one round of ScanLock appends
abbrev pub old_lock : Option MvccLock → ℕ → Bytes → List LockInfo
old_lock none max_ts key = []
old_lock (some l) max_ts key =
    if leb l.start_ts max_ts
    then record { primary_lock = l.primary; lock_version = l.start_ts; key = key } ∷ []
    else []

-- The loop of ScanLock. A round but the first uses up an item at least, so two rounds more than there
-- are items are enough.
unfoldable pub scan_lock_loop : ℕ → ℕ → Iter → Bytes → Result (List LockInfo)
unfolding lock_decode skip_decode
scan_lock_loop zero max_ts it curr_key = ok []
scan_lock_loop (suc fuel) max_ts ([], fault) curr_key = ok []
scan_lock_loop (suc fuel) max_ts (x ∷ rest, fault) curr_key = do
  (lock, it) ← lock_decode curr_key (x ∷ rest, fault)
  (_, next_key, it') ← skip_decode curr_key it
  let more = scan_lock_loop fuel max_ts it' next_key
  locks ← more
  ok (old_lock lock max_ts curr_key ++ locks)

-- What ResolveLock and BatchResolveLock add to the batch for a lock that they resolve: `commit_of` is
-- the commit timestamp that the call names for a transaction, 0 for a rollback.
abbrev pub resolved : Option MvccLock → Bytes → (ℕ → Option ℕ) → Batch
resolved none key commit_of = []
resolved (some l) key commit_of = elim (commit_of l.start_ts) [
  | none ↦ []
  | some commit_ts ↦
      (if ltb 0 commit_ts
        then commit_lock l key l.start_ts commit_ts
        else rollback_lock key l.start_ts)
]

-- The loop of ResolveLock, which is that of BatchResolveLock for one transaction.
unfoldable pub resolve_loop : ℕ → (ℕ → Option ℕ) → Iter → Bytes → Result Batch
unfolding lock_decode skip_decode commit_lock rollback_lock
resolve_loop zero commit_of it curr_key = ok []
resolve_loop (suc fuel) commit_of ([], fault) curr_key = ok []
resolve_loop (suc fuel) commit_of (x ∷ rest, fault) curr_key = do
  (lock, it) ← lock_decode curr_key (x ∷ rest, fault)
  (_, next_key, it') ← skip_decode curr_key it
  let more = resolve_loop fuel commit_of it' next_key
  batch ← more
  ok (resolved lock curr_key commit_of ++ batch)

-- ExtractPhysical, as the uint64 that CheckTxnStatus makes of it
unfoldable pub extract_physical : ℕ → ℕ
extract_physical ts = ts / 2 ^ 18

-- Whether CheckTxnStatus finds the lock outdated
unfoldable pub is_outdated : MvccLock → ℕ → Bool
unfolding extract_physical
is_outdated lock current_ts =
    ltb (add_u64 (extract_physical lock.start_ts) lock.ttl) (extract_physical current_ts)

-- The two steps by which CheckTxnStatus pushes minCommitTS forward
unfoldable pub push_min_commit_ts : MvccLock → ℕ → ℕ → MvccLock
push_min_commit_ts lock caller_start_ts current_ts =
    let pushed =
      if ltb 0 lock.min_commit_ts && ltb lock.min_commit_ts (add_u64 caller_start_ts 1)
      then add_u64 caller_start_ts 1
      else lock.min_commit_ts in
    record lock { min_commit_ts = if ltb pushed current_ts then current_ts else pushed }

module _ (e : Engine) where
  -- MVCCLevelDB.ScanLock; `none` is the panic of Scan.
  unfoldable pub scan_lock : e.Db → Bytes → Bytes → ℕ → Option (Result (List LockInfo))
  unfolding new_scan_iterator scan_lock_loop
  scan_lock db start_key end_key max_ts = elim (new_scan_iterator e db start_key end_key) [
    | err x ↦ none
    | ok s ↦ some (scan_lock_loop (length s.0.0 + 2) max_ts s.0 s.1)
  ]

  unfoldable pub resolve : e.Db → Bytes → Bytes → (ℕ → Option ℕ) → Option (e.Db × Result (Unit {0}))
  unfolding new_scan_iterator resolve_loop
  resolve db start_key end_key commit_of = elim (new_scan_iterator e db start_key end_key) [
    | err x ↦ none
    | ok s ↦ some (write_batch e db (resolve_loop (length s.0.0 + 2) commit_of s.0 s.1))
  ]

  -- MVCCLevelDB.ResolveLock; `none` is the panic of Scan.
  unfoldable pub resolve_lock : e.Db → Bytes → Bytes → ℕ → ℕ → Option (e.Db × Result (Unit {0}))
  unfolding resolve
  resolve_lock db start_key end_key start_ts commit_ts =
      resolve db start_key end_key (λ ts. if ts == start_ts then some commit_ts else none)

  -- MVCCLevelDB.BatchResolveLock, with the map as a function; `none` is the panic of Scan.
  unfoldable pub batch_resolve_lock :
      e.Db → Bytes → Bytes → (ℕ → Option ℕ) → Option (e.Db × Result (Unit {0}))
  unfolding resolve
  batch_resolve_lock db start_key end_key txn_infos = resolve db start_key end_key txn_infos

  -- The end of a branch of CheckTxnStatus: the result, if the write went well.
  abbrev pub answered : e.Db × Option Error → ℕ → ℕ → e.Db × Result (ℕ × ℕ)
  answered (db, none) ttl commit_ts = (db, ok (ttl, commit_ts))
  answered (db, some x) ttl commit_ts = (db, err x)

  -- CheckTxnStatus on the lock of the transaction
  unfoldable pub check_locked : e.Db → MvccLock → Bytes → ℕ → ℕ → ℕ → e.Db × Result (ℕ × ℕ)
  unfolding is_outdated push_min_commit_ts rollback_lock
  check_locked db lock primary_key lock_ts caller_start_ts current_ts =
      if is_outdated lock current_ts
      then answered (e.write db (rollback_lock primary_key lock_ts)) 0 0
      else answered
          (e.write db (
            put (mvcc_encode primary_key lock_ver)
              (marshal_lock (push_min_commit_ts lock caller_start_ts current_ts))
            ∷ []))
          lock.ttl 0

  -- CheckTxnStatus where the transaction holds no lock, with the record that it looked for
  abbrev pub check_unlocked : Result (Option MvccValue) → Result (ℕ × ℕ)
  check_unlocked (err x) = err x
  check_unlocked (ok none) = ok (0, 0)
  check_unlocked (ok (some c)) =
      if not (c.value_type == type_rollback) then ok (0, c.commit_ts) else ok (0, 0)

  -- CheckTxnStatus with the lock, if the transaction holds it
  unfoldable pub check_owned :
      e.Db → Option MvccLock → List Item → Bytes → ℕ → ℕ → ℕ → e.Db × Result (ℕ × ℕ)
  unfolding check_locked
  check_owned db (some l) items primary_key lock_ts caller_start_ts current_ts =
      check_locked db l primary_key lock_ts caller_start_ts current_ts
  check_owned db none items primary_key lock_ts caller_start_ts current_ts =
      (db, check_unlocked (txn_commit_info primary_key lock_ts items))

  -- CheckTxnStatus behind its lock decoder
  unfoldable pub check_after :
      e.Db → Result (Option MvccLock × Iter) → Bytes → ℕ → ℕ → ℕ → e.Db × Result (ℕ × ℕ)
  unfolding check_owned own_lock
  check_after db (err x) primary_key lock_ts caller_start_ts current_ts = (db, err x)
  check_after db (ok (lock, (items, fault))) primary_key lock_ts caller_start_ts current_ts =
      check_owned db (own_lock lock lock_ts) items primary_key lock_ts caller_start_ts current_ts

  -- CheckTxnStatus on the iterator of the primary key
  unfoldable pub check_iter : e.Db → Iter → Bytes → ℕ → ℕ → ℕ → e.Db × Result (ℕ × ℕ)
  unfolding check_after
  check_iter db ([], fault) primary_key lock_ts caller_start_ts current_ts = (db, ok (0, 0))
  check_iter db (x ∷ xs, fault) primary_key lock_ts caller_start_ts current_ts =
      check_after db (lock_decode primary_key (x ∷ xs, fault)) primary_key lock_ts caller_start_ts
        current_ts

  -- MVCCLevelDB.CheckTxnStatus: the lock's ttl and the commit timestamp.
  unfoldable pub check_txn_status : e.Db → Bytes → ℕ → ℕ → ℕ → e.Db × Result (ℕ × ℕ)
  unfolding check_iter
  check_txn_status db primary_key lock_ts caller_start_ts current_ts =
      check_iter db (key_iter e db primary_key) primary_key lock_ts caller_start_ts current_ts

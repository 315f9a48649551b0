-- ===== src/Store/Kv.antt =====
-- The transactional handlers of server/store.go. The nil of a response without an error is
-- `answered`.
pub mod Outcome
pub mod Reads
pub mod Limit
pub mod Bounds
pub mod Answers
pub mod Scans
use text.Mathlib.Text
use Prim.Native.String.{String}
use mock_tikv.Prelude.{
  ℕ, Bool, true, false, not, Option, none, some, List, [], ◌∷◌, Bytes, if◌then◌else◌, ◌&&◌, ◌||◌,
  is_empty, map,
}
use mock_tikv.Errors.{Error, Result, ok, err, already_committed}
use mock_tikv.Bytes.{less}
use mock_tikv.Key.{raw}
use mock_tikv.Entry.{Mutation}
use mock_tikv.Engine.{Engine}
use mock_tikv.Mvcc.{Pair, get, batch_get}
use mock_tikv.Mvcc.Write.{prewrite, commit, rollback, cleanup}
use mock_tikv.Mvcc.Scan.{scan}
use mock_tikv.Mvcc.Status.{LockInfo, scan_lock, resolve_lock, check_txn_status}
use mock_tikv.Mvcc.Raw.{delete_range}
use mock_tikv.Store.{
  StoreInstance, State, Call, RequestContext, check_keys_in_region, check_key_in_region,
  undetermined, timeout, not_leader, KeyError, unset, KvPair, Reply, panicked, failed, region_error,
  key_error, answered, convert_to_key_error, convert_to_key_errors, convert_to_pb_pairs,
  convert_to_pb_pairs_key_only,
}
use mock_tikv.Store.Check.{check_request, served}

-- The response with an answer that may have panicked
abbrev pub reply_with {ℓ} : {A : Type ℓ} → Option A → Reply A
reply_with none = panicked
reply_with (some a) = answered a

abbrev pub reply_key_error {ℓ} : {A : Type ℓ} → Option KeyError → Reply A
reply_key_error none = panicked
reply_key_error (some x) = key_error x

-- The response with the result of an operation of the database
unfoldable pub reply_result {ℓ} : {A : Type ℓ} → Result A → Reply A
unfolding convert_to_key_error
reply_result (ok a) = answered a
reply_result (err x) = reply_key_error (convert_to_key_error x)

abbrev pub with_db {ℓ} : {Db : Type 0} {A : Type ℓ} → State Db → Db × Reply A → State Db × Reply A
with_db st (db, r) = (record st { db = db }, r)

-- The end key of KvScan: that of the region, or that of the request where it is below.
unfoldable pub scan_end : Bytes → Bytes → Bytes
unfolding less
scan_end region_end req_end =
    if not (is_empty req_end) && (is_empty region_end || less req_end region_end)
    then req_end
    else region_end

unfoldable pub scan_pairs : Bool → List Pair → Option (List KvPair)
unfolding convert_to_pb_pairs convert_to_pb_pairs_key_only
scan_pairs true pairs = convert_to_pb_pairs_key_only pairs
scan_pairs false pairs = convert_to_pb_pairs pairs

abbrev pub scan_reply : Bool → Option (List Pair) → Reply (List KvPair)
scan_reply key_only none = panicked
scan_reply key_only (some pairs) = reply_with (scan_pairs key_only pairs)

abbrev pub keys_of : List Mutation → List Bytes
keys_of [] = []
keys_of (m ∷ ms) = m.key ∷ keys_of ms

abbrev pub prewrite_reply : {Db : Type 0} → Db × List (Option Error) → Db × Reply (List KeyError)
prewrite_reply (db, errs) = (db, reply_with (convert_to_key_errors errs))

-- KvCommit behind Commit: rpcCommitTimeout hides a commit that went well.
unfoldable pub commit_reply : {Db : Type 0} → Bool → Db × Result (Unit {0}) → Db × Reply (Unit {0})
unfolding reply_result
commit_reply rpc_commit_timeout (db, err x) = (db, reply_result (err x))
commit_reply true (db, ok u) = (db, failed undetermined)
commit_reply false (db, ok u) = (db, answered u)

-- The response of KvCleanup, whose answer is its CommitVersion
unfoldable pub cleanup_reply : {Db : Type 0} → Db × Result (Unit {0}) → Db × Reply ℕ
unfolding reply_result
cleanup_reply (db, ok u) = (db, answered 0)
cleanup_reply (db, err (already_committed commit_ts)) = (db, answered commit_ts)
cleanup_reply (db, err x) = (db, reply_result (err x))

abbrev pub result_reply {ℓ} : {Db : Type 0} {A : Type ℓ} → Db × Result A → Db × Reply A
result_reply (db, r) = (db, reply_result r)

-- The error of KvDeleteRange is in its response, as a text.
abbrev pub delete_reply : {Db : Type 0} → Db × Result (Unit {0}) → Db × Reply (Option Error)
delete_reply (db, ok u) = (db, answered none)
delete_reply (db, err x) = (db, answered (some x))

-- The keys of the region, raw. The panic of Raw is the error.
abbrev pub raw_range {ℓ} : {A : Type ℓ} → RequestContext → (Bytes → Bytes → Option A) → Option A
raw_range ctx next = elim (raw ctx.start_key) [
  | err x ↦ none
  | ok start_key ↦ elim (raw ctx.end_key) [ err x ↦ none | ok end_key ↦ next start_key end_key ]
]

abbrev pub locks_reply : Option (Result (List LockInfo)) → Reply (List LockInfo)
locks_reply none = panicked
locks_reply (some r) = reply_result r

abbrev pub resolve_reply :
    {Db : Type 0} → Db → Option (Db × Result (Unit {0})) → Db × Reply (Unit {0})
resolve_reply db none = (db, panicked)
resolve_reply db (some r) = result_reply r

module _ (e : Engine) (s : StoreInstance) where
  -- KvGet
  unfoldable pub kv_get : State e.Db → Call → Bytes → ℕ → State e.Db × Reply (Option Bytes)
  unfolding check_request get reply_result
  kv_get st call key version =
      served (check_request s st.cluster call) st
        (λ ctx. (st, reply_result (get e st.db key version ctx.isolation_level)))

  -- KvScan
  unfoldable pub kv_scan :
      State e.Db → Call → Bytes → Bytes → ℕ → ℕ → Bool → State e.Db × Reply (List KvPair)
  unfolding check_request scan scan_end
  kv_scan st call start_key end_key limit version key_only =
      served (check_request s st.cluster call) st (λ ctx. (
        st,
        scan_reply key_only (
            scan e st.db start_key (scan_end ctx.end_key end_key) limit version
              ctx.isolation_level),
      ))

  -- KvPrewrite
  unfoldable pub kv_prewrite :
      State e.Db → Call → List Mutation → Bytes → ℕ → ℕ → State e.Db × Reply (List KeyError)
  unfolding check_request check_keys_in_region prewrite
  kv_prewrite st call mutations primary_lock start_version lock_ttl =
      served (check_request s st.cluster call) st (λ ctx.
        if check_keys_in_region ctx (keys_of mutations)
        then with_db st
            (prewrite_reply (prewrite e st.db mutations primary_lock start_version lock_ttl))
        else (st, panicked))

  -- KvCommit behind its switch
  unfoldable pub commit_checked :
      State e.Db → Call → List Bytes → ℕ → ℕ → State e.Db × Reply (Unit {0})
  unfolding check_request check_keys_in_region commit commit_reply
  commit_checked st call keys start_version commit_version =
      served (check_request s st.cluster call) st (λ ctx.
        if check_keys_in_region ctx keys
        then with_db st
            (commit_reply s.rpc_commit_timeout (commit e st.db keys start_version commit_version))
        else (st, panicked))

  -- KvCommit
  unfoldable pub kv_commit : State e.Db → Call → List Bytes → ℕ → ℕ → State e.Db × Reply (Unit {0})
  unfolding commit_checked
  kv_commit st call keys start_version commit_version =
      if Text.◌==◌ s.rpc_commit_result "timeout"
      then (st, failed timeout)
      else (if Text.◌==◌ s.rpc_commit_result "notLeader"
          then (st, region_error (not_leader "" 0 none))
          else (if Text.◌==◌ s.rpc_commit_result "keyError"
              then (st, key_error unset)
              else commit_checked st call keys start_version commit_version))

  -- KvCleanup
  unfoldable pub kv_cleanup : State e.Db → Call → Bytes → ℕ → State e.Db × Reply ℕ
  unfolding check_request check_key_in_region cleanup cleanup_reply
  kv_cleanup st call key start_version = served (check_request s st.cluster call) st (λ ctx.
      if check_key_in_region ctx key
      then with_db st (cleanup_reply (cleanup e st.db key start_version))
      else (st, panicked))

  -- KvBatchGet
  unfoldable pub kv_batch_get :
      State e.Db → Call → List Bytes → ℕ → State e.Db × Reply (List KvPair)
  unfolding check_request check_keys_in_region batch_get convert_to_pb_pairs
  kv_batch_get st call keys version = served (check_request s st.cluster call) st (λ ctx. (
    st,
    if check_keys_in_region ctx keys
        then reply_with (convert_to_pb_pairs (batch_get e st.db keys version ctx.isolation_level))
        else panicked,
  ))

  -- KvBatchRollback
  unfoldable pub kv_batch_rollback :
      State e.Db → Call → List Bytes → ℕ → State e.Db × Reply (Unit {0})
  unfolding check_request rollback
  kv_batch_rollback st call keys start_version =
      served (check_request s st.cluster call) st
        (λ ctx. with_db st (result_reply (rollback e st.db keys start_version)))

  -- KvScanLock
  unfoldable pub kv_scan_lock : State e.Db → Call → ℕ → State e.Db × Reply (List LockInfo)
  unfolding check_request raw scan_lock
  kv_scan_lock st call max_version = served (check_request s st.cluster call) st (λ ctx. (
    st,
    locks_reply
        (raw_range ctx (λ start_key end_key. scan_lock e st.db start_key end_key max_version)),
  ))

  -- KvCheckTxnStatus: LockTtl and CommitVersion.
  unfoldable pub kv_check_txn_status :
      State e.Db → Call → Bytes → ℕ → ℕ → ℕ → State e.Db × Reply (ℕ × ℕ)
  unfolding check_request check_key_in_region check_txn_status
  kv_check_txn_status st call primary_key lock_ts caller_start_ts current_ts =
      served (check_request s st.cluster call) st (λ ctx.
        if check_key_in_region ctx primary_key
        then with_db st
            (result_reply (check_txn_status e st.db primary_key lock_ts caller_start_ts current_ts))
        else (st, panicked))

  -- KvResolveLock
  unfoldable pub kv_resolve_lock : State e.Db → Call → ℕ → ℕ → State e.Db × Reply (Unit {0})
  unfolding check_request raw resolve_lock
  kv_resolve_lock st call start_version commit_version =
      served (check_request s st.cluster call) st (λ ctx. with_db st (
        resolve_reply st.db (
          raw_range ctx (λ start_key end_key.
            resolve_lock e st.db start_key end_key start_version commit_version))))

  -- KvDeleteRange
  unfoldable pub kv_delete_range :
      State e.Db → Call → Bytes → Bytes → State e.Db × Reply (Option Error)
  unfolding check_request delete_range
  kv_delete_range st call start_key end_key =
      served (check_request s st.cluster call) st
        (λ ctx. with_db st (delete_reply (delete_range e st.db start_key end_key)))

-- ===== src/Store/Service.antt =====
-- The store service as a whole: its requests, what each does to the state, and the states that a
-- sequence of requests reaches. The generated code of gRPC calls the handler of a request; the
-- handlers whose body is a panic have no request.
mod Tests
pub mod Guarded
pub mod Lifetime
use Prim.Native.String.{String}
use mock_tikv.Prelude.{ℕ, ◌+◌, ◌^◌, ◌<◌, Bool, Option, List, [], ◌∷◌, Bytes}
use mock_tikv.Entry.{Mutation}
use mock_tikv.Engine.{Engine}
use mock_tikv.Store.{StoreInstance, State, Call, KvPair, Reply}
use mock_tikv.Store.Kv.{
  kv_get, kv_scan, kv_prewrite, kv_commit, kv_cleanup, kv_batch_get, kv_batch_rollback,
  kv_scan_lock, kv_check_txn_status, kv_resolve_lock, kv_delete_range,
}
use mock_tikv.Store.RawKv.{
  kv_raw_get, kv_raw_batch_get, kv_raw_put, kv_raw_batch_put, kv_raw_delete, kv_raw_batch_delete,
  kv_raw_scan, kv_raw_delete_range, raw_batch_scan, kv_gc, coprocessor, mvcc_get_by_key,
  mvcc_get_by_start_ts,
}
use mock_tikv.Store.Split.{split_region}

-- The requests by their handlers, with the fields of each
pub data Request : Type 0 where
  gets : Bytes → ℕ → Request
  scans : Bytes → Bytes → ℕ → ℕ → Bool → Request
  prewrites : List Mutation → Bytes → ℕ → ℕ → Request
  commits : List Bytes → ℕ → ℕ → Request
  cleans_up : Bytes → ℕ → Request
  batch_gets : List Bytes → ℕ → Request
  rolls_back : List Bytes → ℕ → Request
  scans_lock : ℕ → Request
  checks_txn_status : Bytes → ℕ → ℕ → ℕ → Request
  resolves_lock : ℕ → ℕ → Request
  deletes_range : Bytes → Bytes → Request
  raw_gets : Bytes → Request
  raw_batch_gets : List Bytes → Request
  raw_puts : Bytes → Bytes → Request
  raw_batch_puts : List KvPair → Request
  raw_deletes : Bytes → Request
  raw_batch_deletes : List Bytes → Request
  raw_scans : Bytes → Bytes → ℕ → Bool → Request
  raw_deletes_range : Bytes → Option Bytes → Request
  raw_batch_scans collects_garbage coprocesses gets_by_start_ts : Request
  gets_by_key : Bytes → Request
  splits_region : Bytes → Request

module _ (e : Engine) where
  -- The state that the handler of a request leaves
  unfoldable pub serve : StoreInstance → State e.Db → Call → Request → State e.Db
  unfolding kv_get kv_scan kv_prewrite kv_commit kv_cleanup kv_batch_get kv_batch_rollback
      kv_scan_lock kv_check_txn_status kv_resolve_lock kv_delete_range kv_raw_get kv_raw_batch_get
      kv_raw_put kv_raw_batch_put kv_raw_delete kv_raw_batch_delete kv_raw_scan kv_raw_delete_range
      raw_batch_scan kv_gc coprocessor mvcc_get_by_key mvcc_get_by_start_ts split_region
  serve s st call (gets key version) = (kv_get e s st call key version).0
  serve s st call (scans start_key end_key limit version key_only) =
      (kv_scan e s st call start_key end_key limit version key_only).0
  serve s st call (prewrites mutations primary_lock start_version lock_ttl) =
      (kv_prewrite e s st call mutations primary_lock start_version lock_ttl).0
  serve s st call (commits keys start_version commit_version) =
      (kv_commit e s st call keys start_version commit_version).0
  serve s st call (cleans_up key start_version) = (kv_cleanup e s st call key start_version).0
  serve s st call (batch_gets keys version) = (kv_batch_get e s st call keys version).0
  serve s st call (rolls_back keys start_version) =
      (kv_batch_rollback e s st call keys start_version).0
  serve s st call (scans_lock max_version) = (kv_scan_lock e s st call max_version).0
  serve s st call (checks_txn_status primary_key lock_ts caller_start_ts current_ts) =
      (kv_check_txn_status e s st call primary_key lock_ts caller_start_ts current_ts).0
  serve s st call (resolves_lock start_version commit_version) =
      (kv_resolve_lock e s st call start_version commit_version).0
  serve s st call (deletes_range start_key end_key) =
      (kv_delete_range e s st call start_key end_key).0
  serve s st call (raw_gets key) = (kv_raw_get e s st call key).0
  serve s st call (raw_batch_gets keys) = (kv_raw_batch_get e s st call keys).0
  serve s st call (raw_puts key value) = (kv_raw_put e s st call key value).0
  serve s st call (raw_batch_puts pairs) = (kv_raw_batch_put e s st call pairs).0
  serve s st call (raw_deletes key) = (kv_raw_delete e s st call key).0
  serve s st call (raw_batch_deletes keys) = (kv_raw_batch_delete e s st call keys).0
  serve s st call (raw_scans start_key end_key limit key_only) =
      (kv_raw_scan e s st call start_key end_key limit key_only).0
  serve s st call (raw_deletes_range start_key end_key) =
      (kv_raw_delete_range e s st call start_key end_key).0
  serve s st call raw_batch_scans = (raw_batch_scan s st call).0
  serve s st call collects_garbage = (kv_gc s st call).0
  serve s st call coprocesses = (coprocessor s st call).0
  serve s st call gets_by_start_ts = (mvcc_get_by_start_ts s st call).0
  serve s st call (gets_by_key key) = (mvcc_get_by_key s st call key).0
  serve s st call (splits_region split_key) = (split_region s st call split_key).0

-- Requests to any stores, one after another. The server has not given out its last ids.
pub data Reach (e : Engine) (st : State e.Db) : State e.Db → Type 0 where
  here : Reach e st st
  next :
      {st' : State e.Db} (s : StoreInstance) (call : Call) (request : Request)
      → Reach e st st'
      → st'.id_alloc + 2 < 2 ^ 64
      → Reach e st (serve e s st' call request)

-- ===== src/Store.antt =====
-- The store service of server/store.go: what its handlers share. The children hold the handlers.
-- The store's state is the cluster, the database and the server's id counter; a panic ends the
-- process, and the state beside it is the one that it has come to.
mod Tests
pub mod Check
pub mod Accepted
pub mod Kv
pub mod RawKv
pub mod Split
pub mod Batch
pub mod Sound
pub mod Service
pub mod Route
use Prim.Native.String
use Prim.Native.String.{String}
use mock_tikv.Prelude.{
  ℕ, ◌*◌, Bool, true, false, not, Option, none, some, List, [], ◌∷◌, ◌++◌, Bytes, ◌==◌, leb,
  if◌then◌else◌, ◌&&◌,
}
use mock_tikv.Errors.{Error, Result, ok, err, locked, retryable}
use mock_tikv.Key.{new_mvcc_key, raw, region_contains}
use mock_tikv.Entry.{IsolationLevel}
use mock_tikv.Mvcc.{Pair}
use mock_tikv.Cluster.{Peer, Region, Cluster, bytes_of, find_by_id, find_by_key, contains}

-- storeInstance, without its listener and its grpc server. `address`, `state` and `version` are
-- those of metapb.Store.
pub record StoreInstance : Type 0 where
  pub id : ℕ
  pub address : String
  pub state : ℕ
  pub version : String
  pub rpc_commit_result : String
  pub rpc_commit_timeout : Bool

-- newStoreInstance
abbrev pub new_store_instance : String → StoreInstance
new_store_instance version = record {
  id = 0;
  address = "";
  state = 0;
  version = version;
  rpc_commit_result = "";
  rpc_commit_timeout = false;
}

-- What the handlers of all stores of a cluster share
pub record State (Db : Type 0) : Type 0 where
  pub cluster : Cluster
  pub id_alloc : ℕ
  pub db : Db

-- metapb.RegionEpoch
pub record Epoch : Type 0 where
  pub conf_ver : ℕ
  pub version : ℕ

-- kvrpcpb.Context, as far as it is read. A nil context is one of zeros.
pub record Context : Type 0 where
  pub region_id : ℕ
  pub epoch : Option Epoch
  pub peer : Option Peer
  pub isolation_level : IsolationLevel

-- What checkRequest looks at: the context and the size of the request, and the fail points that are
-- hit at the call.
pub record Call : Type 0 where
  pub context : Context
  pub size : ℕ
  pub server_busy : Bool
  pub io_timeout : Bool

-- storeRequestContext, without the fields that are not read
pub record RequestContext : Type 0 where
  pub store_id : ℕ
  pub start_key : Bytes
  pub end_key : Bytes
  pub isolation_level : IsolationLevel

-- checkKeyInRegion
unfoldable pub check_key_in_region : RequestContext → Bytes → Bool
check_key_in_region ctx key = region_contains ctx.start_key ctx.end_key (new_mvcc_key key)

-- The loops over the keys of a request, whose panic is `false`
unfoldable pub check_keys_in_region : RequestContext → List Bytes → Bool
check_keys_in_region ctx [] = true
check_keys_in_region ctx (k ∷ ks) = check_key_in_region ctx k && check_keys_in_region ctx ks

-- errorpb.Error, with its message where there is one
pub data RegionError : Type 0 where
  server_is_busy store_not_match raft_entry_too_large : RegionError
  region_not_found : ℕ → RegionError
  not_leader : String → ℕ → Option Peer → RegionError
  epoch_not_match : List Region → RegionError

-- The errors of the call itself: errUndetermined, the "timeout" of KvCommit, errRegionNotFound
pub data CallError : Type 0 where
  undetermined timeout lost_region : CallError

-- kvrpcpb.LockInfo of a key error
pub record KeyLock : Type 0 where
  pub key : Bytes
  pub primary_lock : Bytes
  pub lock_version : ℕ
  pub lock_ttl : ℕ

-- kvrpcpb.KeyError. An abort is the error whose text it carries; `unset` has no field.
pub data KeyError : Type 0 where
  key_locked : KeyLock → KeyError
  key_retryable : String → KeyError
  key_abort : Error → KeyError
  unset : KeyError

-- The response of a handler with an answer, or one of its errors
pub data Reply {ℓ} (A : Type ℓ) : Type ℓ where
  panicked : Reply A
  failed : CallError → Reply A
  region_error : RegionError → Reply A
  key_error : KeyError → Reply A
  answered : A → Reply A

-- convertToKeyError; `none` is the panic of Raw on the key of a lock.
unfoldable pub convert_to_key_error : Error → Option KeyError
convert_to_key_error (locked l) = elim (raw l.key) [
  | err x ↦ none
  | ok key ↦ some (
      key_locked (record {
        key = key;
        primary_lock = l.primary;
        lock_version = l.start_ts;
        lock_ttl = l.ttl;
      }))
]
convert_to_key_error (retryable text) = some (key_retryable (String.◌++◌ "retryable: " text))
convert_to_key_error x = some (key_abort x)

-- One more element, if neither it nor the rest has panicked
abbrev pub push {ℓ} : {A : Type ℓ} → Option A → Option (List A) → Option (List A)
push none rest = none
push (some x) none = none
push (some x) (some rest) = some (x ∷ rest)

-- convertToKeyErrors
unfoldable pub convert_to_key_errors : List (Option Error) → Option (List KeyError)
unfolding convert_to_key_error
convert_to_key_errors [] = some []
convert_to_key_errors (none ∷ errs) = convert_to_key_errors errs
convert_to_key_errors (some x ∷ errs) = push (convert_to_key_error x) (convert_to_key_errors errs)

-- kvrpcpb.KvPair
pub record KvPair : Type 0 where
  pub key : Bytes
  pub value : Option Bytes
  pub error : Option KeyError

abbrev pub failed_pair : Option KeyError → Option KvPair
failed_pair none = none
failed_pair (some x) = some (record { key = []; value = none; error = some x })

-- A round of convertToPbPairs
unfoldable pub convert_to_pb_pair : Pair → Option KvPair
unfolding convert_to_key_error
convert_to_pb_pair p = elim p.error [
  | none ↦ some (record { key = p.key; value = p.value; error = none })
  | some x ↦ failed_pair (convert_to_key_error x)
]

-- convertToPbPairs
unfoldable pub convert_to_pb_pairs : List Pair → Option (List KvPair)
unfolding convert_to_pb_pair
convert_to_pb_pairs [] = some []
convert_to_pb_pairs (p ∷ pairs) = push (convert_to_pb_pair p) (convert_to_pb_pairs pairs)

abbrev pub without_values : List KvPair → List KvPair
without_values [] = []
without_values (p ∷ pairs) = record p { value = none } ∷ without_values pairs

-- convertToPbPairsKeyOnly
unfoldable pub convert_to_pb_pairs_key_only : List Pair → Option (List KvPair)
unfolding convert_to_pb_pairs
convert_to_pb_pairs_key_only pairs = elim (convert_to_pb_pairs pairs) [
  | none ↦ none
  | some kv_pairs ↦ some (without_values kv_pairs)
]

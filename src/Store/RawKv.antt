-- ===== src/Store/RawKv.antt =====
-- The raw handlers of server/store.go, and those that only check the request: KvGC, Coprocessor,
-- CoprocessorStream, MvccGetByKey, MvccGetByStartTs and RawBatchScan.
use mock_tikv.Prelude.{ℕ, Bool, Option, none, some, List, [], ◌∷◌, Bytes, if◌then◌else◌}
use Prim.Native.String.{String}
use mock_tikv.Engine.{Engine}
use mock_tikv.Mvcc.Raw.{
  raw_put, raw_batch_put, raw_get, raw_batch_get, raw_delete, raw_batch_delete, raw_scan,
  raw_delete_range,
}
use mock_tikv.Store.{
  StoreInstance, State, Call, check_key_in_region, KvPair, Reply, panicked, answered,
  convert_to_pb_pairs,
}
use mock_tikv.Store.Check.{check_request, served}
use mock_tikv.Store.Kv.{reply_with, scan_pairs}

-- The state and the answer behind an operation that writes
abbrev pub wrote : {Db : Type 0} → State Db → Db → State Db × Reply (Unit {0})
wrote st db = (record st { db = db }, answered tt)

abbrev pub wrote_all : {Db : Type 0} → State Db → Option Db → State Db × Reply (Unit {0})
wrote_all st none = (st, panicked)
wrote_all st (some db) = wrote st db

-- The two slices that RawBatchPut makes of its pairs
abbrev pub pair_keys : List KvPair → List Bytes
pair_keys [] = []
pair_keys (p ∷ pairs) = p.key ∷ pair_keys pairs

abbrev pub bytes_or_nil : Option Bytes → Bytes
bytes_or_nil none = []
bytes_or_nil (some b) = b

abbrev pub pair_values : List KvPair → List Bytes
pair_values [] = []
pair_values (p ∷ pairs) = bytes_or_nil p.value ∷ pair_values pairs

module _ (e : Engine) (s : StoreInstance) where
  -- RawGet
  unfoldable pub kv_raw_get : State e.Db → Call → Bytes → State e.Db × Reply (Option Bytes)
  unfolding check_request raw_get
  kv_raw_get st call key =
      served (check_request s st.cluster call) st (λ ctx. (st, answered (raw_get e st.db key)))

  -- RawBatchGet
  unfoldable pub kv_raw_batch_get :
      State e.Db → Call → List Bytes → State e.Db × Reply (List KvPair)
  unfolding check_request raw_batch_get convert_to_pb_pairs
  kv_raw_batch_get st call keys =
      served (check_request s st.cluster call) st
        (λ ctx. (st, reply_with (convert_to_pb_pairs (raw_batch_get e st.db keys))))

  -- RawPut
  unfoldable pub kv_raw_put : State e.Db → Call → Bytes → Bytes → State e.Db × Reply (Unit {0})
  unfolding check_request raw_put
  kv_raw_put st call key value =
      served (check_request s st.cluster call) st (λ ctx. wrote st (raw_put e st.db key value))

  -- RawBatchPut
  unfoldable pub kv_raw_batch_put : State e.Db → Call → List KvPair → State e.Db × Reply (Unit {0})
  unfolding check_request raw_batch_put
  kv_raw_batch_put st call pairs =
      served (check_request s st.cluster call) st
        (λ ctx. wrote_all st (raw_batch_put e st.db (pair_keys pairs) (pair_values pairs)))

  -- RawDelete
  unfoldable pub kv_raw_delete : State e.Db → Call → Bytes → State e.Db × Reply (Unit {0})
  unfolding check_request raw_delete
  kv_raw_delete st call key =
      served (check_request s st.cluster call) st (λ ctx. wrote st (raw_delete e st.db key))

  -- RawBatchDelete
  unfoldable pub kv_raw_batch_delete :
      State e.Db → Call → List Bytes → State e.Db × Reply (Unit {0})
  unfolding check_request raw_batch_delete
  kv_raw_batch_delete st call keys =
      served (check_request s st.cluster call) st (λ ctx. wrote st (raw_batch_delete e st.db keys))

  -- RawScan
  unfoldable pub kv_raw_scan :
      State e.Db → Call → Bytes → Bytes → ℕ → Bool → State e.Db × Reply (List KvPair)
  unfolding check_request raw_scan scan_pairs
  kv_raw_scan st call start_key end_key limit key_only =
      served (check_request s st.cluster call) st
        (λ ctx. (st, reply_with (scan_pairs key_only (raw_scan e st.db start_key end_key limit))))

  -- RawDeleteRange. The limit is nil where the request has no end key.
  unfoldable pub kv_raw_delete_range :
      State e.Db → Call → Bytes → Option Bytes → State e.Db × Reply (Unit {0})
  unfolding check_request raw_delete_range
  kv_raw_delete_range st call start_key end_key =
      served (check_request s st.cluster call) st
        (λ ctx. wrote st (raw_delete_range e st.db start_key end_key))

module _ {Db : Type 0} (s : StoreInstance) where
  -- RawBatchScan
  unfoldable pub raw_batch_scan : State Db → Call → State Db × Reply (Unit {0})
  unfolding check_request
  raw_batch_scan st call = served (check_request s st.cluster call) st (λ ctx. (st, panicked))

  -- KvGC, Coprocessor and CoprocessorStream, whose answer is empty
  unfoldable pub kv_gc : State Db → Call → State Db × Reply (Unit {0})
  unfolding check_request
  kv_gc st call = served (check_request s st.cluster call) st (λ ctx. (st, answered tt))

  unfoldable pub coprocessor : State Db → Call → State Db × Reply (Unit {0})
  unfolding check_request
  coprocessor st call = served (check_request s st.cluster call) st (λ ctx. (st, answered tt))

  -- MvccGetByKey, whose answer is the text of its error
  unfoldable pub mvcc_get_by_key : State Db → Call → Bytes → State Db × Reply String
  unfolding check_request check_key_in_region
  mvcc_get_by_key st call key =
      served (check_request s st.cluster call) st
        (λ ctx. (st, if check_key_in_region ctx key then answered "not implemented" else panicked))

  -- MvccGetByStartTs
  unfoldable pub mvcc_get_by_start_ts : State Db → Call → State Db × Reply String
  unfolding check_request
  mvcc_get_by_start_ts st call =
      served (check_request s st.cluster call) st (λ ctx. (st, answered "not implemented"))

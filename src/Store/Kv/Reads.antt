-- ===== src/Store/Kv/Reads.antt =====
-- A client that asks for the region of a key, and reads the key from the leader's store.
use mock_tikv.Prelude.{
  ℕ, ◌≡◌, ◌≢◌, ◌≤◌, ◌<◌, ◌^◌, ap, ◌∙◌, true, none, some, List, Bytes, ◌==◌, if◌then◌else◌, All,
}
use mock_tikv.Key.{new_mvcc_key, lock_ver}
use mock_tikv.Entry.{IsolationLevel, op_lock, op_put}
use mock_tikv.Marshal.{MvccLock}
use mock_tikv.Engine.{Engine, EngineLaws}
use mock_tikv.Mvcc.{get}
use mock_tikv.Mvcc.Write.{commit}
use mock_tikv.Mvcc.Cells.{Cell, Holds, lock_of, values_of}
use mock_tikv.Mvcc.Cells.Read.{view_get, get-view}
use mock_tikv.Mvcc.Cells.Effect.{mem_key}
use mock_tikv.Mvcc.Spec.Commit.{owned}
use mock_tikv.Mvcc.Spec.Visible.{commit_after}
use mock_tikv.Cluster.{Peer, Region, get_region_by_key}
use mock_tikv.Store.{StoreInstance, State, Call, answered}
use mock_tikv.Store.Check.{request_max_size, served}
use mock_tikv.Store.Sound.{IsSound}
use mock_tikv.Store.Route.{routed, check_request-routed}
use mock_tikv.Store.Kv.{reply_result, kv_get, kv_commit}
use mock_tikv.Store.Kv.Outcome.{kv_commit-Applied}

module _ (e : Engine) where
  -- A read that has been routed is the read of the database.
  pub kv_get-routed :
      (s : StoreInstance) (st : State e.Db) (key : Bytes) (version : ℕ) (iso : IsolationLevel)
      (size : ℕ) (region : Region) (leader : Peer)
      → IsSound st
      → size < request_max_size
      → get_region_by_key st.cluster (new_mvcc_key key) ≡ some (region, some leader)
      → s.id ≡ leader.store_id
      → (kv_get e s st (routed region leader iso size) key version).1
        ≡ reply_result (get e st.db key version iso)
  unfolding kv_get
  kv_get-routed s st key version iso size region leader sound small found on =
      let (passes, holds) =
        check_request-routed st key iso size s region leader sound small found on in
      ap
        (λ checked.
          (served checked st
            (λ ctx. (st, reply_result (get e st.db key version ctx.isolation_level)))).1)
        passes

module _ (e : Engine) (laws : EngineLaws e) where
  -- A KvGet that is sent, for the region that getRegionByKey finds for the key and below
  -- requestMaxSize, to the store of its leader, with no fail point hit, answers what the lock and
  -- the values of the key say. The cluster is sound, the engine keeps its laws, and the database
  -- holds cells that can be stored and read back.
  pub kv_get-view :
      (s : StoreInstance) (st : State e.Db) (cells : List Cell) (key : Bytes) (version : ℕ)
      (iso : IsolationLevel) (size : ℕ) (region : Region) (leader : Peer)
      → IsSound st
      → Holds e st.db cells
      → size < request_max_size
      → get_region_by_key st.cluster (new_mvcc_key key) ≡ some (region, some leader)
      → s.id ≡ leader.store_id
      → (kv_get e s st (routed region leader iso size) key version).1
        ≡ reply_result (view_get (lock_of key cells) (values_of key cells) key version iso)
  kv_get-view s st cells key version iso size region leader sound h small found on =
      kv_get-routed e s st key version iso size region leader sound small found on
      ∙ ap reply_result (get-view e laws st.db cells h key version iso)

  -- After a KvCommit that answers without an error, a KvGet of a key that the transaction had
  -- locked for a write, at or above the commit timestamp, answers the value of the lock, or nil if
  -- that is a deletion, provided that the key has no value newer than the commit. The cluster is
  -- sound, and the KvGet is sent, for the region that getRegionByKey finds and below
  -- requestMaxSize, to the store of its leader, with no fail point hit. The start timestamp is a
  -- uint64 and the commit timestamp is below lockVer. The engine keeps its laws, and the database
  -- holds cells that can be stored and read back.
  pub kv_get-kv_commit :
      (s1 s2 : StoreInstance) (st : State e.Db) (cells : List Cell) (call : Call)
      (keys : List Bytes) (start_ts commit_ts : ℕ) (key : Bytes) (l : MvccLock) (ts : ℕ)
      (iso : IsolationLevel) (size : ℕ) (region : Region) (leader : Peer)
      → IsSound st
      → Holds e st.db cells
      → start_ts < 256 ^ 8
      → commit_ts < lock_ver
      → (kv_commit e s1 st call keys start_ts commit_ts).1 ≡ answered tt
      → mem_key key keys ≡ true
      → owned key cells start_ts ≡ some l
      → l.op ≢ op_lock
      → commit_ts ≤ ts
      → All (λ v. v.commit_ts ≤ commit_ts) (values_of key cells)
      → size < request_max_size
      → get_region_by_key st.cluster (new_mvcc_key key) ≡ some (region, some leader)
      → s2.id ≡ leader.store_id
      → (kv_get e s2
          (kv_commit e s1 st call keys start_ts commit_ts).0
          (routed region leader iso size)
          key
          ts).1
        ≡ answered (if l.op == op_put then some l.value else none)
  unfolding reply_result
  kv_get-kv_commit s1 s2 st cells call keys start_ts commit_ts key l ts iso size region leader sound
        h hs hc answer mem own write above newest small found on =
      let (went_well, next) = kv_commit-Applied e s1 st call keys start_ts commit_ts answer in
      let after : State e.Db = record st { db = (commit e st.db keys start_ts commit_ts).0 } in
      let still : IsSound after = record {
        partition = sound.partition;
        placed = sound.placed;
        given_out = sound.given_out;
        led = sound.led;
      } in
      ap (λ now. (kv_get e s2 now (routed region leader iso size) key ts).1) next
      ∙ kv_get-routed e s2 after key ts iso size region leader still small found on
      ∙ ap reply_result (
          commit_after e laws st.db cells h keys start_ts commit_ts hs hc went_well key l mem own
            write ts iso above newest)

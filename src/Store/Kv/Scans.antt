-- ===== src/Store/Kv/Scans.antt =====
-- A client that asks for the region of a key, and scans from that key on the leader's store.
use mock_tikv.Prelude.{[], ◌&&◌, ℕ, ◌≡◌, ◌<◌, ap, ◌∙◌, Bool, some, List, Bytes, take}
use mock_tikv.Key.{new_mvcc_key}
use mock_tikv.Entry.{IsolationLevel}
use mock_tikv.Engine.{Engine, EngineLaws}
use mock_tikv.Mvcc.{get}
use mock_tikv.Mvcc.Scan.{scan}
use mock_tikv.Mvcc.Cells.{Cell, Holds}
use mock_tikv.Mvcc.Cells.Keys.{keys_in, inside, scanned}
use mock_tikv.Store.Kv.Bounds.{scanned-scan_end, inside-same}
use mock_tikv.Store.Kv.Answers.{answers, get-IsRead, scan_pairs-reads}
use mock_tikv.Mvcc.Cells.Gets.{reads}
use mock_tikv.Mvcc.Cells.Scan.{scan-get}
use mock_tikv.Cluster.{Peer, Region, get_region_by_key, bytes_of}
use mock_tikv.Store.{StoreInstance, State, answered}
use mock_tikv.Store.Check.{request_max_size, served}
use mock_tikv.Store.Sound.{IsSound}
use mock_tikv.Store.Route.{routed, check_request-routed}
use mock_tikv.Store.Kv.{reply_with, scan_end, scan_reply, kv_scan}

module _ (e : Engine) (laws : EngineLaws e) where
  -- A KvScan that is sent, for the region that getRegionByKey finds for its start key and below
  -- requestMaxSize, to the store of its leader, with no fail point hit, answers, up to the limit,
  -- with a pair for each key of its range that Get has a value for, the value left out if only
  -- keys are asked for, and with a pair that describes the lock for each key that Get fails for,
  -- in the order of the keys. The range is that of the keys of the stored cells from the start key
  -- on, below the end key of the request and below the end key of the region, each of them if it
  -- is not empty. The cluster is sound, the engine keeps its laws, and the database holds cells
  -- that can be stored and read back.
  pub kv_scan-get :
      (s : StoreInstance) (st : State e.Db) (cells : List Cell) (start_key end_key : Bytes)
      (limit version : ℕ) (key_only : Bool) (iso : IsolationLevel) (size : ℕ) (region : Region)
      (leader : Peer)
      → IsSound st
      → Holds e st.db cells
      → size < request_max_size
      → get_region_by_key st.cluster (new_mvcc_key start_key) ≡ some (region, some leader)
      → s.id ≡ leader.store_id
      → (kv_scan e s st (routed region leader iso size) start_key end_key limit version key_only).1
        ≡ answered (
            take limit (
              answers key_only
                (λ k. get e st.db k version iso)
                (keys_in (
                  inside
                    (λ k. scanned start_key end_key k && scanned [] (bytes_of region.end_key) k)
                    cells))))
  unfolding kv_scan
  kv_scan-get s st cells start_key end_key limit version key_only iso size region leader sound h
        small found on =
      let (passes, holds) =
        check_request-routed st start_key iso size s region leader sound small found on in
      ap
        (λ checked.
          (served checked st (λ ctx. (
            st,
            scan_reply key_only (
                scan e st.db start_key (scan_end ctx.end_key end_key) limit version
                  ctx.isolation_level),
          ))).1)
        passes
      ∙ ap (scan_reply key_only) (
          scan-get e laws st.db cells h start_key (scan_end (bytes_of region.end_key) end_key) limit
            version iso
          ∙ ap (λ cs. some (take limit (reads (λ k. get e st.db k version iso) (keys_in cs))))
              (inside-same _ _ cells
                (scanned-scan_end start_key (bytes_of region.end_key) end_key)))
      ∙ ap reply_with (
          scan_pairs-reads key_only (λ k. get e st.db k version iso) _ limit
            (λ k. get-IsRead e laws st.db cells h k version iso))

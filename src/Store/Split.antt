-- ===== src/Store/Split.antt =====
-- SplitRegion of server/store.go, over getRegionByKey, allocID, allocIDs and SplitRaw.
use mock_tikv.Prelude.{ℕ, Option, none, some, List, [], ◌∷◌, Bytes, if◌then◌else◌, is_empty, length}
use mock_tikv.Bytes.{equal}
use mock_tikv.Key.{new_mvcc_key}
use mock_tikv.Cluster.{
  Peer, Region, find_by_key, get_region_by_key, SplitResult, region_not_found, index_panic,
  split_into, split_raw,
}
use mock_tikv.Server.{alloc_id, alloc_ids}
use mock_tikv.Store.{StoreInstance, State, Call, lost_region, Reply, panicked, failed, answered}
use mock_tikv.Store.Check.{check_request, served}

-- The two regions of the response; it is empty where the region begins at the key.
abbrev pub Halves : Type 0
Halves = Option (Region × Region)

module _ {Db : Type 0} where
  -- SplitRegion behind SplitRaw
  abbrev pub split_reply : State Db → SplitResult → State Db × Reply Halves
  split_reply st region_not_found = (st, failed lost_region)
  split_reply st index_panic = (st, panicked)
  split_reply st (split_into c left right) =
      (record st { cluster = c }, answered (some (left, right)))

  -- SplitRegion with the new region's id, the ids of its peers, and the counter behind them. Without
  -- a peer `newPeerIDs[0]` panics.
  unfoldable pub split_with : State Db → Region → Bytes → ℕ → List ℕ × ℕ → State Db × Reply Halves
  unfolding split_raw
  split_with st region key new_region_id ([], after) = (record st { id_alloc = after }, panicked)
  split_with st region key new_region_id (p ∷ ps, after) =
      split_reply (record st { id_alloc = after })
        (split_raw st.cluster region.id new_region_id key (p ∷ ps) p)

  -- SplitRegion behind getRegionByKey; a nil region has a nil start key, and the list of
  -- its peers is asked for behind allocID.
  unfoldable pub split_found :
      State Db → Bytes → Option (Region × Option Peer) → State Db × Reply Halves
  unfolding split_with alloc_ids equal
  split_found st key none =
      if is_empty key
      then (st, answered none)
      else (record st { id_alloc = alloc_id st.id_alloc }, panicked)
  split_found st key (some (region, leader)) =
      if equal region.start_key key
      then (st, answered none)
      else (let new_region_id = alloc_id st.id_alloc in
          split_with st region key new_region_id (alloc_ids (length region.peers) new_region_id))

  -- SplitRegion
  unfoldable pub split_region : StoreInstance → State Db → Call → Bytes → State Db × Reply Halves
  unfolding check_request split_found new_mvcc_key find_by_key
  split_region s st call split_key = served (check_request s st.cluster call) st (λ ctx.
      let key = new_mvcc_key split_key in split_found st key (get_region_by_key st.cluster key))

-- ===== src/Store/Check.antt =====
-- checkRequestSize, checkRequestContext and checkRequest of server/store.go, with which every handler
-- begins.
use mock_tikv.Prelude.{
  ℕ, ◌*◌, Bool, false, not, Option, none, some, List, [], ◌∷◌, ◌==◌, leb, if◌then◌else◌, ◌&&◌,
}
use mock_tikv.Cluster.{
  Peer, Region, Cluster, bytes_of, get_region_by_id, get_region_by_key, find_by_id, find_by_key,
}
use mock_tikv.Store.{
  StoreInstance, Epoch, Context, Call, RequestContext, RegionError, server_is_busy, store_not_match,
  raft_entry_too_large, region_not_found, not_leader, epoch_not_match, CallError, undetermined,
  Reply, panicked, failed, region_error,
}

-- requestMaxSize
abbrev pub request_max_size : ℕ
request_max_size = 8 * 1024 * 1024

-- checkRequestSize
unfoldable pub check_request_size : ℕ → Option RegionError
check_request_size size = if leb request_max_size size then some raft_entry_too_large else none

-- What checkRequest returns: an error of the call, one of the region, or the context
pub data Checked : Type 0 where
  check_panicked : Checked
  check_failed : CallError → Checked
  refused : RegionError → Checked
  passed : RequestContext → Checked

-- The first test of checkRequestContext: whether the peer of the context lies on another store
abbrev pub other_store : Option Peer → ℕ → Bool
other_store none id = false
other_store (some p) id = not (p.store_id == id)

abbrev pub later {ℓ} : {A : Type ℓ} → Option A → Option A → Option A
later none o = o
later (some x) o = some x

-- `storePeer` and `leaderPeer` of the loop over the peers, each the last one that fits
unfoldable pub store_peer : List Peer → ℕ → Option Peer
store_peer [] id = none
store_peer (p ∷ ps) id = later (store_peer ps id) (if p.store_id == id then some p else none)

unfoldable pub last_peer : List Peer → ℕ → Option Peer
last_peer [] id = none
last_peer (p ∷ ps) id = later (last_peer ps id) (if p.id == id then some p else none)

-- proto.Equal of the region's epoch with that of the context, which may be nil
abbrev pub same_epoch : Region → Option Epoch → Bool
same_epoch r none = false
same_epoch r (some epoch) = (r.conf_ver == epoch.conf_ver) && (r.version == epoch.version)

abbrev pub current_regions : Region → Option (Region × Option Peer) → List Region
current_regions r none = r ∷ []
current_regions r (some (next, leader)) = r ∷ next ∷ []

-- checkRequestContext behind its tests of the leader
unfoldable pub check_epoch : StoreInstance → Cluster → Context → Region → Checked
unfolding find_by_key
check_epoch s c ctx region =
    if not (same_epoch region ctx.epoch)
    then refused
        (epoch_not_match (current_regions region (get_region_by_key c (bytes_of region.end_key))))
    else passed (record {
      store_id = s.id;
      start_key = region.start_key;
      end_key = bytes_of region.end_key;
      isolation_level = ctx.isolation_level;
    })

-- checkRequestContext behind its loop over the peers
unfoldable pub check_peers :
    StoreInstance → Cluster → Context → Region → Option Peer → Option Peer → Checked
unfolding check_epoch
check_peers s c ctx region none leader = refused (region_not_found ctx.region_id)
check_peers s c ctx region (some on_store) none =
    refused (not_leader "no leader" ctx.region_id none)
check_peers s c ctx region (some on_store) (some leader) =
    if not (on_store.id == leader.id)
    then refused (not_leader "not leader" ctx.region_id (some leader))
    else check_epoch s c ctx region

-- checkRequestContext on the region and its leader. A region without a leader is the panic on
-- `leader.Id`.
unfoldable pub check_region :
    StoreInstance → Cluster → Context → Option (Region × Option Peer) → Checked
unfolding check_peers store_peer last_peer
check_region s c ctx none = refused (region_not_found ctx.region_id)
check_region s c ctx (some (region, none)) = check_panicked
check_region s c ctx (some (region, some leader)) =
    check_peers s c ctx region (store_peer region.peers s.id) (last_peer region.peers leader.id)

-- checkRequestContext
unfoldable pub check_request_context : StoreInstance → Cluster → Context → Checked
unfolding check_region find_by_id
check_request_context s c ctx =
    if other_store ctx.peer s.id
    then refused store_not_match
    else check_region s c ctx (get_region_by_id c ctx.region_id)

-- The end of checkRequest: a request that is too large is refused, after its context.
abbrev pub with_size : Checked → Option RegionError → Checked
with_size (passed ctx) (some x) = refused x
with_size checked too_large = checked

-- checkRequest
unfoldable pub check_request : StoreInstance → Cluster → Call → Checked
unfolding check_request_context check_request_size
check_request s c call =
    if call.server_busy
    then refused server_is_busy
    else (if call.io_timeout
        then check_failed undetermined
        else with_size (check_request_context s c call.context) (check_request_size call.size))

-- The beginning of a handler: it goes on if the request has passed, and else returns.
abbrev pub served {ℓ κ} :
    {W : Type ℓ} {A : Type κ} → Checked → W → (RequestContext → W × Reply A) → W × Reply A
served check_panicked w next = (w, panicked)
served (check_failed x) w next = (w, failed x)
served (refused x) w next = (w, region_error x)
served (passed ctx) w next = next ctx

-- ===== src/Store/Route.antt =====
-- A client asks for the region of a key (getRegionByKey) and sends its requests to the store of the
-- region's leader, as server/member.go and server/store.go expect it.
use mock_tikv.Prelude.{
  ℕ, ◌≡◌, ◌<◌, refl, sym, ap, ◌∙◌, true, false, some, List, [], ◌∷◌, Bytes, ◌==◌, arith,
}
use mock_tikv.Key.{new_mvcc_key}
use mock_tikv.Entry.{IsolationLevel}
use mock_tikv.Cluster.{
  Peer, Region, Cluster, contains, leader_peer, find_peer, find_by_id, get_region_by_key,
}
use mock_tikv.Cluster.Split.{find_by_key-holders}
use mock_tikv.Cluster.Placed.{find_by_key-place, find_by_id-Placed, All-get_elem?}
use mock_tikv.Store.{StoreInstance, State, Call, check_key_in_region}
use mock_tikv.Store.Check.{
  request_max_size, passed, store_peer, last_peer, check_epoch, check_peers, check_region,
  check_request_context, check_request,
}
use mock_tikv.Store.Accepted.{context_of, epoch_of, check_request_size_iff}
use mock_tikv.Store.Sound.{IsSound, IsLed}

-- A request that a client sends for a region to its leader
abbrev pub routed : Region → Peer → IsolationLevel → ℕ → Call
routed region leader isolation_level size = record {
  context = record {
    region_id = region.id;
    epoch = some (epoch_of region);
    peer = some leader;
    isolation_level = isolation_level;
  };
  size = size;
  server_busy = false;
  io_timeout = false;
}

self_eq : (n : ℕ) → (n == n) ≡ true
self_eq n = ground arith

check_epoch_of :
    (s : StoreInstance) (c : Cluster) (region : Region) (leader : Peer) (iso : IsolationLevel)
    (size : ℕ)
    → check_epoch s c (routed region leader iso size).context region
      ≡ passed (context_of s (routed region leader iso size).context region)
unfolding check_epoch
check_epoch_of s c region leader iso size =
    rw (self_eq region.conf_ver) (rw (self_eq region.version) refl)

one_peer :
    (ps : List Peer) (p : Peer) (id : ℕ)
    → ps ≡ p ∷ []
    → id ≡ p.store_id
    → (store_peer ps id ≡ some p) × (last_peer ps p.id ≡ some p) × (find_peer ps p.id ≡ some p)
unfolding store_peer last_peer find_peer
one_peer ps p id q i =
    rw q (rw i (rw (self_eq p.store_id) refl, rw (self_eq p.id) refl, rw (self_eq p.id) refl))

-- The checks on a region of one peer, on the peer's store
check_peers_of :
    (s : StoreInstance) (c : Cluster) (region : Region) (p : Peer) (iso : IsolationLevel) (size : ℕ)
    → check_peers s c (routed region p iso size).context region (some p) (some p)
      ≡ passed (context_of s (routed region p iso size).context region)
unfolding check_peers
check_peers_of s c region p iso size = rw (self_eq p.id) (check_epoch_of s c region p iso size)

check_region_of :
    (s : StoreInstance) (c : Cluster) (region : Region) (p : Peer) (iso : IsolationLevel) (size : ℕ)
    → region.peers ≡ p ∷ []
    → s.id ≡ p.store_id
    → check_region s c (routed region p iso size).context (some (region, some p))
      ≡ passed (context_of s (routed region p iso size).context region)
unfolding check_region
check_region_of s c region p iso size q i =
    let (stored, leading, named) = one_peer region.peers p s.id q i in
    rw stored (rw leading (check_peers_of s c region p iso size))

check_context_of :
    (s : StoreInstance) (c : Cluster) (region : Region) (p : Peer) (iso : IsolationLevel) (size : ℕ)
    → find_by_id c.regions region.id ≡ some (region, some p)
    → region.peers ≡ p ∷ []
    → s.id ≡ p.store_id
    → check_request_context s c (routed region p iso size).context
      ≡ passed (context_of s (routed region p iso size).context region)
unfolding check_request_context
check_context_of s c region p iso size f q i =
    rw (sym i) (rw (self_eq s.id) (rw f (check_region_of s c region p iso size q i)))

-- In a sound cluster getRegionByKey finds a region and a leader for every key.
pub get_region_by_key-IsSound :
    {Db : Type 0} (st : State Db) (key : Bytes)
    → IsSound st
    → (region : Region) × (p : Peer) × (get_region_by_key st.cluster key ≡ some (region, some p))
get_region_by_key-IsSound st key sound =
    let regions : List Region = st.cluster.regions in
    let (region, found, holds) = find_by_key-holders regions key (sound.partition key) in
    let (in_it, leads, (place, at)) =
      find_by_key-place regions key region (leader_peer region) found in
    let (p, q, l) = All-get_elem? IsLed regions place region at sound.led in
    let (stored, leading, named) = one_peer region.peers p p.store_id q refl in
    let leader : leader_peer region ≡ some p = ap (find_peer region.peers) l ∙ named in
    (region, p, found ∙ ap (λ o. some (region, o)) leader)

-- In a sound cluster, a request below requestMaxSize that is sent for the region that
-- getRegionByKey finds for a key to the store of the region's leader, with the region's epoch and
-- no fail point hit, passes checkRequest, and the key is in the region that its context grants.
pub check_request-routed :
    {Db : Type 0} (st : State Db) (key : Bytes) (iso : IsolationLevel) (size : ℕ)
    (s : StoreInstance) (region : Region) (leader : Peer)
    → IsSound st
    → size < request_max_size
    → get_region_by_key st.cluster (new_mvcc_key key) ≡ some (region, some leader)
    → s.id ≡ leader.store_id
    → (check_request s st.cluster (routed region leader iso size)
        ≡ passed (context_of s (routed region leader iso size).context region))
      × (check_key_in_region (context_of s (routed region leader iso size).context region) key
          ≡ true)
unfolding check_request check_key_in_region contains
check_request-routed st key iso size s region leader sound small found on =
    let c : Cluster = st.cluster in
    let (holds, leads, (place, at)) =
      find_by_key-place c.regions (new_mvcc_key key) region (some leader) found in
    let (p, q, l) = All-get_elem? IsLed c.regions place region at sound.led in
    let (stored, leading, named) = one_peer region.peers p p.store_id q refl in
    let led : leader_peer region ≡ some p = ap (find_peer region.peers) l ∙ named in
    let same : p ≡ leader = cc (leads, led) in
    let by_id : find_by_id c.regions region.id ≡ some (region, some leader) =
      find_by_id-Placed c.region_by_id 0 c.regions place region at sound.placed
      ∙ ap (λ o. some (region, o)) (sym leads) in
    (
      rw (check_context_of s c region leader iso size by_id (q ∙ ap (λ x. x ∷ []) same) on)
          (rw ((check_request_size_iff size).1 small) refl),
      holds,
    )

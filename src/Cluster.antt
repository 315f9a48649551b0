-- ===== src/Cluster.antt =====
-- A cluster: clusterInstance of server/cluster.go with its regions (server/region.go). A region's
-- RegionEpoch is two numbers, 0 before `init` has made it; the members and the key-value store of the
-- cluster are not part of the state. The read-write mutex makes each method one step.
mod Tests
pub mod Split
pub mod Placed
pub mod SafePoint
pub mod Validate
use mock_tikv.Prelude.{
  ℕ, zero, suc, ◌+◌, ◌%◌, Bool, true, false, not, Option, none, some, List, [], ◌∷◌, ◌++◌, Bytes,
  length, get_elem?, ltb, ◌==◌, ◌&&◌, if◌then◌else◌, is_empty, add_u64,
}
use mock_tikv.Bytes.{equal, less_eq}
use mock_tikv.Key.{region_contains}

-- metapb.Peer
pub record Peer : Type 0 where
  pub id : ℕ
  pub store_id : ℕ

-- regionInstance. `end_key` is `none` for nil.
pub record Region : Type 0 where
  pub id : ℕ
  pub start_key : Bytes
  pub end_key : Option Bytes
  pub conf_ver : ℕ
  pub version : ℕ
  pub peers : List Peer
  pub leader : ℕ

-- clusterInstance. The regions are the objects that `regions` and `regionByID` share: the map leads
-- from an id to a place in the list.
pub record Cluster : Type 0 where
  pub cluster_id : ℕ
  pub max_peer_count : ℕ
  pub safe_point : ℕ
  pub regions : List Region
  pub region_by_id : List (ℕ × ℕ)

abbrev pub bytes_of : Option Bytes → Bytes
bytes_of none = []
bytes_of (some b) = b

-- newRegionInstance
abbrev pub new_region_instance : ℕ → Bytes → Option Bytes → Region
new_region_instance id start_key end_key = record {
  id = id;
  start_key = start_key;
  end_key = end_key;
  conf_ver = 0;
  version = 0;
  peers = [];
  leader = 0;
}

unfoldable pub find_peer : List Peer → ℕ → Option Peer
find_peer [] id = none
find_peer (p ∷ ps) id = if p.id == id then some p else find_peer ps id

-- regionInstance.leaderPeer
abbrev pub leader_peer : Region → Option Peer
leader_peer r = find_peer r.peers r.leader

-- regionContains on a region
unfoldable pub contains : Region → Bytes → Bool
contains r key = region_contains r.start_key (bytes_of r.end_key) key

-- The loop of getRegionByKey
unfoldable pub find_by_key : List Region → Bytes → Option (Region × Option Peer)
unfolding contains
find_by_key [] key = none
find_by_key (r ∷ rs) key = if contains r key then some (r, leader_peer r) else find_by_key rs key

-- getRegionByKey
abbrev pub get_region_by_key : Cluster → Bytes → Option (Region × Option Peer)
get_region_by_key c key = find_by_key c.regions key

unfoldable pub find_by_id : List Region → ℕ → Option (Region × Option Peer)
find_by_id [] id = none
find_by_id (r ∷ rs) id = if r.id == id then some (r, leader_peer r) else find_by_id rs id

-- getRegionByID, which looks in the list and not in the map
abbrev pub get_region_by_id : Cluster → ℕ → Option (Region × Option Peer)
get_region_by_id c region_id = find_by_id c.regions region_id

-- setConfig
abbrev pub set_config : Cluster → ℕ → Cluster
set_config c max_peer_count = record c { max_peer_count = max_peer_count }

-- updateSafePoint
unfoldable pub update_safe_point : Cluster → ℕ → Cluster
update_safe_point c safe_point =
    if ltb c.safe_point safe_point then record c { safe_point = safe_point } else c

-- regionByID[id]
unfoldable pub lookup_id : List (ℕ × ℕ) → ℕ → Option ℕ
lookup_id [] id = none
lookup_id ((i, place) ∷ rest) id = if i == id then some place else lookup_id rest id

-- The change of the region at a place
unfoldable pub set_at : List Region → ℕ → Region → List Region
set_at [] place r = []
set_at (x ∷ xs) zero r = r ∷ xs
set_at (x ∷ xs) (suc place) r = x ∷ set_at xs place r

-- The peers of the new region: those of the old one under new ids. `none` is the panic where there
-- are too few ids.
unfoldable pub split_peers : List Peer → List ℕ → Option (List Peer)
split_peers [] ids = some []
split_peers (p ∷ ps) [] = none
split_peers (p ∷ ps) (i ∷ ids) = elim (split_peers ps ids) [
  | none ↦ none
  | some rest ↦ some (record { id = i; store_id = p.store_id } ∷ rest)
]

pub data SplitResult : Type 0 where
  region_not_found index_panic : SplitResult
  split_into : Cluster → Region → Region → SplitResult

-- The origin of a split, with its key and its version changed
abbrev pub left_of : Region → Bytes → Region
left_of origin split_key = record origin {
  end_key = some split_key;
  version = add_u64 origin.version 1;
}

-- The new region of a split
abbrev pub right_of : Region → ℕ → Bytes → List Peer → ℕ → Region
right_of origin new_region_id split_key peers leader = record {
  id = new_region_id;
  start_key = split_key;
  end_key = origin.end_key;
  conf_ver = origin.conf_ver;
  version = add_u64 origin.version 1;
  peers = peers;
  leader = leader;
}

-- SplitRaw on the region at a place
abbrev pub split_at : Cluster → ℕ → Region → ℕ → Bytes → Option (List Peer) → ℕ → SplitResult
split_at c place origin new_region_id split_key none leader = index_panic
split_at c place origin new_region_id split_key (some peers) leader =
    let left = left_of origin split_key in
    let right = right_of origin new_region_id split_key peers leader in
    split_into
      (record c {
        regions = set_at c.regions place left ++ right ∷ [];
        region_by_id = (new_region_id, length c.regions) ∷ c.region_by_id;
      })
      left right

abbrev pub at_place : ℕ → Option Region → Option (ℕ × Region)
at_place place none = none
at_place place (some r) = some (place, r)

abbrev pub origin_at : Cluster → Option ℕ → Option (ℕ × Region)
origin_at c none = none
origin_at c (some place) = at_place place (get_elem? c.regions place)

abbrev pub split_origin : Cluster → Option (ℕ × Region) → ℕ → Bytes → List ℕ → ℕ → SplitResult
split_origin c none new_region_id split_key new_peer_ids leader = region_not_found
split_origin c (some (place, origin)) new_region_id split_key new_peer_ids leader =
    split_at c place origin new_region_id split_key (split_peers origin.peers new_peer_ids) leader

-- SplitRaw. What the source has changed before it panics is not modelled. The map leads to places that are in the list; one that did not would be a nil region.
unfoldable pub split_raw : Cluster → ℕ → ℕ → Bytes → List ℕ → ℕ → SplitResult
unfolding lookup_id set_at split_peers
split_raw c old_region_id new_region_id split_key new_peer_ids new_leader_peer_id =
    split_origin c (origin_at c (lookup_id c.region_by_id old_region_id)) new_region_id split_key
      new_peer_ids new_leader_peer_id

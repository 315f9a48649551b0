-- ===== src/Admin/Convert.antt =====
-- server/conversion.go: between the server's data and that of the HTTP interface (server/api).
use Prim.Native.String.{String}
use mock_tikv.Prelude.{ℕ, Bool, Option, List, [], ◌∷◌, Bytes, ◌==◌, if◌then◌else◌}
use mock_tikv.Cluster.{Peer, Region, new_region_instance}
use mock_tikv.Store.{StoreInstance}
use mock_tikv.Member.{Member, Instance, MetaStore, get_stores}

-- api.Member, without the name
pub record ApiMember : Type 0 where
  pub member_id : ℕ
  pub client_urls : List String

-- api.Peer
pub record ApiPeer : Type 0 where
  pub id : ℕ
  pub store_id : ℕ

-- api.RegionEpoch
pub record ApiEpoch : Type 0 where
  pub conf_ver : ℕ
  pub version : ℕ

-- api.Region
pub record ApiRegion : Type 0 where
  pub id : ℕ
  pub start_key : Bytes
  pub end_key : Option Bytes
  pub region_epoch : ApiEpoch
  pub peers : List ApiPeer

-- api.Store
pub record ApiStore : Type 0 where
  pub id : ℕ
  pub address : String
  pub state : String
  pub version : String

-- api.Cluster
pub record ApiCluster : Type 0 where
  pub id : ℕ
  pub members : List ApiMember
  pub regions : List ApiRegion
  pub stores : List ApiStore

abbrev pub convert_member_to_api : Member → List ApiMember
convert_member_to_api m = record { member_id = m.member_id; client_urls = m.client_urls } ∷ []

abbrev pub convert_peer_to_api : Peer → ApiPeer
convert_peer_to_api p = record { id = p.id; store_id = p.store_id }

abbrev pub convert_peers_to_api : List Peer → List ApiPeer
convert_peers_to_api [] = []
convert_peers_to_api (p ∷ ps) = convert_peer_to_api p ∷ convert_peers_to_api ps

abbrev pub convert_region_epoch_to_api : ℕ → ℕ → ApiEpoch
convert_region_epoch_to_api conf_ver version = record { conf_ver = conf_ver; version = version }

unfoldable pub convert_region_to_api : Region → ApiRegion
convert_region_to_api r = record {
  id = r.id;
  start_key = r.start_key;
  end_key = r.end_key;
  region_epoch = convert_region_epoch_to_api r.conf_ver r.version;
  peers = convert_peers_to_api r.peers;
}

unfoldable pub convert_regions_to_api : List Region → List ApiRegion
unfolding convert_region_to_api
convert_regions_to_api [] = []
convert_regions_to_api (r ∷ rs) = convert_region_to_api r ∷ convert_regions_to_api rs

unfoldable pub convert_api_to_region : ApiRegion → Region
convert_api_to_region r = new_region_instance r.id r.start_key r.end_key

unfoldable pub convert_api_to_regions : List ApiRegion → List Region
unfolding convert_api_to_region
convert_api_to_regions [] = []
convert_api_to_regions (r ∷ rs) = convert_api_to_region r ∷ convert_api_to_regions rs

-- convertAPIToStore, which takes nothing over
abbrev pub convert_api_to_store : ApiStore → StoreInstance
convert_api_to_store s = record {
  id = 0;
  address = "";
  state = 0;
  version = "";
  rpc_commit_result = "";
  rpc_commit_timeout = Bool.false;
}

abbrev pub convert_api_to_stores : List ApiStore → List StoreInstance
convert_api_to_stores [] = []
convert_api_to_stores (s ∷ ss) = convert_api_to_store s ∷ convert_api_to_stores ss

-- convertStoreStateToAPI, on the numbers of metapb.StoreState: Up 0, Offline 1, Tombstone 2
unfoldable pub convert_store_state_to_api : ℕ → String
convert_store_state_to_api state =
    if state == 0 then "Up" else (if state == 2 then "Tombstone" else "Offline")

unfoldable pub convert_store_to_api : MetaStore → ApiStore
unfolding convert_store_state_to_api
convert_store_to_api s = record {
  id = s.id;
  address = s.address;
  state = convert_store_state_to_api s.state;
  version = s.version;
}

unfoldable pub convert_stores_to_api : List MetaStore → List ApiStore
unfolding convert_store_to_api
convert_stores_to_api [] = []
convert_stores_to_api (s ∷ ss) = convert_store_to_api s ∷ convert_stores_to_api ss

-- convertClusterToAPI of a cluster that is not nil
unfoldable pub convert_cluster_to_api : {Db : Type 0} → Instance Db → ApiCluster
unfolding convert_regions_to_api convert_stores_to_api
convert_cluster_to_api i = record {
  id = i.cluster.cluster_id;
  members = convert_member_to_api i.member;
  regions = convert_regions_to_api i.cluster.regions;
  stores = convert_stores_to_api (get_stores i.stores);
}

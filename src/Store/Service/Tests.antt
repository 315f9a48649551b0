-- ===== src/Store/Service/Tests.antt =====
-- A cluster that is made with one region, and split.
use mock_tikv.Prelude.{◌≡◌, ◌⊎◌, refl, some, [], ◌∷◌, arith}
use mock_tikv.Errors.{ok}
use mock_tikv.Entry.{si}
use mock_tikv.Engine.Memory.{MemDb, memory, empty_db}
use mock_tikv.Cluster.{Peer, Region, new_region_instance}
use mock_tikv.Cluster.Validate.{validate_from}
use mock_tikv.Store.{StoreInstance, State, Call, RequestContext, new_store_instance}
use mock_tikv.Store.Accepted.{IsAccepted}
use mock_tikv.Store.Sound.{IsSound}
use mock_tikv.Store.Route.{routed}
use mock_tikv.Store.Service.{serve, splits_region, here, next}
use mock_tikv.Store.Service.Lifetime.{serve-IsAccepted, Reach-do_create_cluster}
use mock_tikv.Member.{Instance}
use mock_tikv.Admin.Create.{
  Server, Created, created, start, number_regions, number_stores, start_stores, init_regions,
  init_region, do_create_cluster,
}
use mock_tikv.Admin.Sound.{state_of}

abbrev empty_server : Server MemDb
empty_server = record { id_alloc = 0; clusters = [] }

abbrev peer : Peer
peer = record { id = 7; store_id = 3 }

abbrev all_keys : Region
all_keys = record (new_region_instance 2 [] (some [])) {
  conf_ver = 5;
  version = 6;
  peers = peer ∷ [];
  leader = 7;
}

abbrev store : StoreInstance
store = record (new_store_instance "3.0.0") { id = 3; address = "127.0.0.1:20161" }

abbrev made : Instance MemDb
made = record {
  cluster = record {
    cluster_id = 1;
    max_peer_count = 3;
    safe_point = 0;
    regions = all_keys ∷ [];
    region_by_id = (2, 0) ∷ [];
  };
  member = record { member_id = 4; client_urls = "http://127.0.0.1:20160" ∷ [] };
  stores = store ∷ [];
  db = empty_db;
}

abbrev server_after : Server MemDb
server_after = record { id_alloc = 7; clusters = (1, made) ∷ [] }

makes :
    ◌≡◌ {A = Server MemDb × Created MemDb}
      (do_create_cluster empty_server [] []
        ("127.0.0.1:20160" ∷ "127.0.0.1:20161" ∷ [])
        (ok empty_db))
      (server_after, created made)
unfolding do_create_cluster start number_regions number_stores start_stores init_regions init_region
    validate_from
makes = refl

abbrev begun : State MemDb
begun = state_of server_after made

abbrev call : Call
call = routed all_keys peer si 100

serve-IsAccepted_example :
    (serve memory store begun call (splits_region (109 ∷ [])) ≡ begun)
    ⊎ ((ctx : RequestContext) × IsAccepted store begun.cluster call ctx)
serve-IsAccepted_example = serve-IsAccepted memory store begun call (splits_region (109 ∷ []))

Reach-do_create_cluster_example : IsSound (serve memory store begun call (splits_region (109 ∷ [])))
Reach-do_create_cluster_example =
    Reach-do_create_cluster memory empty_server server_after [] []
      ("127.0.0.1:20160" ∷ "127.0.0.1:20161" ∷ []) (ok empty_db) made
      (serve memory store begun call (splits_region (109 ∷ []))) tt (omega arith) makes
      (next store call (splits_region (109 ∷ [])) here (omega arith))

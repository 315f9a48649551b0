-- ===== src/Admin/Create.antt =====
-- The creation of a cluster: doCreateCluster of server/server.go, start, startStores and initRegions of
-- server/cluster.go, and init of server/region.go. `net.Listen` gives an address for each listener, in
-- their order, and fails where none is left; what `stop` does after a failure is left out.
use Prim.Native.String
use Prim.Native.String.{String}
use mock_tikv.Prelude.{ℕ, suc, ◌%◌, Option, none, some, List, [], ◌∷◌, get_elem?, length}
use mock_tikv.Errors.{Error, Result, ok, err}
use mock_tikv.Cluster.{Region, Cluster, new_region_instance}
use mock_tikv.Cluster.Validate.{Checked, valid, validate_from, validate_region}
use mock_tikv.Server.{alloc_id}
use mock_tikv.Store.{StoreInstance, new_store_instance}
use mock_tikv.Member.{Member, Instance, new_member_instance}

-- Server: the counter of allocID, and the clusters under their ids
pub record Server (Db : Type 0) : Type 0 where
  pub id_alloc : ℕ
  pub clusters : List (ℕ × Instance Db)

-- The regions where none are given: one for all keys
abbrev pub or_default_region : List Region → List Region
or_default_region [] = new_region_instance 0 [] (some []) ∷ []
or_default_region (r ∷ rs) = r ∷ rs

-- The stores where none are given: one of defaultTiKVVersion
abbrev pub or_default_store : List StoreInstance → List StoreInstance
or_default_store [] = new_store_instance "3.0.0" ∷ []
or_default_store (s ∷ ss) = s ∷ ss

-- Regions with their ids, the map to their places, and the server's counter
abbrev pub Numbered : Type 0
Numbered = List Region × List (ℕ × ℕ) × ℕ

abbrev pub add_region : Region → Numbered → Numbered
add_region r (rs, places, counter) = (r ∷ rs, places, counter)

-- The loop over the regions, with the place, the counter and the map so far
unfoldable pub number_regions : ℕ → ℕ → List (ℕ × ℕ) → List Region → Numbered
number_regions place counter places [] = ([], places, counter)
number_regions place counter places (r ∷ rs) =
    let id = alloc_id counter in
    add_region (record r { id = id }) (number_regions (suc place) id ((id, place) ∷ places) rs)

-- The loop over the stores
unfoldable pub number_stores : ℕ → List StoreInstance → List StoreInstance × ℕ
number_stores counter [] = ([], counter)
number_stores counter (s ∷ ss) =
    let id = alloc_id counter in
    let (numbered, after) = number_stores id ss in (record s { id = id } ∷ numbered, after)

-- storeInstance.start: StoreState_Up is 0.
abbrev pub start_store : StoreInstance → String → StoreInstance
start_store s address = record s { address = address; state = 0 }

-- startStores; `none` is an error of net.Listen.
unfoldable pub start_stores : List StoreInstance → List String → Option (List StoreInstance)
start_stores [] addresses = some []
start_stores (s ∷ ss) [] = none
start_stores (s ∷ ss) (a ∷ addresses) = elim (start_stores ss addresses) [
  | none ↦ none
  | some started ↦ some (start_store s a ∷ started)
]

-- regionInstance.init: the region and the counter.
unfoldable pub init_region : Region → ℕ → StoreInstance → Region × ℕ
init_region r counter store =
    let conf_ver = alloc_id counter in
    let version = alloc_id conf_ver in
    let peer_id = alloc_id version in
    (
      record r {
        conf_ver = conf_ver;
        version = version;
        peers = record { id = peer_id; store_id = store.id } ∷ [];
        leader = peer_id;
      },
      peer_id,
    )

-- initRegions, from an index on: the regions and the counter. `none` is the panic on an index or a
-- remainder of no stores.
abbrev pub init_first : Region → ℕ → Option StoreInstance → Option (Region × ℕ)
init_first r counter none = none
init_first r counter (some store) = some (init_region r counter store)

abbrev pub init_before : Region → Option (List Region × ℕ) → Option (List Region × ℕ)
init_before r none = none
init_before r (some (rs, counter)) = some (r ∷ rs, counter)

unfoldable pub init_regions : ℕ → ℕ → List StoreInstance → List Region → Option (List Region × ℕ)
unfolding init_region
init_regions i counter stores [] = some ([], counter)
init_regions i counter stores (r ∷ rs) = elim (get_elem? stores (i % length stores)) [
  | none ↦ none
  | some store ↦
      let first = init_region r counter store in
      init_before first.0 (init_regions (suc i) first.1 stores rs)
]

-- What becomes of a creation
pub data Created (Db : Type 0) : Type 0 where
  invalid : Checked → Created Db
  not_started create_panicked : Created Db
  no_database : Error → Created Db
  created : Instance Db → Created Db

module _ {Db : Type 0} where
  -- The end of `start`, and of doCreateCluster behind it: the key-value store is opened and the cluster
  -- is entered.
  abbrev pub open_store :
      List (ℕ × Instance Db)
      → Cluster
      → Member
      → List StoreInstance
      → ℕ
      → Result Db
      → Server Db × Created Db
  open_store clusters c member stores counter (err x) =
      (record { id_alloc = counter; clusters = clusters }, no_database x)
  open_store clusters c member stores counter (ok db) =
      let i : Instance Db = record { cluster = c; member = member; stores = stores; db = db } in
      (record { id_alloc = counter; clusters = (c.cluster_id, i) ∷ clusters }, created i)

  -- `start` behind startStores
  abbrev pub init_cluster :
      List (ℕ × Instance Db)
      → Cluster
      → Member
      → List StoreInstance
      → ℕ
      → Result Db
      → Option (List Region × ℕ)
      → Server Db × Created Db
  init_cluster clusters c member stores counter opened none =
      (record { id_alloc = counter; clusters = clusters }, create_panicked)
  init_cluster clusters c member stores counter opened (some (regions, after)) =
      open_store clusters (record c { regions = regions }) member stores after opened

  abbrev pub start_cluster :
      List (ℕ × Instance Db)
      → Cluster
      → Member
      → ℕ
      → Result Db
      → Option (List StoreInstance)
      → Server Db × Created Db
  start_cluster clusters c member counter opened none =
      (record { id_alloc = counter; clusters = clusters }, not_started)
  start_cluster clusters c member counter opened (some stores) =
      init_cluster clusters c member stores counter opened (init_regions 0 counter stores c.regions)

  -- clusterInstance.start: the first address is the member's.
  unfoldable pub start :
      List (ℕ × Instance Db)
      → Cluster
      → Member
      → List StoreInstance
      → ℕ
      → List String
      → Result Db
      → Server Db × Created Db
  unfolding start_stores init_regions
  start clusters c member stores counter [] opened =
      (record { id_alloc = counter; clusters = clusters }, not_started)
  start clusters c member stores counter (a ∷ addresses) opened =
      start_cluster clusters c (record member { client_urls = String.◌++◌ "http://" a ∷ [] })
        counter opened (start_stores stores addresses)

  -- doCreateCluster behind the loops that give out the ids
  abbrev pub create_numbered :
      List (ℕ × Instance Db)
      → ℕ
      → List Region
      → List (ℕ × ℕ)
      → List StoreInstance × ℕ
      → List String
      → Result Db
      → Server Db × Created Db
  create_numbered clusters cluster_id regions places (stores, counter) addresses opened =
      let (member, after) = new_member_instance counter in
      start clusters
        (record {
          cluster_id = cluster_id;
          max_peer_count = 3;
          safe_point = 0;
          regions = regions;
          region_by_id = places;
        })
        member stores after addresses opened

  abbrev pub create_with :
      List (ℕ × Instance Db)
      → ℕ
      → Numbered
      → List StoreInstance
      → List String
      → Result Db
      → Server Db × Created Db
  create_with clusters cluster_id (regions, places, counter) stores addresses opened =
      create_numbered clusters cluster_id regions places (number_stores counter stores) addresses
        opened

  abbrev pub create_checked :
      Server Db → Checked → List StoreInstance → List String → Result Db → Server Db × Created Db
  create_checked server (valid regions) stores addresses opened =
      let cluster_id = alloc_id server.id_alloc in
      create_with server.clusters cluster_id (number_regions 0 cluster_id [] regions) stores
        addresses opened
  create_checked server x stores addresses opened = (server, invalid x)

  -- doCreateCluster
  unfoldable pub do_create_cluster :
      Server Db
      → List Region
      → List StoreInstance
      → List String
      → Result Db
      → Server Db × Created Db
  unfolding start number_regions number_stores validate_from
  do_create_cluster server regions stores addresses opened =
      create_checked server (validate_region (or_default_region regions)) (or_default_store stores)
        addresses opened

-- ===== src/Admin/Sound.antt =====
-- A cluster that doCreateCluster has made is sound.
use Prim.Native.String
use Prim.Native.String.{String}
use mock_tikv.Prelude.{
  ℕ, ◌+◌, ◌*◌, ◌^◌, ◌≡◌, ◌≤◌, ◌<◌, refl, ◌∙◌, Option, none, some, List, [], ◌∷◌, length, arith,
}
use mathlib.Core.Path.{subst}
use mock_tikv.Errors.{Result, ok, err}
use mock_tikv.Cluster.{Cluster, Region, new_region_instance}
use mock_tikv.Cluster.Split.{IsPartition}
use mock_tikv.Cluster.Validate.{
  Checked, valid, first_start_not_empty, start_is_not_last_end, start_not_below_end,
  last_end_not_empty, validate_region,
}
use mock_tikv.Cluster.Validate.Partition.{Closed, length-validate_from, validate_region-IsPartition}
use mock_tikv.Cluster.Placed.{Placed, IdsUpTo}
use mock_tikv.Server.{alloc_id}
use mock_tikv.Store.{StoreInstance, State}
use mock_tikv.Store.Sound.{IsSound}
use mock_tikv.Member.{Member, Instance}
use mock_tikv.Admin.Create.{
  Server, Created, created, Numbered, number_regions, number_stores, start_stores, init_regions,
  open_store, init_cluster, start_cluster, start, create_with, create_checked, or_default_region,
  or_default_store, do_create_cluster,
}
use mock_tikv.Admin.Numbered.{
  number_regions-counter, number_regions-Placed, number_regions-IdsUpTo, number_regions-holders,
  length-number_regions,
}
use mock_tikv.Admin.Initial.{
  IsInitial, init_regions-IsInitial, IsInitial-Placed, IsInitial-IdsUpTo, IsInitial-IsLed,
  IsInitial-holders,
}

-- The state in which the stores of a cluster begin to serve
abbrev pub state_of : {Db : Type 0} → Server Db → Instance Db → State Db
state_of server i = record { cluster = i.cluster; id_alloc = server.id_alloc; db = i.db }

-- What is made, if anything is, is sound.
abbrev pub MakesSound : {Db : Type 0} → Server Db × Created Db → Type 0
MakesSound (server, created i) = IsSound (state_of server i)
MakesSound (server, x) = Unit

-- What `start` is given: numbered regions that are a partition, and counters that do not wrap
pub record IsReady (c : Cluster) (counter : ℕ) : Type 0 where
  pub partition : IsPartition c.regions
  pub placed : Placed c.region_by_id 0 c.regions
  pub given_out : IdsUpTo counter c.regions
  pub room : counter + 3 * length c.regions < 2 ^ 64

number_stores-counter :
    (counter : ℕ) (ss : List StoreInstance)
    → counter + length ss < 2 ^ 64
    → (number_stores counter ss).1 ≡ counter + length ss
unfolding number_stores
number_stores-counter counter [] h = omega arith
number_stores-counter counter (s ∷ ss) h =
    omega (arith, h, number_stores-counter (alloc_id counter) ss (omega (arith, h)))

module _ {Db : Type 0} (clusters : List (ℕ × Instance Db)) (c : Cluster) (member : Member) where
  open_store-MakesSound :
      (regions : List Region) (stores : List StoreInstance) (counter after : ℕ) (opened : Result Db)
      → IsReady c counter
      → IsInitial c.regions regions
      → counter ≤ after
      → MakesSound (open_store clusters (record c { regions = regions }) member stores after opened)
  open_store-MakesSound regions stores counter after (err x) ready init above = tt
  open_store-MakesSound regions stores counter after (ok db) ready init above = record {
    partition = λ key. IsInitial-holders c.regions regions key init ∙ ready.partition key;
    placed = IsInitial-Placed c.region_by_id 0 c.regions regions init ready.placed;
    given_out = IsInitial-IdsUpTo counter after c.regions regions above init ready.given_out;
    led = IsInitial-IsLed c.regions regions init;
  }

  init_cluster-MakesSound :
      (stores : List StoreInstance) (counter : ℕ) (opened : Result Db)
      (inited : Option (List Region × ℕ))
      → ◌≡◌ {A = Option (List Region × ℕ)} (init_regions 0 counter stores c.regions) inited
      → IsReady c counter
      → MakesSound (init_cluster clusters c member stores counter opened inited)
  init_cluster-MakesSound stores counter opened none q ready = tt
  init_cluster-MakesSound stores counter opened (some (regions, after)) q ready =
      let (init, above) =
        init_regions-IsInitial 0 counter stores c.regions regions after ready.room q in
      open_store-MakesSound regions stores counter after opened ready init above

  start_cluster-MakesSound :
      (counter : ℕ) (opened : Result Db) (started : Option (List StoreInstance))
      → IsReady c counter
      → MakesSound (start_cluster clusters c member counter opened started)
  start_cluster-MakesSound counter opened none ready = tt
  start_cluster-MakesSound counter opened (some stores) ready =
      init_cluster-MakesSound stores counter opened (init_regions 0 counter stores c.regions) refl
        ready

start-MakesSound :
    {Db : Type 0} (clusters : List (ℕ × Instance Db)) (c : Cluster) (member : Member)
    (stores : List StoreInstance) (counter : ℕ) (addresses : List String) (opened : Result Db)
    → IsReady c counter
    → MakesSound (start clusters c member stores counter addresses opened)
unfolding start
start-MakesSound clusters c member stores counter [] opened ready = tt
start-MakesSound clusters c member stores counter (a ∷ addresses) opened ready =
    start_cluster-MakesSound clusters c
      (record member { client_urls = String.◌++◌ "http://" a ∷ [] }) counter opened
      (start_stores stores addresses) ready

-- The ids that a creation takes: of the cluster, the regions and the stores, of the member, and three
-- for each region
abbrev pub ids_taken : ℕ → ℕ → ℕ
ids_taken regions stores = 2 + 4 * regions + stores

create_with-MakesSound :
    {Db : Type 0} (clusters : List (ℕ × Instance Db)) (cluster_id : ℕ) (regions : List Region)
    (stores : List StoreInstance) (addresses : List String) (opened : Result Db)
    → IsPartition regions
    → cluster_id + 1 + 4 * length regions + length stores < 2 ^ 64
    → MakesSound (
        create_with clusters cluster_id
          (number_regions 0 cluster_id [] regions)
          stores
          addresses
          opened)
create_with-MakesSound clusters cluster_id regions stores addresses opened part room =
    let n : Numbered = number_regions 0 cluster_id [] regions in
    let low : cluster_id + length regions < 2 ^ 64 = omega (arith, room) in
    let count : n.2 ≡ cluster_id + length regions =
      number_regions-counter 0 cluster_id [] regions low in
    let same : length n.0 ≡ length regions = length-number_regions 0 cluster_id [] regions in
    let counted : (number_stores n.2 stores).1 ≡ n.2 + length stores =
      number_stores-counter n.2 stores (omega (arith, count, room)) in
    let after : ℕ = alloc_id (number_stores n.2 stores).1 in
    start-MakesSound clusters
      (record {
        cluster_id = cluster_id;
        max_peer_count = 3;
        safe_point = 0;
        regions = n.0;
        region_by_id = n.1;
      })
      (record { member_id = after; client_urls = [] }) (number_stores n.2 stores).0 after addresses
      opened
      (record {
        partition = λ key. number_regions-holders 0 cluster_id [] regions key ∙ part key;
        placed = number_regions-Placed 0 cluster_id [] regions low;
        given_out =
            number_regions-IdsUpTo 0 cluster_id after [] regions low
              (omega (arith, count, counted, room));
        room = omega (arith, count, counted, same, room);
      })

create_checked-MakesSound :
    {Db : Type 0} (server : Server Db) (r : Region) (rest : List Region) (checked : Checked)
    (stores : List StoreInstance) (addresses : List String) (opened : Result Db)
    → validate_region (r ∷ rest) ≡ checked
    → Closed (r ∷ rest)
    → server.id_alloc + ids_taken (length (r ∷ rest)) (length stores) < 2 ^ 64
    → MakesSound (create_checked server checked stores addresses opened)
create_checked-MakesSound server r rest (valid out) stores addresses opened q closed room =
    create_with-MakesSound server.clusters (alloc_id server.id_alloc) out stores addresses opened
      (validate_region-IsPartition r rest out q closed)
      (omega (arith, room, length-validate_from none (r ∷ rest) out q))
create_checked-MakesSound server r rest first_start_not_empty stores addresses opened q closed
      room =
    tt
create_checked-MakesSound server r rest start_is_not_last_end stores addresses opened q closed
      room =
    tt
create_checked-MakesSound server r rest start_not_below_end stores addresses opened q closed room =
    tt
create_checked-MakesSound server r rest last_end_not_empty stores addresses opened q closed room =
    tt

do_create_cluster-MakesSound :
    {Db : Type 0} (server : Server Db) (regions : List Region) (stores : List StoreInstance)
    (addresses : List String) (opened : Result Db)
    → Closed (or_default_region regions)
    → server.id_alloc
        + ids_taken (length (or_default_region regions)) (length (or_default_store stores))
      < 2 ^ 64
    → MakesSound (do_create_cluster server regions stores addresses opened)
unfolding do_create_cluster
do_create_cluster-MakesSound server [] stores addresses opened closed room =
    let r : Region = new_region_instance 0 [] (some []) in
    create_checked-MakesSound server r [] (validate_region (r ∷ [])) (or_default_store stores)
      addresses opened refl closed room
do_create_cluster-MakesSound server (r ∷ rest) stores addresses opened closed room =
    create_checked-MakesSound server r rest (validate_region (r ∷ rest)) (or_default_store stores)
      addresses opened refl closed room

pub do_create_cluster-IsSound :
    {Db : Type 0} (server server' : Server Db) (regions : List Region) (stores : List StoreInstance)
    (addresses : List String) (opened : Result Db) (i : Instance Db)
    → Closed (or_default_region regions)
    → server.id_alloc
        + ids_taken (length (or_default_region regions)) (length (or_default_store stores))
      < 2 ^ 64
    → ◌≡◌ {A = Server Db × Created Db}
        (do_create_cluster server regions stores addresses opened)
        (server', created i)
    → IsSound (state_of server' i)
do_create_cluster-IsSound server server' regions stores addresses opened i closed room h =
    subst MakesSound h
      (do_create_cluster-MakesSound server regions stores addresses opened closed room)

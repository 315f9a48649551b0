-- ===== src/Admin.antt =====
-- The server's clusters: doGetCluster, doGetClusters and doDeleteCluster of server/server.go, and
-- the methods of server/handler.go. The children model the creation of a cluster, the conversions of
-- server/conversion.go and the fail points of a store. The stores' fail points are one registry, and
-- each store has the hook that updateFailPoint sets.
pub mod Create
pub mod Convert
pub mod Faults
pub mod Numbered
pub mod Initial
pub mod Sound
use text.Mathlib.Text
use Prim.Native.String.{String}
use mock_tikv.Prelude.{ℕ, Option, none, some, List, [], ◌∷◌, ◌==◌, if◌then◌else◌}
use mock_tikv.Errors.{Result}
use mock_tikv.Store.{StoreInstance}
use mock_tikv.Member.{Instance, find_store, get_stores, meta_of}
use mock_tikv.Admin.Create.{
  Server, Created, created, invalid, not_started, create_panicked, no_database, do_create_cluster,
}
use mock_tikv.Admin.Convert.{
  ApiRegion, ApiStore, ApiCluster, convert_api_to_regions, convert_api_to_stores,
  convert_cluster_to_api, convert_store_to_api, convert_stores_to_api,
}
use mock_tikv.Admin.Faults.{
  Failpoint, FaultError, fail_point_not_found, get_fail_points, delete_fail_point,
  update_fail_point,
}

-- errClusterNotFound, errStoreNotFound, the errors of getStore, and those of the fail points
pub data AdminError : Type 0 where
  cluster_not_found store_not_found zero_store_id : AdminError
  invalid_store_id : ℕ → AdminError
  fault : FaultError → AdminError

-- An answer or an error
pub data Answer (A : Type 0) : Type 0 where
  answer : A → Answer A
  admin_error : AdminError → Answer A

-- The answer of getStore
abbrev pub store_answer : ℕ → Option StoreInstance → Answer ApiStore
store_answer store_id none = admin_error (invalid_store_id store_id)
store_answer store_id (some s) = answer (convert_store_to_api (meta_of s))

module _ {Db : Type 0} where
  unfoldable pub lookup_cluster : List (ℕ × Instance Db) → ℕ → Option (Instance Db)
  lookup_cluster [] id = none
  lookup_cluster ((j, i) ∷ rest) id = if j == id then some i else lookup_cluster rest id

  unfoldable pub without_cluster : List (ℕ × Instance Db) → ℕ → List (ℕ × Instance Db)
  without_cluster [] id = []
  without_cluster ((j, i) ∷ rest) id =
      let others = without_cluster rest id in if j == id then others else (j, i) ∷ others

  -- doGetCluster
  abbrev pub do_get_cluster : Server Db → ℕ → Option (Instance Db)
  do_get_cluster server id = lookup_cluster server.clusters id

  -- doDeleteCluster
  unfoldable pub do_delete_cluster : Server Db → ℕ → Server Db
  unfolding without_cluster
  do_delete_cluster server id = record server { clusters = without_cluster server.clusters id }

  abbrev pub convert_found : Option (Instance Db) → Option ApiCluster
  convert_found none = none
  convert_found (some i) = some (convert_cluster_to_api i)

  -- GetCluster
  unfoldable pub get_cluster : Server Db → ℕ → Option ApiCluster
  unfolding lookup_cluster convert_cluster_to_api
  get_cluster server id = convert_found (do_get_cluster server id)

  -- GetClusters, in the order of the list; a Go map has none.
  abbrev pub convert_all : List (ℕ × Instance Db) → List ApiCluster
  convert_all [] = []
  convert_all ((j, i) ∷ rest) = convert_cluster_to_api i ∷ convert_all rest

  abbrev pub get_clusters : Server Db → List ApiCluster
  get_clusters server = convert_all server.clusters

  -- DeleteCluster
  abbrev pub delete_cluster : Server Db → ℕ → Server Db
  delete_cluster server id = do_delete_cluster server id

  -- The answer of CreateCluster, and its error where nothing has been made
  abbrev pub converted : Server Db × Created Db → Server Db × Option ApiCluster
  converted (server, created i) = (server, some (convert_cluster_to_api i))
  converted (server, x) = (server, none)

  -- CreateCluster; `none` is the error of doCreateCluster.
  unfoldable pub create_cluster :
      Server Db
      → List ApiRegion
      → List ApiStore
      → List String
      → Result Db
      → Server Db × Option ApiCluster
  unfolding do_create_cluster convert_api_to_regions convert_cluster_to_api
  create_cluster server regions stores addresses opened = converted (
      do_create_cluster server (convert_api_to_regions regions) (convert_api_to_stores stores)
        addresses opened)

  -- GetClusterStore
  abbrev pub cluster_store : ℕ → Option (Instance Db) → Answer ApiStore
  cluster_store store_id none = admin_error cluster_not_found
  cluster_store store_id (some i) =
      if store_id == 0
      then admin_error zero_store_id
      else store_answer store_id (find_store i.stores store_id)

  unfoldable pub get_cluster_store : Server Db → ℕ → ℕ → Answer ApiStore
  unfolding lookup_cluster find_store convert_store_to_api
  get_cluster_store server cluster_id store_id =
      cluster_store store_id (do_get_cluster server cluster_id)

  -- GetClusterStores
  abbrev pub cluster_stores : Option (Instance Db) → Answer (List ApiStore)
  cluster_stores none = admin_error cluster_not_found
  cluster_stores (some i) = answer (convert_stores_to_api (get_stores i.stores))

  unfoldable pub get_cluster_stores : Server Db → ℕ → Answer (List ApiStore)
  unfolding lookup_cluster convert_stores_to_api
  get_cluster_stores server cluster_id = cluster_stores (do_get_cluster server cluster_id)

-- A fail point among those listed
abbrev pub point_of : String → List (String × String) → Option String
point_of point [] = none
point_of point ((name, status) ∷ rest) =
    if Text.◌==◌ name point then some status else point_of point rest

abbrev pub point_answer : Option String → Answer String
point_answer none = admin_error (fault fail_point_not_found)
point_answer (some status) = answer status

abbrev pub fault_answer : Option FaultError → Answer (Unit {0})
fault_answer none = answer tt
fault_answer (some x) = admin_error (fault x)

-- getStoreFailPoints, updateStoreFailPoint and deleteStoreFailPoint of a cluster begin with the store.
abbrev pub with_store : {Db : Type 0} {A : Type 0} → Server Db → ℕ → ℕ → A → (AdminError → A) → A
with_store server cluster_id store_id a wrong = elim (do_get_cluster server cluster_id) [
  | none ↦ wrong cluster_not_found
  | some i ↦ elim (find_store i.stores store_id) [ none ↦ wrong store_not_found | some s ↦ a ]
]

-- The answer of GetStoreFailPoint
abbrev pub one_point : String → Answer (List (String × String)) → Answer String
one_point point (admin_error x) = admin_error x
one_point point (answer points) = point_answer (point_of point points)

-- The answer of UpdateStoreFailPoint
abbrev pub updated_answer :
    {P : Type 0} → P × Option String × Option FaultError → P × Option String × Answer (Unit {0})
updated_answer (points, hook, x) = (points, hook, fault_answer x)

-- The answer of DeleteStoreFailPoint
abbrev pub deleted_answer : {P : Type 0} → P × Option FaultError → P × Answer (Unit {0})
deleted_answer (points, x) = (points, fault_answer x)

module _ {Db : Type 0} (f : Failpoint) where
  -- GetStoreFailPoints
  unfoldable pub get_store_fail_points :
      Server Db → f.Points → ℕ → ℕ → Answer (List (String × String))
  unfolding lookup_cluster find_store
  get_store_fail_points server points cluster_id store_id =
      with_store server cluster_id store_id (answer (get_fail_points f points)) admin_error

  -- GetStoreFailPoint
  unfoldable pub get_store_fail_point : Server Db → f.Points → ℕ → ℕ → String → Answer String
  unfolding get_store_fail_points
  get_store_fail_point server points cluster_id store_id point =
      one_point point (get_store_fail_points server points cluster_id store_id)

  -- UpdateStoreFailPoint: the points, the store's hook, and the answer.
  unfoldable pub update_store_fail_point :
      Server Db
      → f.Points
      → Option String
      → ℕ
      → ℕ
      → String
      → String
      → f.Points × Option String × Answer (Unit {0})
  unfolding lookup_cluster find_store update_fail_point
  update_store_fail_point server points hook cluster_id store_id point value =
      with_store server cluster_id store_id
        (updated_answer (update_fail_point f points hook point value))
        (λ x. (points, hook, admin_error x))

  -- DeleteStoreFailPoint
  unfoldable pub delete_store_fail_point :
      Server Db → f.Points → ℕ → ℕ → String → f.Points × Answer (Unit {0})
  unfolding lookup_cluster find_store delete_fail_point
  delete_store_fail_point server points cluster_id store_id point =
      with_store server cluster_id store_id (deleted_answer (delete_fail_point f points point))
        (λ x. (points, admin_error x))

-- ===== src/Api.antt =====
-- The HTTP handlers of server/api/cluster.go and server/api/store.go: the status and the body of each
-- response. The router, `strconv.ParseUint` and the reading of a body are parameters: an id is
-- `none` where it does not parse, and so is a body that cannot be read.
use Prim.Native.String.{String}
use mock_tikv.Prelude.{ℕ, Option, none, some, List}
use mock_tikv.Errors.{Result}
use mock_tikv.Admin.Create.{Server}
use mock_tikv.Admin.Convert.{ApiRegion, ApiStore, ApiCluster}
use mock_tikv.Admin.Faults.{Failpoint}
use mock_tikv.Admin.{
  Answer, answer, admin_error, get_cluster, get_clusters, delete_cluster, create_cluster,
  get_cluster_store, get_cluster_stores, get_store_fail_points, get_store_fail_point,
  update_store_fail_point, delete_store_fail_point,
}

-- http.StatusOK and the errors, with a body where it is not the text of an error
pub data Response (A : Type 0) : Type 0 where
  status_ok : A → Response A
  bad_request not_found internal_server_error : Response A

abbrev pub or_not_found : {A : Type 0} → Option A → Response A
or_not_found none = not_found
or_not_found (some a) = status_ok a

-- The answer of a method, whose error is a 404
abbrev pub respond : {A : Type 0} → Answer A → Response A
respond (answer a) = status_ok a
respond (admin_error x) = not_found

-- A handler behind the ids of its path
abbrev pub with_id : {A : Type 0} → Option ℕ → (ℕ → Response A) → Response A
with_id none next = bad_request
with_id (some id) next = next id

-- parseClusterAndStoreID
abbrev pub with_ids : {A : Type 0} → Option ℕ → Option ℕ → (ℕ → ℕ → Response A) → Response A
with_ids none store_id next = bad_request
with_ids (some c) none next = bad_request
with_ids (some c) (some s) next = next c s

abbrev pub respond_with : {W A : Type 0} → W × Answer A → W × Response A
respond_with (w, a) = (w, respond a)

abbrev pub posted : {W A : Type 0} → W × Option A → W × Response A
posted (w, none) = (w, internal_server_error)
posted (w, some a) = (w, status_ok a)

-- The answer of UpdateFailPoint, beside the points and the hook
abbrev pub updated_response : {P H A : Type 0} → P × H × Answer A → P × H × Response A
updated_response (points, hook, a) = (points, hook, respond a)

module _ {Db : Type 0} where
  -- clusterHandler.Get
  unfoldable pub get : Server Db → Option ℕ → Response ApiCluster
  unfolding get_cluster
  get server id = with_id id (λ cluster_id. or_not_found (get_cluster server cluster_id))

  -- clusterHandler.List
  abbrev pub list : Server Db → Response (List ApiCluster)
  list server = status_ok (get_clusters server)

  -- clusterHandler.Post, with the regions and the stores of the body
  unfoldable pub post :
      Server Db
      → Option (List ApiRegion × List ApiStore)
      → List String
      → Result Db
      → Server Db × Response ApiCluster
  unfolding create_cluster
  post server none addresses opened = (server, internal_server_error)
  post server (some (regions, stores)) addresses opened =
      posted (create_cluster server regions stores addresses opened)

  -- clusterHandler.Delete
  unfoldable pub delete : Server Db → Option ℕ → Server Db × Response (Unit {0})
  delete server none = (server, bad_request)
  delete server (some id) = (delete_cluster server id, status_ok tt)

  -- storeHandler.List
  unfoldable pub list_stores : Server Db → Option ℕ → Response (List ApiStore)
  unfolding get_cluster_stores
  list_stores server id = with_id id (λ cluster_id. respond (get_cluster_stores server cluster_id))

  -- storeHandler.Get
  unfoldable pub get_store : Server Db → Option ℕ → Option ℕ → Response ApiStore
  unfolding get_cluster_store
  get_store server c s =
      with_ids c s (λ cluster_id store_id. respond (get_cluster_store server cluster_id store_id))

module _ (f : Failpoint) {Db : Type 0} where
  -- storeHandler.ListFailPoints
  unfoldable pub list_fail_points :
      Server Db → f.Points → Option ℕ → Option ℕ → Response (List (String × String))
  unfolding get_store_fail_points
  list_fail_points server points c s =
      with_ids c s
        (λ cluster_id store_id. respond (get_store_fail_points f server points cluster_id store_id))

  -- storeHandler.GetFailPoint
  unfoldable pub get_fail_point :
      Server Db → f.Points → Option ℕ → Option ℕ → String → Response String
  unfolding get_store_fail_point
  get_fail_point server points c s point = with_ids c s (λ cluster_id store_id.
      respond (get_store_fail_point f server points cluster_id store_id point))

  -- storeHandler.DeleteFailPoint
  unfoldable pub delete_fail_point :
      Server Db → f.Points → Option ℕ → Option ℕ → String → f.Points × Response (Unit {0})
  unfolding delete_store_fail_point
  delete_fail_point server points none s point = (points, bad_request)
  delete_fail_point server points (some c) none point = (points, bad_request)
  delete_fail_point server points (some c) (some s) point =
      respond_with (delete_store_fail_point f server points c s point)

  -- storeHandler.UpdateFailPoint
  unfoldable pub update_fail_point :
      Server Db
      → f.Points
      → Option String
      → Option String
      → Option ℕ
      → Option ℕ
      → String
      → f.Points × Option String × Response (Unit {0})
  unfolding update_store_fail_point
  update_fail_point server points hook none c s point = (points, hook, internal_server_error)
  update_fail_point server points hook (some value) none s point = (points, hook, bad_request)
  update_fail_point server points hook (some value) (some c) none point =
      (points, hook, bad_request)
  update_fail_point server points hook (some value) (some c) (some s) point =
      updated_response (update_store_fail_point f server points hook c s point value)

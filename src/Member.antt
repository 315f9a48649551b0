-- ===== src/Member.antt =====
-- The placement driver's service of server/member.go, over the cluster's accessors in
-- server/cluster.go. Every handler that reads the request's header takes the cluster id that it
-- names. The listeners and the grpc server are not part of the state.
mod Tests
pub mod Laws
use Prim.Native.String.{String}
use mock_tikv.Prelude.{
  ℕ, Bool, true, false, not, Option, none, some, List, [], ◌∷◌, Bytes, ◌==◌, if◌then◌else◌,
}
use mock_tikv.Cluster.{
  Peer, Region, Cluster, set_config, update_safe_point, find_by_key, find_by_id, get_region_by_key,
  get_region_by_id,
}
use mock_tikv.Server.{TsMu, get_ts, alloc_id}
use mock_tikv.Store.{StoreInstance}

-- memberInstance. Its name is a text of its id.
pub record Member : Type 0 where
  pub member_id : ℕ
  pub client_urls : List String

-- newMemberInstance: the member and the server's counter.
abbrev pub new_member_instance : ℕ → Member × ℕ
new_member_instance id_alloc =
    (record { member_id = alloc_id id_alloc; client_urls = [] }, alloc_id id_alloc)

-- clusterInstance with its member, its stores and its key-value store. `storeByID` has the stores of
-- the list under their ids.
pub record Instance (Db : Type 0) : Type 0 where
  pub cluster : Cluster
  pub member : Member
  pub stores : List StoreInstance
  pub db : Db

-- metapb.Store
pub record MetaStore : Type 0 where
  pub id : ℕ
  pub address : String
  pub state : ℕ
  pub version : String

abbrev pub meta_of : StoreInstance → MetaStore
meta_of s = record { id = s.id; address = s.address; state = s.state; version = s.version }

-- An answer, with the cluster id of its header, or a status: FailedPrecondition with the needed id and
-- the one received, Unknown with the error of getStore, or Unimplemented
pub data PdReply {ℓ} (A : Type ℓ) : Type ℓ where
  mismatch : ℕ → ℕ → PdReply A
  zero_store_id : PdReply A
  no_store : ℕ → PdReply A
  unimplemented : PdReply A
  pd_answer : ℕ → A → PdReply A

-- The loop of getStore
unfoldable pub find_store : List StoreInstance → ℕ → Option StoreInstance
find_store [] store_id = none
find_store (s ∷ ss) store_id = if s.id == store_id then some s else find_store ss store_id

abbrev pub get_stores : List StoreInstance → List MetaStore
get_stores [] = []
get_stores (s ∷ ss) = meta_of s ∷ get_stores ss

-- getConfig
abbrev pub get_config : Cluster → ℕ × ℕ
get_config c = (c.cluster_id, c.max_peer_count)

-- validateRequest at the beginning of a handler, and the handler behind it
unfoldable pub validated {ℓ κ} :
    {W : Type ℓ} {A : Type κ} → Cluster → ℕ → W → W × PdReply A → W × PdReply A
validated c header w result =
    if not (header == c.cluster_id) then (w, mismatch c.cluster_id header) else result

-- getStore behind validateRequest
abbrev pub store_reply : ℕ → ℕ → Option StoreInstance → PdReply MetaStore
store_reply cluster_id store_id none = no_store store_id
store_reply cluster_id store_id (some s) = pd_answer cluster_id (meta_of s)

module _ {Db : Type 0} where
  -- GetMembers
  abbrev pub get_members : Instance Db → PdReply (List Member × Member)
  get_members i = pd_answer i.cluster.cluster_id (i.member ∷ [], i.member)

  -- Bootstrap
  unfoldable pub bootstrap : Instance Db → ℕ → Instance Db × PdReply (Unit {0})
  unfolding validated
  bootstrap i header = validated i.cluster header i (i, pd_answer i.cluster.cluster_id tt)

  -- IsBootstrapped
  abbrev pub is_bootstrapped : Instance Db → PdReply Bool
  is_bootstrapped i = pd_answer i.cluster.cluster_id true

  -- AllocID, whose state is the server's counter
  unfoldable pub pd_alloc_id : Instance Db → ℕ → ℕ → ℕ × PdReply ℕ
  unfolding validated
  pd_alloc_id i id_alloc header =
      validated i.cluster header id_alloc
        (alloc_id id_alloc, pd_answer i.cluster.cluster_id (alloc_id id_alloc))

  -- GetStore
  unfoldable pub get_store : Instance Db → ℕ → ℕ → Instance Db × PdReply MetaStore
  unfolding validated find_store
  get_store i header store_id = validated i.cluster header i (
    i,
    if store_id == 0
        then zero_store_id
        else store_reply i.cluster.cluster_id store_id (find_store i.stores store_id),
  )

  -- GetAllStores
  unfoldable pub get_all_stores : Instance Db → ℕ → Instance Db × PdReply (List MetaStore)
  unfolding validated
  get_all_stores i header =
      validated i.cluster header i (i, pd_answer i.cluster.cluster_id (get_stores i.stores))

  -- GetRegion
  unfoldable pub get_region :
      Instance Db → ℕ → Bytes → Instance Db × PdReply (Option (Region × Option Peer))
  unfolding validated find_by_key
  get_region i header region_key =
      validated i.cluster header i
        (i, pd_answer i.cluster.cluster_id (get_region_by_key i.cluster region_key))

  -- GetRegionByID
  unfoldable pub pd_get_region_by_id :
      Instance Db → ℕ → ℕ → Instance Db × PdReply (Option (Region × Option Peer))
  unfolding validated find_by_id
  pd_get_region_by_id i header region_id =
      validated i.cluster header i
        (i, pd_answer i.cluster.cluster_id (get_region_by_id i.cluster region_id))

  -- GetClusterConfig
  unfoldable pub get_cluster_config : Instance Db → ℕ → Instance Db × PdReply (ℕ × ℕ)
  unfolding validated
  get_cluster_config i header =
      validated i.cluster header i (i, pd_answer i.cluster.cluster_id (get_config i.cluster))

  -- PutClusterConfig
  unfoldable pub put_cluster_config : Instance Db → ℕ → ℕ → Instance Db × PdReply (Unit {0})
  unfolding validated
  put_cluster_config i header max_peer_count = validated i.cluster header i (
    record i { cluster = set_config i.cluster max_peer_count },
    pd_answer i.cluster.cluster_id tt,
  )

  -- GetGCSafePoint
  unfoldable pub get_gc_safe_point : Instance Db → ℕ → Instance Db × PdReply ℕ
  unfolding validated
  get_gc_safe_point i header =
      validated i.cluster header i (i, pd_answer i.cluster.cluster_id i.cluster.safe_point)

  -- UpdateGCSafePoint, which answers the safe point of the request
  unfoldable pub update_gc_safe_point : Instance Db → ℕ → ℕ → Instance Db × PdReply ℕ
  unfolding validated update_safe_point
  update_gc_safe_point i header safe_point = validated i.cluster header i (
    record i { cluster = update_safe_point i.cluster safe_point },
    pd_answer i.cluster.cluster_id safe_point,
  )

-- TsoRequest, with the clock at its call of getTS and whether the response can be sent
pub record TsoRequest : Type 0 where
  pub header : ℕ
  pub count : ℕ
  pub now : ℕ
  pub sends : Bool

-- TsoResponse
pub record TsoResponse : Type 0 where
  pub cluster_id : ℕ
  pub timestamp : TsMu
  pub count : ℕ

-- How the stream of Tso ends: as it came to its end, with an error of the stream, or with a status
pub data TsoEnd : Type 0 where
  tso_end tso_broken : TsoEnd
  tso_mismatch : ℕ → ℕ → TsoEnd

abbrev pub tso_response : Cluster → ℕ → TsMu → TsoResponse
tso_response c count ts = record { cluster_id = c.cluster_id; timestamp = ts; count = count }

-- A response before the later ones
abbrev pub tso_sent :
    TsoResponse → TsMu × List TsoResponse × TsoEnd → TsMu × List TsoResponse × TsoEnd
tso_sent r (ts, rs, end) = (ts, r ∷ rs, end)

-- Tso on the requests that come, with the end of the stream: the timestamps' state and the responses
-- that are sent.
unfoldable pub tso : Cluster → TsoEnd → TsMu → List TsoRequest → TsMu × List TsoResponse × TsoEnd
unfolding get_ts
tso c end ts [] = (ts, [], end)
tso c end ts (r ∷ rs) =
    let next = get_ts r.now ts in
    let more = tso c end next rs in
    if not (r.header == c.cluster_id)
    then (ts, [], tso_mismatch c.cluster_id r.header)
    else (if r.sends then tso_sent (tso_response c r.count next) more else (next, [], tso_broken))

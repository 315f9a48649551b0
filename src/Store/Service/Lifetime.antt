-- ===== src/Store/Service/Lifetime.antt =====
-- A cluster from its creation on, under requests to any of its stores.
use mock_tikv.Prelude.{◌+◌, ◌^◌, ◌≡◌, ◌<◌, ◌⊎◌, inl, inr, List, length}
use Prim.Native.String.{String}
use mock_tikv.Errors.{Result}
use mock_tikv.Engine.{Engine}
use mock_tikv.Cluster.{Region}
use mock_tikv.Cluster.Validate.Partition.{Closed}
use mock_tikv.Store.{StoreInstance, State, Call, RequestContext}
use mock_tikv.Store.Accepted.{IsAccepted, check_request-IsAccepted}
use mock_tikv.Store.Sound.{IsSound}
use mock_tikv.Store.Service.{Request, serve, Reach}
use mock_tikv.Store.Service.Guarded.{serve-Guarded, Reach-IsSound}
use mock_tikv.Member.{Instance}
use mock_tikv.Admin.Create.{
  Server, Created, created, or_default_region, or_default_store, do_create_cluster,
}
use mock_tikv.Admin.Sound.{state_of, ids_taken, do_create_cluster-IsSound}

-- A request to a store leaves the state as it was, unless checkRequest has let it through. Then no
-- fail point was hit, the request is smaller than requestMaxSize, the context names this store or
-- none, and the region of its id has its leader on this store and has the epoch that the context
-- names.
pub serve-IsAccepted :
    (e : Engine) (s : StoreInstance) (st : State e.Db) (call : Call) (request : Request)
    → (serve e s st call request ≡ st) ⊎ ((ctx : RequestContext) × IsAccepted s st.cluster call ctx)
serve-IsAccepted e s st call request = elim (serve-Guarded e s st call request) [
  | inl same ↦ inl same
  | inr (ctx, q, keeps) ↦ inr (ctx, check_request-IsAccepted s st.cluster call ctx q)
]

-- Whatever requests the stores of a cluster that doCreateCluster has made are sent, one after
-- another, the cluster stays sound: each key is in one region, each region is found under its id
-- in `regionByID`, its id has been given out, and it has one peer, which is its leader. The given
-- regions but the last have an end key, the ids that the creation takes do not make the counter
-- wrap around, and each request finds two more ids left.
pub Reach-do_create_cluster :
    (e : Engine) (server server' : Server e.Db) (regions : List Region)
    (stores : List StoreInstance) (addresses : List String) (opened : Result e.Db)
    (i : Instance e.Db) (st : State e.Db)
    → Closed (or_default_region regions)
    → server.id_alloc
        + ids_taken (length (or_default_region regions)) (length (or_default_store stores))
      < 2 ^ 64
    → ◌≡◌ {A = Server e.Db × Created e.Db}
        (do_create_cluster server regions stores addresses opened)
        (server', created i)
    → Reach e (state_of server' i) st
    → IsSound st
Reach-do_create_cluster e server server' regions stores addresses opened i st closed room made
      reach =
    Reach-IsSound e (state_of server' i)
      (do_create_cluster-IsSound server server' regions stores addresses opened i closed room made)
      reach

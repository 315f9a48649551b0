-- ===== src/Store/Accepted.antt =====
-- What checkRequest of server/store.go has established when it lets a request through.
use mathlib.Core.List.{Memᴰ}
use mock_tikv.Prelude.{
  ℕ, ◌≡◌, ◌<◌, ◌↔◌, inl, inr, refl, sym, ap, ◌∙◌, Bool, true, false, Option, none, some, List, [],
  ◌∷◌, ◌==◌, leb, if◌then◌else◌, arith, Bool-cases, Option-cases,
}
use mock_tikv.Cluster.{Peer, Region, Cluster, bytes_of, get_region_by_id, find_by_id}
use mock_tikv.Store.{
  StoreInstance, Epoch, Context, Call, RequestContext, RegionError, server_is_busy, undetermined,
}
use mock_tikv.Store.Check.{
  request_max_size, check_request_size, Checked, check_panicked, check_failed, refused, passed,
  other_store, store_peer, last_peer, same_epoch, check_epoch, check_peers, check_region,
  check_request_context, with_size, check_request,
}

-- The context that lets a handler work on a region
abbrev pub context_of : StoreInstance → Context → Region → RequestContext
context_of s ctx region = record {
  store_id = s.id;
  start_key = region.start_key;
  end_key = bytes_of region.end_key;
  isolation_level = ctx.isolation_level;
}

abbrev pub epoch_of : Region → Epoch
epoch_of region = record { conf_ver = region.conf_ver; version = region.version }

-- A region of the context's id, whose leader is on the store, at the context's epoch
pub record IsServed (s : StoreInstance) (c : Cluster) (ctx : Context) (granted : RequestContext)
    : Type 0 where
  pub region : Region
  pub leader : Peer
  pub on_store : Peer
  pub found : get_region_by_id c ctx.region_id ≡ some (region, some leader)
  pub held : Memᴰ on_store region.peers
  pub here : on_store.store_id ≡ s.id
  pub leads : on_store.id ≡ leader.id
  pub same_epoch : ctx.epoch ≡ some (epoch_of region)
  pub granted_eq : granted ≡ context_of s ctx region

pub record IsAccepted (s : StoreInstance) (c : Cluster) (call : Call) (granted : RequestContext)
    : Type 0 where
  pub not_busy : call.server_busy ≡ false
  pub no_timeout : call.io_timeout ≡ false
  pub small : call.size < request_max_size
  pub addressed : other_store call.context.peer s.id ≡ false
  pub served : IsServed s c call.context granted

abbrev epoch_at : ℕ → ℕ → Epoch
epoch_at version conf_ver = record { conf_ver = conf_ver; version = version }

store_peer_mem :
    (ps : List Peer) (id : ℕ) (p : Peer) → store_peer ps id ≡ some p → Memᴰ p ps × (p.store_id ≡ id)
unfolding store_peer
store_peer_mem [] id p h = cc h
store_peer_mem (x ∷ xs) id p h = elim (Option-cases (store_peer xs id)) [
  | inr (y, q) ↦
      let same : y ≡ p = cc (rw q at h) in
      let (m, i) = store_peer_mem xs id p (q ∙ ap some same) in (Memᴰ.tail m, i)
  | inl q ↦ elim (Bool-cases (x.store_id == id)) [
    | inl t ↦
        let same : x ≡ p = cc (rw t at rw q at h) in
        (Memᴰ.head (sym same), rw (← same) (ground (arith, t)))
    | inr u ↦ cc (rw u at rw q at h)
  ]
]

check_epoch_passed :
    (s : StoreInstance) (c : Cluster) (ctx : Context) (region : Region) (epoch : Option Epoch)
    (granted : RequestContext)
    → ctx.epoch ≡ epoch
    → check_epoch s c ctx region ≡ passed granted
    → (epoch ≡ some (epoch_of region)) × (granted ≡ context_of s ctx region)
unfolding check_epoch
check_epoch_passed s c ctx region none granted q h = cc (rw q at h)
check_epoch_passed s c ctx region (some e) granted q h =
    elim (Bool-cases (same_epoch region (some e))) [
      | inr u ↦ cc (rw u at rw q at h)
      | inl t ↦ (ap some (epochs e region t), sym (cc (rw t at rw q at h)))
    ]
  where
    epochs : (e : Epoch) (region : Region) → same_epoch region (some e) ≡ true → e ≡ epoch_of region
    epochs e region t =
        let p : e.conf_ver ≡ region.conf_ver = ground (arith, t) in
        let q : e.version ≡ region.version = ground (arith, t) in
        ap (epoch_at e.version) p ∙ ap (λ n. record { conf_ver = region.conf_ver; version = n }) q

-- What checkRequestContext has found when it lets a context through
check_peers_passed :
    (s : StoreInstance) (c : Cluster) (ctx : Context) (region : Region)
    (stored leading : Option Peer) (granted : RequestContext)
    → check_peers s c ctx region stored leading ≡ passed granted
    → (p : Peer) × (l : Peer) × (stored ≡ some p)
      × (leading ≡ some l)
      × (p.id ≡ l.id)
      × (ctx.epoch ≡ some (epoch_of region))
      × (granted ≡ context_of s ctx region)
unfolding check_peers
check_peers_passed s c ctx region none leading granted h = cc h
check_peers_passed s c ctx region (some p) none granted h = cc h
check_peers_passed s c ctx region (some p) (some l) granted h = elim (Bool-cases (p.id == l.id)) [
  | inr u ↦ cc (rw u at h)
  | inl t ↦
      let (e, g) = check_epoch_passed s c ctx region ctx.epoch granted refl (rw t at h) in
      (p, l, refl, refl, ground (arith, t), e, g)
]

last_peer-id : (ps : List Peer) (id : ℕ) (p : Peer) → last_peer ps id ≡ some p → p.id ≡ id
unfolding last_peer
last_peer-id [] id p h = cc h
last_peer-id (x ∷ xs) id p h = elim (Option-cases (last_peer xs id)) [
  | inr (y, q) ↦ let same : y ≡ p = cc (rw q at h) in last_peer-id xs id p (q ∙ ap some same)
  | inl q ↦ elim (Bool-cases (x.id == id)) [
    | inl t ↦ let same : x ≡ p = cc (rw t at rw q at h) in rw (← same) (ground (arith, t))
    | inr u ↦ cc (rw u at rw q at h)
  ]
]

check_region-IsServed :
    (s : StoreInstance) (c : Cluster) (ctx : Context) (found : Option (Region × Option Peer))
    (granted : RequestContext)
    → get_region_by_id c ctx.region_id ≡ found
    → check_region s c ctx found ≡ passed granted
    → IsServed s c ctx granted
unfolding check_region
check_region-IsServed s c ctx none granted q h = cc h
check_region-IsServed s c ctx (some (region, none)) granted q h = cc h
check_region-IsServed s c ctx (some (region, some leader)) granted q h =
    let (p, l, stored, leading, same, e, g) =
      check_peers_passed s c ctx region (store_peer region.peers s.id)
        (last_peer region.peers leader.id) granted h in
    let (m, i) = store_peer_mem region.peers s.id p stored in
    record {
      region = region;
      leader = leader;
      on_store = p;
      found = q;
      held = m;
      here = i;
      leads = same ∙ last_peer-id region.peers leader.id l leading;
      same_epoch = e;
      granted_eq = g;
    }

check_request_context-IsServed :
    (s : StoreInstance) (c : Cluster) (ctx : Context) (granted : RequestContext)
    → check_request_context s c ctx ≡ passed granted
    → (other_store ctx.peer s.id ≡ false) × IsServed s c ctx granted
unfolding check_request_context
check_request_context-IsServed s c ctx granted h = elim (Bool-cases (other_store ctx.peer s.id)) [
  | inl t ↦ cc (rw t at h)
  | inr u ↦ (
    u,
    check_region-IsServed s c ctx (find_by_id c.regions ctx.region_id) granted refl (rw u at h),
  )
]

with_size_passed :
    (checked : Checked) (too_large : Option RegionError) (granted : RequestContext)
    → with_size checked too_large ≡ passed granted
    → (checked ≡ passed granted) × (too_large ≡ none)
with_size_passed check_panicked o granted h = cc h
with_size_passed (check_failed x) o granted h = cc h
with_size_passed (refused x) o granted h = cc h
with_size_passed (passed g) none granted h = (h, refl)
with_size_passed (passed g) (some x) granted h = cc h

-- checkRequestSize lets through what is below the limit.
pub check_request_size_iff :
    (size : ℕ) → (check_request_size size ≡ none) ↔ (size < request_max_size)
unfolding check_request_size
check_request_size_iff size = elim (Bool-cases (leb request_max_size size)) [
  | inl t ↦ (λ h. cc (rw t at h), λ h. absurd (ground (arith, t, h)))
  | inr u ↦ (λ h. ground (arith, u), λ h. rw u refl)
]

pub check_request-IsAccepted :
    (s : StoreInstance) (c : Cluster) (call : Call) (granted : RequestContext)
    → check_request s c call ≡ passed granted
    → IsAccepted s c call granted
unfolding check_request
check_request-IsAccepted s c call granted h = go call.server_busy call.io_timeout refl refl h
  where
    go :
        (busy io : Bool)
        → call.server_busy ≡ busy
        → call.io_timeout ≡ io
        → (if busy
            then refused server_is_busy
            else (if io
                then check_failed undetermined
                else with_size
                    (check_request_context s c call.context)
                    (check_request_size call.size)))
          ≡ passed granted
        → IsAccepted s c call granted
    go true io b i q = cc q
    go false true b i q = cc q
    go false false b i q =
        let (ok_ctx, small) =
          with_size_passed (check_request_context s c call.context) (check_request_size call.size)
            granted q in
        let (right, at) = check_request_context-IsServed s c call.context granted ok_ctx in
        record {
          not_busy = b;
          no_timeout = i;
          small = (check_request_size_iff call.size).0 small;
          addressed = right;
          served = at;
        }

-- ===== src/Store/Kv/Outcome.antt =====
-- What the answers of the transactional handlers say of the database.
use text.Mathlib.Text
use mathlib.Core.Path.{subst}
use mock_tikv.Cluster.{Peer, Region, Cluster, get_region_by_id}
use mock_tikv.Prelude.{
  ℕ, ◌≡◌, ap, sym, ◌==◌, ◌⊎◌, inl, inr, refl, Bool, true, false, Option, none, some, List, Bytes,
  if◌then◌else◌, Bool-cases,
}
use mock_tikv.Errors.{Result, ok, err}
use mock_tikv.Engine.{Engine}
use mock_tikv.Mvcc.Write.{commit}
use mock_tikv.Store.{
  StoreInstance, State, Call, Context, RegionError, KeyError, CallError, check_keys_in_region,
  undetermined, timeout, lost_region, not_leader, server_is_busy, unset, Reply, panicked, failed,
  region_error, key_error, answered, convert_to_key_error,
}
use mock_tikv.Store.Check.{
  Checked, check_panicked, check_failed, refused, passed, with_size, check_request,
  check_request_context, check_request_size, served, check_region, check_peers, check_epoch,
  same_epoch, other_store, store_peer, last_peer,
}
use mock_tikv.Store.Kv.{
  with_db, reply_result, reply_key_error, commit_reply, commit_checked, kv_commit,
}

-- The context's check never fails with an error of the call.
abbrev NoFailure : Checked → Type 0
NoFailure (check_failed x) = ⊥
NoFailure checked = Unit

check_epoch-NoFailure :
    (s : StoreInstance) (c : Cluster) (ctx : Context) (region : Region)
    → NoFailure (check_epoch s c ctx region)
unfolding check_epoch
check_epoch-NoFailure s c ctx region = elim (Bool-cases (same_epoch region ctx.epoch)) [
  | inl t ↦ rw t tt
  | inr u ↦ rw u tt
]

check_peers-NoFailure :
    (s : StoreInstance) (c : Cluster) (ctx : Context) (region : Region)
    (stored leading : Option Peer)
    → NoFailure (check_peers s c ctx region stored leading)
unfolding check_peers
check_peers-NoFailure s c ctx region none leading = tt
check_peers-NoFailure s c ctx region (some p) none = tt
check_peers-NoFailure s c ctx region (some p) (some l) = elim (Bool-cases (p.id == l.id)) [
  | inl t ↦ rw t (check_epoch-NoFailure s c ctx region)
  | inr u ↦ rw u tt
]

check_region-NoFailure :
    (s : StoreInstance) (c : Cluster) (ctx : Context) (found : Option (Region × Option Peer))
    → NoFailure (check_region s c ctx found)
unfolding check_region
check_region-NoFailure s c ctx none = tt
check_region-NoFailure s c ctx (some (region, none)) = tt
check_region-NoFailure s c ctx (some (region, some leader)) =
    check_peers-NoFailure s c ctx region (store_peer region.peers s.id)
      (last_peer region.peers leader.id)

check_request_context-NoFailure :
    (s : StoreInstance) (c : Cluster) (ctx : Context) → NoFailure (check_request_context s c ctx)
unfolding check_request_context
check_request_context-NoFailure s c ctx = elim (Bool-cases (other_store ctx.peer s.id)) [
  | inl t ↦ rw t tt
  | inr u ↦ rw u (check_region-NoFailure s c ctx (get_region_by_id c ctx.region_id))
]

with_size-NoFailure :
    (checked : Checked) (too_large : Option RegionError)
    → NoFailure checked
    → NoFailure (with_size checked too_large)
with_size-NoFailure check_panicked o h = tt
with_size-NoFailure (check_failed x) o h = absurd h
with_size-NoFailure (refused x) o h = tt
with_size-NoFailure (passed g) none h = tt
with_size-NoFailure (passed g) (some x) h = tt

-- The check fails with an error of the call where the fail point is hit, and nowhere else.
check_request-failed :
    (s : StoreInstance) (c : Cluster) (call : Call) (x : CallError)
    → check_request s c call ≡ check_failed x
    → call.io_timeout ≡ true
unfolding check_request
check_request-failed s c call x h = go call.server_busy call.io_timeout refl h
  where
    go :
        (busy io : Bool)
        → call.io_timeout ≡ io
        → (if busy
            then refused server_is_busy
            else (if io
                then check_failed undetermined
                else with_size
                    (check_request_context s c call.context)
                    (check_request_size call.size)))
          ≡ check_failed x
        → call.io_timeout ≡ true
    go true io i q = cc q
    go false true i q = i
    go false false i q = absurd (
        subst NoFailure q (
          with_size-NoFailure (check_request_context s c call.context)
            (check_request_size call.size) (check_request_context-NoFailure s c call.context)))

module _ (e : Engine) (s : StoreInstance) (st : State e.Db) (call : Call) (keys : List Bytes)
    (start_version commit_version : ℕ) where
  abbrev done : e.Db × Result (Unit {0})
  done = commit e st.db keys start_version commit_version

  -- The fail point was hit and nothing has changed, or the database has committed.
  abbrev pub Ambiguous : State e.Db → Type 0
  Ambiguous st' =
      ((call.io_timeout ≡ true) × (st' ≡ st))
      ⊎ ((done.1 ≡ ok tt) × (st' ≡ record st { db = done.0 }))

  -- The database has committed.
  abbrev pub Applied : State e.Db → Type 0
  Applied st' = (done.1 ≡ ok tt) × (st' ≡ record st { db = done.0 })

  -- What an answer says of the state
  abbrev Outcome : State e.Db × Reply (Unit {0}) → Type 0
  Outcome (st', failed undetermined) = Ambiguous st'
  Outcome (st', answered u) = Applied st'
  Outcome (st', r) = Unit

  key_error-Outcome : (st' : State e.Db) (o : Option KeyError) → Outcome (st', reply_key_error o)
  key_error-Outcome st' none = tt
  key_error-Outcome st' (some x) = tt

  reply-Outcome :
      (b : Bool) (r : e.Db × Result (Unit {0})) → done ≡ r → Outcome (with_db st (commit_reply b r))
  unfolding commit_reply reply_result
  reply-Outcome b (db, err x) q = key_error-Outcome (record st { db = db }) (convert_to_key_error x)
  reply-Outcome true (db, ok tt) q = inr (ap (λ r. r.1) q, ap (λ r. record st { db = r.0 }) (sym q))
  reply-Outcome false (db, ok tt) q = (ap (λ r. r.1) q, ap (λ r. record st { db = r.0 }) (sym q))

  keys-Outcome :
      (b : Bool)
      → Outcome (if b then with_db st (commit_reply s.rpc_commit_timeout done) else (st, panicked))
  keys-Outcome true = reply-Outcome s.rpc_commit_timeout done refl
  keys-Outcome false = tt

  failed-Outcome : (x : CallError) → call.io_timeout ≡ true → Outcome (st, failed x)
  failed-Outcome undetermined h = inl (h, refl)
  failed-Outcome timeout h = tt
  failed-Outcome lost_region h = tt

  checked-Outcome :
      (checked : Checked)
      → check_request s st.cluster call ≡ checked
      → Outcome (
          served checked st (λ ctx.
            if check_keys_in_region ctx keys
            then with_db st (commit_reply s.rpc_commit_timeout done)
            else (st, panicked)))
  checked-Outcome check_panicked q = tt
  checked-Outcome (check_failed x) q = failed-Outcome x (check_request-failed s st.cluster call x q)
  checked-Outcome (refused x) q = tt
  checked-Outcome (passed ctx) q = keys-Outcome (check_keys_in_region ctx keys)

  switch-Outcome :
      (a b c : Bool) (r : State e.Db × Reply (Unit {0}))
      → Outcome r
      → Outcome (
          if a
          then (st, failed timeout)
          else (if b
              then (st, region_error (not_leader "" 0 none))
              else (if c then (st, key_error unset) else r)))
  switch-Outcome true b c r h = tt
  switch-Outcome false true c r h = tt
  switch-Outcome false false true r h = tt
  switch-Outcome false false false r h = h

  kv_commit-Outcome : Outcome (kv_commit e s st call keys start_version commit_version)
  unfolding kv_commit commit_checked
  kv_commit-Outcome =
      switch-Outcome (Text.◌==◌ s.rpc_commit_result "timeout")
        (Text.◌==◌ s.rpc_commit_result "notLeader") (Text.◌==◌ s.rpc_commit_result "keyError")
        (commit_checked e s st call keys start_version commit_version)
        (checked-Outcome (check_request s st.cluster call) refl)

  -- If KvCommit fails with errUndetermined, either the fail point was hit and nothing has changed,
  -- or Commit has succeeded and the database is the one that it left.
  pub kv_commit-Ambiguous :
      (kv_commit e s st call keys start_version commit_version).1 ≡ failed undetermined
      → Ambiguous (kv_commit e s st call keys start_version commit_version).0
  kv_commit-Ambiguous h =
      subst (λ r. Outcome ((kv_commit e s st call keys start_version commit_version).0, r)) h
        kv_commit-Outcome

  -- What a KvCommit that answers without an error has done
  pub kv_commit-Applied :
      (kv_commit e s st call keys start_version commit_version).1 ≡ answered tt
      → Applied (kv_commit e s st call keys start_version commit_version).0
  kv_commit-Applied h =
      subst (λ r. Outcome ((kv_commit e s st call keys start_version commit_version).0, r)) h
        kv_commit-Outcome

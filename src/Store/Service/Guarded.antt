-- ===== src/Store/Service/Guarded.antt =====
-- Every handler leaves the state alone or has passed checkRequest, and keeps the cluster sound.
use mock_tikv.Prelude.{
  Bytes, ◌+◌, ◌^◌, ◌<◌, ◌≡◌, ◌⊎◌, inl, inr, refl, Bool, true, false, Option, none, some,
  if◌then◌else◌,
}
use mock_tikv.Engine.{Engine}
use mock_tikv.Store.{StoreInstance, State, Call, RequestContext, Reply, panicked}
use mock_tikv.Store.Check.{
  Checked, check_panicked, check_failed, refused, passed, check_request, served,
}
use mock_tikv.Store.Kv.{with_db}
use mock_tikv.Store.RawKv.{wrote_all}
use mock_tikv.Store.Sound.{IsSound, split_found-IsSound}
use mock_tikv.Store.Split.{split_found}
use mock_tikv.Key.{new_mvcc_key}
use mock_tikv.Cluster.{find_by_key}
use mock_tikv.Store.Service.{
  Request, serve, gets, scans, prewrites, commits, cleans_up, batch_gets, rolls_back, scans_lock,
  checks_txn_status, resolves_lock, deletes_range, raw_gets, raw_batch_gets, raw_puts,
  raw_batch_puts, raw_deletes, raw_batch_deletes, raw_scans, raw_deletes_range, raw_batch_scans,
  collects_garbage, coprocesses, gets_by_start_ts, gets_by_key, splits_region, Reach, here, next,
}
use text.Mathlib.Text

module _ {Db : Type 0} where
  -- A sound state is followed by a sound one.
  abbrev pub Keeps : State Db → State Db → Type 0
  Keeps st st' = IsSound st → st.id_alloc + 2 < 2 ^ 64 → IsSound st'

  -- Nothing has changed, or the request has passed its check.
  abbrev pub Guarded : Checked → State Db → State Db → Type 0
  Guarded checked st st' =
      (st' ≡ st) ⊎ ((ctx : RequestContext) × (checked ≡ passed ctx) × Keeps st st')

  unchanged-Keeps : (st : State Db) → Keeps st st
  unchanged-Keeps st sound room = sound

  new_db-Keeps : (st : State Db) (db : Db) → Keeps st (record st { db = db })
  new_db-Keeps st db sound room = record {
    partition = sound.partition;
    placed = sound.placed;
    given_out = sound.given_out;
    led = sound.led;
  }

module _ {Db : Type 0} {A : Type 0} where
  with_db-Keeps : (st : State Db) (r : Db × Reply A) → Keeps st (with_db st r).0
  with_db-Keeps st (db, r) = new_db-Keeps st db

  if-Keeps :
      (st : State Db) (b : Bool) (r : Db × Reply A)
      → Keeps st (if b then with_db st r else (st, panicked)).0
  if-Keeps st true r = with_db-Keeps st r
  if-Keeps st false r = unchanged-Keeps st

  served-Guarded :
      (checked : Checked) (st : State Db) (body : RequestContext → State Db × Reply A)
      → ((ctx : RequestContext) → Keeps st (body ctx).0)
      → Guarded checked st (served checked st body).0
  served-Guarded check_panicked st body h = inl refl
  served-Guarded (check_failed x) st body h = inl refl
  served-Guarded (refused x) st body h = inl refl
  served-Guarded (passed ctx) st body h = inr (ctx, refl, h ctx)

switch-Guarded :
    {Db : Type 0} {A : Type 0} (checked : Checked) (st : State Db) (a b c : Bool) (x y z : Reply A)
    (r : State Db × Reply A)
    → Guarded checked st r.0
    → Guarded checked st
        (if a then (st, x) else (if b then (st, y) else (if c then (st, z) else r))).0
switch-Guarded checked st true b c x y z r h = inl refl
switch-Guarded checked st false true c x y z r h = inl refl
switch-Guarded checked st false false true x y z r h = inl refl
switch-Guarded checked st false false false x y z r h = h

split_region_at-Keeps :
    {Db : Type 0} (st : State Db) (split_key : Bytes)
    → Keeps st
        (split_found st
          (new_mvcc_key split_key)
          (find_by_key st.cluster.regions (new_mvcc_key split_key))).0
split_region_at-Keeps st split_key =
    split_found-IsSound st (new_mvcc_key split_key)
      (find_by_key st.cluster.regions (new_mvcc_key split_key)) refl

wrote_all-Keeps : {Db : Type 0} (st : State Db) (o : Option Db) → Keeps st (wrote_all st o).0
wrote_all-Keeps st none = unchanged-Keeps st
wrote_all-Keeps st (some db) = new_db-Keeps st db

module _ (e : Engine) (s : StoreInstance) (st : State e.Db) (call : Call) where
  abbrev pub check : Checked
  check = check_request s st.cluster call

  pub serve-Guarded : (request : Request) → Guarded check st (serve e s st call request)
  unfolding serve
  serve-Guarded (gets key version) = served-Guarded check st _ (λ ctx. unchanged-Keeps st)
  serve-Guarded (scans start_key end_key limit version key_only) =
      served-Guarded check st _ (λ ctx. unchanged-Keeps st)
  serve-Guarded (prewrites mutations primary_lock start_version lock_ttl) =
      served-Guarded check st _ (λ ctx. if-Keeps st _ _)
  serve-Guarded (commits keys start_version commit_version) =
      switch-Guarded check st (Text.◌==◌ s.rpc_commit_result "timeout")
        (Text.◌==◌ s.rpc_commit_result "notLeader") (Text.◌==◌ s.rpc_commit_result "keyError") _ _ _
        _ (served-Guarded check st _ (λ ctx. if-Keeps st _ _))
  serve-Guarded (cleans_up key start_version) = served-Guarded check st _ (λ ctx. if-Keeps st _ _)
  serve-Guarded (batch_gets keys version) = served-Guarded check st _ (λ ctx. unchanged-Keeps st)
  serve-Guarded (rolls_back keys start_version) =
      served-Guarded check st _ (λ ctx. new_db-Keeps st _)
  serve-Guarded (scans_lock max_version) = served-Guarded check st _ (λ ctx. unchanged-Keeps st)
  serve-Guarded (checks_txn_status primary_key lock_ts caller_start_ts current_ts) =
      served-Guarded check st _ (λ ctx. if-Keeps st _ _)
  serve-Guarded (resolves_lock start_version commit_version) =
      served-Guarded check st _ (λ ctx. new_db-Keeps st _)
  serve-Guarded (deletes_range start_key end_key) =
      served-Guarded check st _ (λ ctx. new_db-Keeps st _)
  serve-Guarded (raw_gets key) = served-Guarded check st _ (λ ctx. unchanged-Keeps st)
  serve-Guarded (raw_batch_gets keys) = served-Guarded check st _ (λ ctx. unchanged-Keeps st)
  serve-Guarded (raw_puts key value) = served-Guarded check st _ (λ ctx. new_db-Keeps st _)
  serve-Guarded (raw_batch_puts pairs) = served-Guarded check st _ (λ ctx. wrote_all-Keeps st _)
  serve-Guarded (raw_deletes key) = served-Guarded check st _ (λ ctx. new_db-Keeps st _)
  serve-Guarded (raw_batch_deletes keys) = served-Guarded check st _ (λ ctx. new_db-Keeps st _)
  serve-Guarded (raw_scans start_key end_key limit key_only) =
      served-Guarded check st _ (λ ctx. unchanged-Keeps st)
  serve-Guarded (raw_deletes_range start_key end_key) =
      served-Guarded check st _ (λ ctx. new_db-Keeps st _)
  serve-Guarded raw_batch_scans = served-Guarded check st _ (λ ctx. unchanged-Keeps st)
  serve-Guarded collects_garbage = served-Guarded check st _ (λ ctx. unchanged-Keeps st)
  serve-Guarded coprocesses = served-Guarded check st _ (λ ctx. unchanged-Keeps st)
  serve-Guarded gets_by_start_ts = served-Guarded check st _ (λ ctx. unchanged-Keeps st)
  serve-Guarded (gets_by_key key) = served-Guarded check st _ (λ ctx. unchanged-Keeps st)
  serve-Guarded (splits_region split_key) =
      served-Guarded check st _ (λ ctx. split_region_at-Keeps st split_key)

pub serve-IsSound :
    (e : Engine) (s : StoreInstance) (st : State e.Db) (call : Call) (request : Request)
    → IsSound st
    → st.id_alloc + 2 < 2 ^ 64
    → IsSound (serve e s st call request)
serve-IsSound e s st call request sound room = elim (serve-Guarded e s st call request) [
  | inl same ↦ rw same sound
  | inr (ctx, q, keeps) ↦ keeps sound room
]

pub Reach-IsSound :
    (e : Engine) (st : State e.Db) {st' : State e.Db} → IsSound st → Reach e st st' → IsSound st'
Reach-IsSound e st sound here = sound
Reach-IsSound e st sound (next {st' = st'} s call request reach room) =
    serve-IsSound e s st' call request (Reach-IsSound e st sound reach) room

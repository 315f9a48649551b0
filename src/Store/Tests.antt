-- ===== src/Store/Tests.antt =====
-- A cluster of one region on two stores' ids, with a transaction under way in its database.
use mock_tikv.Mvcc.Cells.Keys.{keys_in, inside, scanned}
use mock_tikv.Store.Kv.Answers.{answers}
use mock_tikv.Mvcc.{get}
use mock_tikv.Store.Kv.{scan_pairs}
use mock_tikv.Store.Kv.Scans.{kv_scan-get}
use mock_tikv.Prelude.{
  ◌&&◌, take, length, ◌≤◌, ◌≡◌, refl, ◌∙◌, Bool, true, false, some, [], ◌∷◌, arith, if◌then◌else◌,
}
use mock_tikv.Errors.{Result, ok}
use mock_tikv.Bytes.{equal, cmp, less, less_eq}
use mock_tikv.Codec.{encode_bytes, decode_bytes, decode_group, encode_uint_desc, decode_uint_desc}
use mock_tikv.Bytes.Endian.{be_bytes}
use mock_tikv.Engine.{in_range, apply_batch}
use mock_tikv.Key.{mvcc_encode, mvcc_decode, new_mvcc_key, region_contains}
use mock_tikv.Entry.{si}
use mock_tikv.Engine.Memory.{MemDb, memory, memory-EngineLaws}
use mock_tikv.Mvcc.Write.{commit}
use mock_tikv.Mvcc.Cells.{lock_of, values_of}
use mock_tikv.Mvcc.Cells.Read.{view_get}
use mock_tikv.Mvcc.Sample.{key_a, a_lock, cells, db, db-Holds, mem_a, owned_a, commits, not_newer}
use mock_tikv.Cluster.{Peer, Region, contains, find_by_key, find_peer, lookup_id, get_region_by_key}
use mock_tikv.Cluster.Split.{IsPartition, holders}
use mock_tikv.Store.{
  convert_to_pb_pairs, KvPair, StoreInstance, State, answered, failed, undetermined,
  check_key_in_region, check_keys_in_region, new_store_instance,
}
use mock_tikv.Store.Check.{passed, check_request}
use mock_tikv.Store.Accepted.{context_of}
use mock_tikv.Store.Sound.{IsSound}
use mock_tikv.Store.Route.{routed, check_request-routed}
use mock_tikv.Store.Kv.{
  commit_reply, reply_result, kv_get, kv_commit, commit_checked, kv_scan, scan_pairs,
}
use mock_tikv.Store.Kv.Limit.{kv_scan_limit}
use mock_tikv.Store.Kv.Outcome.{Ambiguous, kv_commit-Ambiguous}
use mock_tikv.Store.Kv.Reads.{kv_get-view, kv_get-kv_commit}

abbrev peer : Peer
peer = record { id = 3; store_id = 1 }

abbrev all_keys : Region
all_keys = record {
  id = 4;
  start_key = [];
  end_key = some [];
  conf_ver = 1;
  version = 2;
  peers = peer ∷ [];
  leader = 3;
}

abbrev sample : State MemDb
sample = record {
  cluster = record {
    cluster_id = 1;
    max_peer_count = 3;
    safe_point = 0;
    regions = all_keys ∷ [];
    region_by_id = (4, 0) ∷ [];
  };
  id_alloc = 6;
  db = db;
}

sample-IsPartition : IsPartition (all_keys ∷ [])
unfolding holders contains region_contains less less_eq cmp
sample-IsPartition [] = refl
sample-IsPartition (x ∷ key) = refl

sample-IsSound : IsSound sample
unfolding lookup_id
sample-IsSound = record {
  partition = sample-IsPartition;
  placed = (refl, tt);
  given_out = (omega arith, tt);
  led = ((peer, refl, refl), tt);
}

-- A store, and the same store with `rpcCommitTimeout`
abbrev store : StoreInstance
store = record (new_store_instance "3.0.0") { id = 1 }

abbrev slow_store : StoreInstance
slow_store = record store { rpc_commit_timeout = true }

found_a : get_region_by_key sample.cluster (new_mvcc_key key_a) ≡ some (all_keys, some peer)
unfolding find_by_key contains region_contains less less_eq cmp find_peer new_mvcc_key encode_bytes
found_a = refl

check_request-routed_example :
    (check_request store sample.cluster (routed all_keys peer si 100)
      ≡ passed (context_of store (routed all_keys peer si 100).context all_keys))
    × (check_key_in_region (context_of store (routed all_keys peer si 100).context all_keys) key_a
        ≡ true)
check_request-routed_example =
    check_request-routed sample key_a si 100 store all_keys peer sample-IsSound (omega arith)
      found_a refl

-- The check of a request to either store
passes :
    (s : StoreInstance)
    → s.id ≡ 1
    → check_request s sample.cluster (routed all_keys peer si 100)
      ≡ passed (context_of s (routed all_keys peer si 100).context all_keys)
passes s i =
    (check_request-routed sample key_a si 100 s all_keys peer sample-IsSound (omega arith) found_a
      i).0

in_region :
    (s : StoreInstance)
    → check_keys_in_region
        (context_of s (routed all_keys peer si 100).context all_keys)
        (key_a ∷ [])
      ≡ true
unfolding check_keys_in_region check_key_in_region new_mvcc_key encode_bytes region_contains less
    less_eq cmp
in_region s = refl

-- A commit behind its check
commit_passed :
    (s : StoreInstance)
    → s.id ≡ 1
    → (commit_checked memory s sample (routed all_keys peer si 100) (key_a ∷ []) 25 30).1
      ≡ (commit_reply s.rpc_commit_timeout (commit memory db (key_a ∷ []) 25 30)).1
unfolding commit_checked
commit_passed s i = rw (passes s i) (rw (in_region s) refl)

commit_answer :
    (b : Bool) (r : MemDb × Result (Unit {0}))
    → r.1 ≡ ok tt
    → (commit_reply b r).1 ≡ (if b then failed undetermined else answered tt)
unfolding commit_reply
commit_answer true (d, r) q = rw q refl
commit_answer false (d, r) q = rw q refl

kv_commits :
    (kv_commit memory store sample (routed all_keys peer si 100) (key_a ∷ []) 25 30).1 ≡ answered tt
unfolding kv_commit
kv_commits = commit_passed store refl ∙ commit_answer false _ commits

kv_commit_hidden :
    (kv_commit memory slow_store sample (routed all_keys peer si 100) (key_a ∷ []) 25 30).1
    ≡ failed undetermined
unfolding kv_commit
kv_commit_hidden = commit_passed slow_store refl ∙ commit_answer true _ commits

kv_commit-Ambiguous_example :
    Ambiguous memory slow_store sample
      (routed all_keys peer si 100)
      (key_a ∷ [])
      25
      30
      (kv_commit memory slow_store sample (routed all_keys peer si 100) (key_a ∷ []) 25 30).0
kv_commit-Ambiguous_example =
    kv_commit-Ambiguous memory slow_store sample (routed all_keys peer si 100) (key_a ∷ []) 25 30
      kv_commit_hidden

kv_get-view_example :
    (kv_get memory store sample (routed all_keys peer si 100) key_a 20).1
    ≡ reply_result (view_get (lock_of key_a cells) (values_of key_a cells) key_a 20 si)
kv_get-view_example =
    kv_get-view memory memory-EngineLaws store sample cells key_a 20 si 100 all_keys peer
      sample-IsSound db-Holds (omega arith) found_a refl

kv_get-kv_commit_example :
    (kv_get memory store
      (kv_commit memory store sample (routed all_keys peer si 100) (key_a ∷ []) 25 30).0
      (routed all_keys peer si 100)
      key_a
      40).1
    ≡ answered (some (3 ∷ []))
kv_get-kv_commit_example =
    kv_get-kv_commit memory memory-EngineLaws store store sample cells (routed all_keys peer si 100)
      (key_a ∷ []) 25 30 key_a a_lock 40 si 100 all_keys peer sample-IsSound db-Holds (omega arith)
      (omega arith) kv_commits mem_a owned_a (ground arith) (omega arith) not_newer (omega arith)
      found_a refl

-- A scan behind all keys
scans :
    (kv_scan memory store sample (routed all_keys peer si 100) (255 ∷ []) [] 1 20 false).1
    ≡ answered []
unfolding kv_scan in_range apply_batch mvcc_encode encode_uint_desc encode_bytes be_bytes
    mvcc_decode decode_bytes decode_group decode_uint_desc scan_pairs convert_to_pb_pairs cmp equal
    less less_eq
scans = rw (passes store refl) refl

kv_scan_limit_example : length {A = KvPair} [] ≤ 1
kv_scan_limit_example =
    kv_scan_limit memory store sample (routed all_keys peer si 100) (255 ∷ []) [] 1 20 false []
      scans

kv_scan-get_example :
    (kv_scan memory store sample (routed all_keys peer si 100) key_a [] 5 20 true).1
    ≡ answered (
        take 5 (
          answers true
            (λ k. get memory db k 20 si)
            (keys_in (inside (λ k. scanned key_a [] k && scanned [] [] k) cells))))
kv_scan-get_example =
    kv_scan-get memory memory-EngineLaws store sample cells key_a [] 5 20 true si 100 all_keys peer
      sample-IsSound db-Holds (omega arith) found_a refl

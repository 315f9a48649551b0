-- ===== src/Entry.antt =====
-- The in-memory entry of one key: mvccEntry of server/mvcc.go, with its lock check and its queries.
mod Tests
pub mod Info
pub mod Search
pub mod Sorted
pub mod Txn
use mock_tikv.Prelude.{
  ℕ, zero, suc, ◌+◌, ◌/◌, ◌-◌, Bool, true, false, not, Option, none, some, List, [], ◌∷◌, ◌++◌, map,
  Bytes, length, take, drop, get_elem?, ltb, leb, ◌==◌, if◌then◌else◌, ◌&&◌, ◌||◌, max_u64, sub_u64,
}
use Prim.Native.String.{String}
use mock_tikv.Errors.{Error, Result, ok, err, Locked, locked, retryable, already_committed, ◌>>=◌}
use mock_tikv.Bytes.{equal, less}
use mock_tikv.Key.{mvcc_encode, lock_ver, raw}
use mock_tikv.Marshal.{MvccLock, MvccValue, type_put, type_delete, type_rollback}

-- kvrpcpb.Op, by its numbers
abbrev pub op_put : ℕ
op_put = 0

abbrev pub op_del : ℕ
op_del = 1

abbrev pub op_lock : ℕ
op_lock = 2

abbrev pub op_rollback : ℕ
op_rollback = 3

-- kvrpcpb.IsolationLevel
pub data IsolationLevel : Type 0 where
  si rc : IsolationLevel

-- kvrpcpb.Mutation, as far as it is read
pub record Mutation : Type 0 where
  pub op : ℕ
  pub key : Bytes
  pub value : Bytes

-- mvccEntry
pub record Entry : Type 0 where
  pub key : Bytes
  pub values : List MvccValue
  pub lock : Option MvccLock

-- newEntry
abbrev pub new_entry : Bytes → Entry
new_entry key = record { key = key; values = []; lock = none }

-- mvccLock.lockErr: `key` is the raw key, and the error holds the encoded one.
unfoldable pub lock_err : MvccLock → Bytes → Error
lock_err l key = locked (record {
  key = mvcc_encode key lock_ver;
  primary = l.primary;
  start_ts = l.start_ts;
  ttl = l.ttl;
})

-- mvccLock.check: the timestamp to read at.
unfoldable pub check : MvccLock → ℕ → Bytes → Result ℕ
check l ts key =
    if ltb ts l.start_ts || l.op == op_lock
    then ok ts
    else if ts == max_u64 && equal l.primary key
    then ok (sub_u64 l.start_ts 1)
    else err (lock_err l key)

-- mvccEntry.Clone: a deep copy, but for the lock's minCommitTS, which stays 0 in the copy.
unfoldable pub clone : Entry → Entry
clone e = record e {
  lock = elim e.lock [ none ↦ none | some l ↦ some (record l { min_commit_ts = 0 }) ];
}

-- mvccEntry.Less
unfoldable pub entry_less : Entry → Entry → Bool
entry_less e than = less e.key than.key

-- The loop of mvccEntry.Get; a nil result is `none`.
unfoldable pub first_visible : ℕ → List MvccValue → Option Bytes
first_visible ts [] = none
first_visible ts (v ∷ vs) =
    if leb v.commit_ts ts && not (v.value_type == type_rollback)
    then some v.value
    else first_visible ts vs

-- The timestamp that mvccEntry.Get reads at.
unfoldable pub read_ts : Entry → ℕ → IsolationLevel → Result ℕ
read_ts e ts rc = ok ts
read_ts e ts si = elim e.lock [ none ↦ ok ts | some l ↦ (do key ← raw e.key; check l ts key) ]

-- mvccEntry.Get
unfoldable pub get : Entry → ℕ → IsolationLevel → Result (Option Bytes)
get e ts iso_level = do ts' ← read_ts e ts iso_level; ok (first_visible ts' e.values)

-- e.values[0].commitTS >= startTS, if there is a value
unfoldable pub newer_head : List MvccValue → ℕ → Bool
newer_head [] start_ts = false
newer_head (v ∷ vs) start_ts = leb start_ts v.commit_ts

-- mvccEntry.Prewrite on an entry with no newer value, with its lock
unfoldable pub prewrite_found : Option MvccLock → Entry → Mutation → ℕ → Bytes → ℕ → Result Entry
prewrite_found (some l) e mutation start_ts primary ttl =
    if not (l.start_ts == start_ts) then (do key ← raw e.key; err (lock_err l key)) else ok e
prewrite_found none e mutation start_ts primary ttl = ok (record e {
  lock = some (record {
    start_ts = start_ts;
    primary = primary;
    value = mutation.value;
    op = mutation.op;
    ttl = ttl;
    min_commit_ts = 0;
  });
})

-- mvccEntry.Prewrite: the entry afterwards, or the error.
unfoldable pub prewrite : Entry → Mutation → ℕ → Bytes → ℕ → Result Entry
unfolding prewrite_found
prewrite e mutation start_ts primary ttl =
    if newer_head e.values start_ts
    then err (retryable "write conflict")
    else prewrite_found e.lock e mutation start_ts primary ttl

-- mvccEntry.getTxnCommitInfo
unfoldable pub get_txn_commit_info : List MvccValue → ℕ → Option MvccValue
get_txn_commit_info [] start_ts = none
get_txn_commit_info (v ∷ vs) start_ts =
    if v.start_ts == start_ts then some v else get_txn_commit_info vs start_ts

-- The loop of sort.Search on [lo, hi): half of the range is left each round, so `hi - lo` rounds are
-- enough.
unfoldable pub search_loop : (ℕ → Bool) → ℕ → ℕ → ℕ → ℕ
search_loop f zero lo hi = lo
search_loop f (suc fuel) lo hi =
    let h = (lo + hi) / 2 in
    let next = search_loop f fuel (if f h then lo else h + 1) (if f h then h else hi) in
    if ltb lo hi then next else lo

-- sort.Search(n, f)
unfoldable pub search : ℕ → (ℕ → Bool) → ℕ
unfolding search_loop
search n f = search_loop f n 0 n

-- e.values[i].commitTS <= ts
unfoldable pub at_most : List MvccValue → ℕ → ℕ → Bool
at_most values ts i = elim (get_elem? values i) [ none ↦ false | some v ↦ leb v.commit_ts ts ]

-- mvccEntry.addValue
unfoldable pub add_value : List MvccValue → MvccValue → List MvccValue
unfolding search at_most
add_value values v =
    let i = search (length values) (at_most values v.commit_ts) in
    if leb (length values) i then values ++ v ∷ [] else take i values ++ v ∷ drop i values

-- typePut for Op_Put, and typeDelete for every other operation that leaves a value
unfoldable pub value_type_of : ℕ → ℕ
value_type_of op = if op == op_put then type_put else type_delete

-- What a commit finds that meets no lock of its own.
abbrev pub committed : Option MvccValue → Bool
committed none = false
committed (some c) = not (c.value_type == type_rollback)

-- The lock, if it is that of the transaction `start_ts`
abbrev pub own_lock : Option MvccLock → ℕ → Option MvccLock
own_lock none start_ts = none
own_lock (some l) start_ts = if l.start_ts == start_ts then some l else none

-- mvccEntry.Commit, with the lock that it looks for
unfoldable pub commit_found : Option MvccLock → Entry → ℕ → ℕ → Result Entry
unfolding value_type_of
commit_found none e start_ts commit_ts =
    if committed (get_txn_commit_info e.values start_ts)
    then ok e
    else err (retryable "txn not found")
commit_found (some l) e start_ts commit_ts =
    if l.op == op_lock
    then ok (record e { lock = none })
    else ok (record e {
      values = add_value e.values (record {
        value_type = value_type_of l.op;
        start_ts = start_ts;
        commit_ts = commit_ts;
        value = l.value;
      });
      lock = none;
    })

-- mvccEntry.Commit
unfoldable pub commit : Entry → ℕ → ℕ → Result Entry
unfolding commit_found
commit e start_ts commit_ts = commit_found (own_lock e.lock start_ts) e start_ts commit_ts

-- The record that a rollback leaves
abbrev pub tomb : ℕ → MvccValue
tomb start_ts = record {
  value_type = type_rollback;
  start_ts = start_ts;
  commit_ts = start_ts;
  value = [];
}

-- mvccEntry.Rollback where there is no lock of the transaction, with the record that it looks for
unfoldable pub rollback_unlocked : Option MvccValue → Entry → ℕ → Result Entry
rollback_unlocked none e start_ts = ok (record e { values = add_value e.values (tomb start_ts) })
rollback_unlocked (some c) e start_ts =
    if not (c.value_type == type_rollback) then err (already_committed c.commit_ts) else ok e

-- mvccEntry.Rollback, with the lock that it looks for
unfoldable pub rollback_found : Option MvccLock → Entry → ℕ → Result Entry
unfolding rollback_unlocked
rollback_found none e start_ts =
    rollback_unlocked (get_txn_commit_info e.values start_ts) e start_ts
rollback_found (some l) e start_ts =
    ok (record e { values = add_value e.values (tomb start_ts); lock = none })

-- mvccEntry.Rollback
unfoldable pub rollback : Entry → ℕ → Result Entry
unfolding rollback_found
rollback e start_ts = rollback_found (own_lock e.lock start_ts) e start_ts

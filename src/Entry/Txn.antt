-- ===== src/Entry/Txn.antt =====
-- What a transaction's Commit and Rollback do to later reads and to later steps on the entry.
use mock_tikv.Prelude.{
  ℕ, ◌≤◌, ◌<◌, ◌≡◌, refl, ap, ◌∙◌, sym, true, Option, none, some, List, [], ◌∷◌, arith, All, Bytes,
  ◌≢◌,
}
use mock_tikv.Errors.{ok, err, retryable}
use mock_tikv.Marshal.{MvccValue, MvccLock, type_rollback}
use mock_tikv.Entry.{
  Entry, Mutation, IsolationLevel, rc, si, add_value, first_visible, get, read_ts, prewrite, commit,
  commit_found, rollback, rollback_unlocked, rollback_found, own_lock, tomb, get_txn_commit_info,
  newer_head, op_lock, value_type_of,
}
use mock_tikv.Entry.Search.{IsDesc, insert_desc, add_value-insert_desc}

-- A value that is newer than the read is not seen.
pub first_visible-insert_newer :
    (ts : ℕ) (v : MvccValue) (vs : List MvccValue)
    → ts < v.commit_ts
    → first_visible ts (insert_desc v vs) ≡ first_visible ts vs
unfolding first_visible insert_desc
first_visible-insert_newer ts v [] h = ground arith
first_visible-insert_newer ts v (x ∷ xs) h = ground (arith, first_visible-insert_newer ts v xs h)

-- The newest value, if it is no rollback record, is what a read at or after it sees.
pub first_visible-insert_newest :
    (ts : ℕ) (v : MvccValue) (vs : List MvccValue)
    → All (λ y. y.commit_ts ≤ v.commit_ts) vs
    → v.commit_ts ≤ ts
    → v.value_type ≢ type_rollback
    → first_visible ts (insert_desc v vs) ≡ some v.value
unfolding first_visible insert_desc
first_visible-insert_newest ts v [] a h n = ground arith
first_visible-insert_newest ts v (x ∷ xs) a h n = ground arith

-- A rollback record is passed over, wherever it stands.
pub first_visible-insert_tomb :
    (ts start_ts : ℕ) (vs : List MvccValue)
    → first_visible ts (insert_desc (tomb start_ts) vs) ≡ first_visible ts vs
unfolding first_visible insert_desc
first_visible-insert_tomb ts start_ts [] = ground arith
first_visible-insert_tomb ts start_ts (x ∷ xs) =
    ground (arith, first_visible-insert_tomb ts start_ts xs)

-- With no lock a read takes the values alone, on either isolation level.
get_unlocked :
    (e : Entry) (ts : ℕ) (iso : IsolationLevel)
    → e.lock ≡ none
    → get e ts iso ≡ ok (first_visible ts e.values)
unfolding get read_ts
get_unlocked e ts rc h = refl
get_unlocked e ts si h = ground arith

value_type-ne : (op : ℕ) → value_type_of op ≢ type_rollback
unfolding value_type_of
value_type-ne op = ground arith

abbrev new_value : MvccLock → ℕ → ℕ → MvccValue
new_value l start_ts commit_ts = record {
  value_type = value_type_of l.op;
  start_ts = start_ts;
  commit_ts = commit_ts;
  value = l.value;
}

commit_own :
    (e : Entry) (l : MvccLock) (start_ts commit_ts : ℕ)
    → own_lock e.lock start_ts ≡ some l
    → l.op ≢ op_lock
    → commit e start_ts commit_ts
      ≡ ok (record e { values = add_value e.values (new_value l start_ts commit_ts); lock = none })
unfolding commit
commit_own e l start_ts commit_ts h n = rw h (unfold commit_found in ground arith)

committed_values :
    (e e' : Entry) (l : MvccLock) (start_ts commit_ts : ℕ)
    → IsDesc e.values
    → own_lock e.lock start_ts ≡ some l
    → l.op ≢ op_lock
    → commit e start_ts commit_ts ≡ ok e'
    → (e'.lock ≡ none) × (e'.values ≡ insert_desc (new_value l start_ts commit_ts) e.values)
committed_values e e' l start_ts commit_ts d h n c =
    let own : commit e start_ts commit_ts
        ≡ ok (record e {
          values = add_value e.values (new_value l start_ts commit_ts);
          lock = none;
        }) =
      commit_own e l start_ts commit_ts h n in
    (cc (c, own), cc (c, own, add_value-insert_desc e.values (new_value l start_ts commit_ts) d))

-- Commit of a lock with a value, on an entry with its values in order: a read below the commit
-- timestamp sees what it would have seen with no lock.
pub commit-get_before :
    (e e' : Entry) (l : MvccLock) (start_ts commit_ts : ℕ)
    → IsDesc e.values
    → own_lock e.lock start_ts ≡ some l
    → l.op ≢ op_lock
    → commit e start_ts commit_ts ≡ ok e'
    → (ts : ℕ) (iso : IsolationLevel) → ts < commit_ts
    → get e' ts iso ≡ get (record e { lock = none }) ts iso
commit-get_before e e' l start_ts commit_ts d h n c ts iso lt =
    let (free, values) = committed_values e e' l start_ts commit_ts d h n c in
    get_unlocked e' ts iso free
    ∙ ap ok (
        ap (first_visible ts) values
        ∙ first_visible-insert_newer ts (new_value l start_ts commit_ts) e.values lt)
    ∙ sym (get_unlocked (record e { lock = none }) ts iso refl)

-- Commit of a lock with a value, on an entry with its values in order and none newer than the
-- commit: a read at or above the commit timestamp sees the value of the lock.
pub commit-get_after :
    (e e' : Entry) (l : MvccLock) (start_ts commit_ts : ℕ)
    → IsDesc e.values
    → own_lock e.lock start_ts ≡ some l
    → l.op ≢ op_lock
    → commit e start_ts commit_ts ≡ ok e'
    → (ts : ℕ) (iso : IsolationLevel) → commit_ts ≤ ts
    → All (λ y. y.commit_ts ≤ commit_ts) e.values
    → get e' ts iso ≡ ok (some l.value)
commit-get_after e e' l start_ts commit_ts d h n c ts iso le all =
    let (free, values) = committed_values e e' l start_ts commit_ts d h n c in
    get_unlocked e' ts iso free
    ∙ ap ok (
        ap (first_visible ts) values
        ∙ first_visible-insert_newest ts (new_value l start_ts commit_ts) e.values all le
            (value_type-ne l.op))

newer_head-insert :
    (v : MvccValue) (vs : List MvccValue) (start_ts : ℕ)
    → start_ts ≤ v.commit_ts
    → newer_head (insert_desc v vs) start_ts ≡ true
unfolding newer_head insert_desc
newer_head-insert v [] start_ts h = ground arith
newer_head-insert v (x ∷ xs) start_ts h = ground arith

tomb_left :
    (o : Option MvccLock) (e e' : Entry) (start_ts : ℕ)
    → IsDesc e.values
    → get_txn_commit_info e.values start_ts ≡ none
    → rollback_found o e start_ts ≡ ok e'
    → e'.values ≡ insert_desc (tomb start_ts) e.values
unfolding rollback_found
tomb_left none e e' start_ts d h r =
    let s : rollback_unlocked none e start_ts ≡ ok e' = rw h at r in
    unfold rollback_unlocked in cc (s, add_value-insert_desc e.values (tomb start_ts) d)
tomb_left (some l) e e' start_ts d h r = cc (r, add_value-insert_desc e.values (tomb start_ts) d)

-- Rollback of a transaction that left no record among the values, which are in order: no read
-- without locks changes, and the transaction can no longer prewrite the key.
pub rollback_blocks :
    (e e' : Entry) (start_ts : ℕ)
    → IsDesc e.values
    → get_txn_commit_info e.values start_ts ≡ none
    → rollback e start_ts ≡ ok e'
    → ((ts : ℕ) → first_visible ts e'.values ≡ first_visible ts e.values)
      × ((m : Mutation) (primary : Bytes) (ttl : ℕ)
          → prewrite e' m start_ts primary ttl ≡ err (retryable "write conflict"))
unfolding rollback
rollback_blocks e e' start_ts d h r =
    let left : e'.values ≡ insert_desc (tomb start_ts) e.values =
      tomb_left (own_lock e.lock start_ts) e e' start_ts d h r in
    (
      λ ts. rw left (first_visible-insert_tomb ts start_ts e.values),
      λ m primary ttl.
          unfold prewrite in
          rw (left, newer_head-insert (tomb start_ts) e.values start_ts (omega arith)),
    )

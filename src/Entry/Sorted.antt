-- ===== src/Entry/Sorted.antt =====
-- The order of an entry's values, which every operation keeps, and what a read sees after an
-- insertion.
use mock_tikv.Prelude.{
  ℕ, ◌≤◌, ◌≡◌, Option, none, some, List, [], ◌∷◌, leb, ◌==◌, arith, All, Bytes, Bool-cases, inl,
  inr,
}
use mock_tikv.Errors.{ok, Result-cases}
use mock_tikv.Key.{raw}
use mock_tikv.Marshal.{MvccValue, MvccLock, type_rollback}
use mock_tikv.Entry.{
  clone, new_entry, Entry, Mutation, add_value, prewrite, prewrite_found, commit, commit_found,
  rollback, rollback_unlocked, rollback_found, own_lock, tomb, get_txn_commit_info, newer_head,
  op_lock, committed,
}
use mock_tikv.Entry.Search.{IsDesc, insert_desc, add_value-insert_desc}

All-at_most :
    (m k : ℕ) (xs : List MvccValue)
    → m ≤ k
    → All (λ y. y.commit_ts ≤ m) xs
    → All (λ y. y.commit_ts ≤ k) xs
All-at_most m k [] h a = tt
All-at_most m k (x ∷ xs) h a = (omega arith, All-at_most m k xs h a.1)

All-insert_desc :
    (m : ℕ) (v : MvccValue) (xs : List MvccValue)
    → v.commit_ts ≤ m
    → All (λ y. y.commit_ts ≤ m) xs
    → All (λ y. y.commit_ts ≤ m) (insert_desc v xs)
unfolding insert_desc
All-insert_desc m v [] h a = (h, tt)
All-insert_desc m v (x ∷ xs) h a = elim (Bool-cases (leb x.commit_ts v.commit_ts)) [
  | inl t ↦ rw t (h, a)
  | inr u ↦ rw u (a.0, All-insert_desc m v xs h a.1)
]

pub insert_desc-IsDesc :
    (v : MvccValue) (xs : List MvccValue) → IsDesc xs → IsDesc (insert_desc v xs)
unfolding insert_desc
insert_desc-IsDesc v [] d = (tt, tt)
insert_desc-IsDesc v (x ∷ xs) d = elim (Bool-cases (leb x.commit_ts v.commit_ts)) [
  | inl t ↦ rw t ((ground arith, All-at_most x.commit_ts v.commit_ts xs (ground arith) d.0), d)
  | inr u ↦ rw u (All-insert_desc x.commit_ts v xs (ground arith) d.0, insert_desc-IsDesc v xs d.1)
]

pub add_value-IsDesc : (xs : List MvccValue) (v : MvccValue) → IsDesc xs → IsDesc (add_value xs v)
add_value-IsDesc xs v d = rw (add_value-insert_desc xs v d) (insert_desc-IsDesc v xs d)

ok_keeps : (a e : Entry) → ok a ≡ ok e → IsDesc a.values → IsDesc e.values
ok_keeps a e h d = let p : a ≡ e = cc h in rw (← p) d

prewrite_found-IsDesc :
    (o : Option MvccLock) (e e' : Entry) (m : Mutation) (start_ts : ℕ) (primary : Bytes) (ttl : ℕ)
    → IsDesc e.values
    → prewrite_found o e m start_ts primary ttl ≡ ok e'
    → IsDesc e'.values
unfolding prewrite_found
prewrite_found-IsDesc none e e' m start_ts primary ttl d h = ok_keeps _ e' h d
prewrite_found-IsDesc (some l) e e' m start_ts primary ttl d h =
    elim (Bool-cases (l.start_ts == start_ts)) [
      | inl t ↦ ok_keeps e e' (rw t at h) d
      | inr u ↦ elim (Result-cases (raw e.key)) [
        | inl (k, q) ↦ cc (rw (u, q) at h)
        | inr (x, q) ↦ cc (rw (u, q) at h)
      ]
    ]

prewrite-IsDesc :
    (e e' : Entry) (m : Mutation) (start_ts : ℕ) (primary : Bytes) (ttl : ℕ)
    → IsDesc e.values
    → prewrite e m start_ts primary ttl ≡ ok e'
    → IsDesc e'.values
unfolding prewrite
prewrite-IsDesc e e' m start_ts primary ttl d h = elim (Bool-cases (newer_head e.values start_ts)) [
  | inl t ↦ cc (rw t at h)
  | inr u ↦ prewrite_found-IsDesc e.lock e e' m start_ts primary ttl d (rw u at h)
]

commit_found-IsDesc :
    (o : Option MvccLock) (e e' : Entry) (start_ts commit_ts : ℕ)
    → IsDesc e.values
    → commit_found o e start_ts commit_ts ≡ ok e'
    → IsDesc e'.values
unfolding commit_found
commit_found-IsDesc none e e' start_ts commit_ts d h =
    elim (Bool-cases (committed (get_txn_commit_info e.values start_ts))) [
      | inl t ↦ ok_keeps e e' (rw t at h) d
      | inr u ↦ cc (rw u at h)
    ]
commit_found-IsDesc (some l) e e' start_ts commit_ts d h = elim (Bool-cases (l.op == op_lock)) [
  | inl t ↦ ok_keeps _ e' (rw t at h) d
  | inr u ↦ ok_keeps _ e' (rw u at h) (add_value-IsDesc e.values _ d)
]

rollback_unlocked-IsDesc :
    (o : Option MvccValue) (e e' : Entry) (start_ts : ℕ)
    → IsDesc e.values
    → rollback_unlocked o e start_ts ≡ ok e'
    → IsDesc e'.values
unfolding rollback_unlocked
rollback_unlocked-IsDesc none e e' start_ts d h =
    ok_keeps _ e' h (add_value-IsDesc e.values (tomb start_ts) d)
rollback_unlocked-IsDesc (some c) e e' start_ts d h =
    elim (Bool-cases (c.value_type == type_rollback)) [
      | inl t ↦ ok_keeps e e' (rw t at h) d
      | inr u ↦ cc (rw u at h)
    ]

rollback_found-IsDesc :
    (o : Option MvccLock) (e e' : Entry) (start_ts : ℕ)
    → IsDesc e.values
    → rollback_found o e start_ts ≡ ok e'
    → IsDesc e'.values
unfolding rollback_found
rollback_found-IsDesc none e e' start_ts d h =
    rollback_unlocked-IsDesc (get_txn_commit_info e.values start_ts) e e' start_ts d h
rollback_found-IsDesc (some l) e e' start_ts d h =
    ok_keeps _ e' h (add_value-IsDesc e.values (tomb start_ts) d)

-- A step of an entry: one of its operations, which succeeds.
pub data Step : Entry → Entry → Type 0 where
  prewritten :
      {e e' : Entry} (m : Mutation) (start_ts : ℕ) (primary : Bytes) (ttl : ℕ)
      → prewrite e m start_ts primary ttl ≡ ok e'
      → Step e e'
  committed_at :
      {e e' : Entry} (start_ts commit_ts : ℕ) → commit e start_ts commit_ts ≡ ok e' → Step e e'
  rolled_back : {e e' : Entry} (start_ts : ℕ) → rollback e start_ts ≡ ok e' → Step e e'
  cloned : {e : Entry} → Step e (clone e)

-- What an entry can become by steps from a new one
pub data Reachable (key : Bytes) : Entry → Type 0 where
  new : Reachable key (new_entry key)
  after : {e e' : Entry} → Reachable key e → Step e e' → Reachable key e'

Step-IsDesc : {e e' : Entry} → Step e e' → IsDesc e.values → IsDesc e'.values
unfolding commit rollback
Step-IsDesc {e} {e'} (prewritten m start_ts primary ttl h) d =
    prewrite-IsDesc e e' m start_ts primary ttl d h
Step-IsDesc {e} {e'} (committed_at start_ts commit_ts h) d =
    commit_found-IsDesc (own_lock e.lock start_ts) e e' start_ts commit_ts d h
Step-IsDesc {e} {e'} (rolled_back start_ts h) d =
    rollback_found-IsDesc (own_lock e.lock start_ts) e e' start_ts d h
Step-IsDesc cloned d = unfold clone in d

-- However Prewrite, Commit, Rollback and Clone follow on each other, an entry that began empty has
-- its values in descending order of their commit timestamps.
pub Reachable-IsDesc : (key : Bytes) (e : Entry) → Reachable key e → IsDesc e.values
Reachable-IsDesc key _ new = tt
Reachable-IsDesc key _ (after r s) = Step-IsDesc s (Reachable-IsDesc key _ r)

-- ===== src/Mvcc/Spec/Resolve.antt =====
-- ResolveLock of server/mvcc_leveldb.go is a Commit or a Rollback of the keys that it finds locked.
use mock_tikv.Prelude.{
  ℕ, ◌≡◌, inl, inr, refl, sym, ap, ◌∙◌, true, false, Option, none, some, List, [], ◌∷◌, ◌++◌, Bytes,
  ltb, ◌==◌, if◌then◌else◌, arith, Bool-cases,
}
use mock_tikv.Errors.{ok}
use mock_tikv.Marshal.{MvccLock}
use mock_tikv.Engine.{Batch, Engine, EngineLaws}
use mock_tikv.Mvcc.Write.{
  own_lock, commit_lock, rollback_lock, write_batch, commit_all, commit, rollback_all, rollback,
}
use mock_tikv.Mvcc.Status.{resolved, resolve_lock}
use mock_tikv.Mvcc.Cells.{Cell, Holds, lock_of}
use mock_tikv.Mvcc.Cells.Keys.{keys_in, inside, scanned}
use mock_tikv.Mvcc.Cells.Locks.{gather}
use mock_tikv.Mvcc.Cells.Resolve.{resolve-resolved}
use mock_tikv.Mvcc.Spec.{spec_commit, spec_rollback}
use mock_tikv.Mvcc.Spec.Keys.{commit_lock-cells}
use mock_tikv.Mvcc.Spec.Refine.{commit_key-view, rollback_key-view}

-- The keys that a transaction has locked
abbrev add_owned : Option MvccLock → Bytes → List Bytes → List Bytes
add_owned none k ks = ks
add_owned (some l) k ks = k ∷ ks

unfoldable pub owned_keys : List Cell → ℕ → List Bytes → List Bytes
owned_keys cells start_ts [] = []
owned_keys cells start_ts (k ∷ ks) =
    let rest = owned_keys cells start_ts ks in
    add_owned (own_lock (lock_of k cells) start_ts) k rest

-- What ResolveLock writes for a lock of its transaction
abbrev own_piece : Option MvccLock → Bytes → ℕ → ℕ → Batch
own_piece none k start_ts commit_ts = []
own_piece (some l) k start_ts commit_ts =
    if ltb 0 commit_ts then commit_lock l k start_ts commit_ts else rollback_lock k start_ts

abbrev only : ℕ → ℕ → ℕ → Option ℕ
only start_ts commit_ts ts = if ts == start_ts then some commit_ts else none

-- A lock of another transaction is left, and one of this transaction is committed or rolled back.
resolved_with : MvccLock → Bytes → Option ℕ → Batch
resolved_with l k o = elim o [
  | none ↦ []
  | some c ↦ (if ltb 0 c then commit_lock l k l.start_ts c else rollback_lock k l.start_ts)
]

resolved-own_piece :
    (o : Option MvccLock) (k : Bytes) (start_ts commit_ts : ℕ)
    → resolved o k (only start_ts commit_ts) ≡ own_piece (own_lock o start_ts) k start_ts commit_ts
unfolding own_lock resolved_with
resolved-own_piece none k start_ts commit_ts = refl
resolved-own_piece (some l) k start_ts commit_ts = elim (Bool-cases (l.start_ts == start_ts)) [
  | inr u ↦
      ap (λ b. resolved_with l k (if b then some commit_ts else none)) u
      ∙ sym (ap (λ b. own_piece (if b then some l else none) k start_ts commit_ts) u)
  | inl t ↦
      let same : l.start_ts ≡ start_ts = ground (arith, t) in
      ap (λ b. resolved_with l k (if b then some commit_ts else none)) t
      ∙ ap (λ ts. if ltb 0 commit_ts then commit_lock l k ts commit_ts else rollback_lock k ts) same
      ∙ sym (ap (λ b. own_piece (if b then some l else none) k start_ts commit_ts) t)
]

module _ (e : Engine) (laws : EngineLaws e) (db : e.Db) (cells : List Cell) (h : Holds e db cells)
    (start_ts commit_ts : ℕ) where
  commit_owned :
      (o : Option MvccLock) (k : Bytes) (ks : List Bytes) (rest : Batch)
      → own_lock (lock_of k cells) start_ts ≡ o
      → ltb 0 commit_ts ≡ true
      → commit_all e db ks start_ts commit_ts ≡ ok rest
      → commit_all e db (add_owned o k ks) start_ts commit_ts
        ≡ ok (own_piece o k start_ts commit_ts ++ rest)
  unfolding commit_all spec_commit
  commit_owned none k ks rest q t r = r
  commit_owned (some l) k ks rest q t r =
      rw (commit_key-view e laws db cells k start_ts commit_ts h, q, r, t)
        (ap (λ b. ok (b ++ rest)) (sym (commit_lock-cells l k start_ts commit_ts)))

  rollback_owned :
      (o : Option MvccLock) (k : Bytes) (ks : List Bytes) (rest : Batch)
      → own_lock (lock_of k cells) start_ts ≡ o
      → ltb 0 commit_ts ≡ false
      → rollback_all e db ks start_ts ≡ ok rest
      → rollback_all e db (add_owned o k ks) start_ts
        ≡ ok (own_piece o k start_ts commit_ts ++ rest)
  unfolding rollback_all spec_rollback rollback_lock
  rollback_owned none k ks rest q t r = r
  rollback_owned (some l) k ks rest q t r =
      rw (rollback_key-view e laws db cells k start_ts h, q, r, t) refl

  abbrev written_for : Bytes → Batch
  written_for k = resolved (lock_of k cells) k (only start_ts commit_ts)

  commit_all-gather :
      (ks : List Bytes)
      → ltb 0 commit_ts ≡ true
      → commit_all e db (owned_keys cells start_ts ks) start_ts commit_ts
        ≡ ok (gather written_for ks)
  unfolding commit_all owned_keys
  commit_all-gather [] t = refl
  commit_all-gather (k ∷ ks) t =
      commit_owned (own_lock (lock_of k cells) start_ts) k (owned_keys cells start_ts ks)
        (gather written_for ks) refl t (commit_all-gather ks t)
      ∙ ap (λ b. ok (b ++ gather written_for ks))
          (sym (resolved-own_piece (lock_of k cells) k start_ts commit_ts))

  rollback_all-gather :
      (ks : List Bytes)
      → ltb 0 commit_ts ≡ false
      → rollback_all e db (owned_keys cells start_ts ks) start_ts ≡ ok (gather written_for ks)
  unfolding rollback_all owned_keys
  rollback_all-gather [] t = refl
  rollback_all-gather (k ∷ ks) t =
      rollback_owned (own_lock (lock_of k cells) start_ts) k (owned_keys cells start_ts ks)
        (gather written_for ks) refl t (rollback_all-gather ks t)
      ∙ ap (λ b. ok (b ++ gather written_for ks))
          (sym (resolved-own_piece (lock_of k cells) k start_ts commit_ts))

  -- ResolveLock does not panic, and does what Commit, or Rollback for the commit timestamp 0, does
  -- for the keys of its range that the transaction has locked. The range is that of the keys of
  -- the stored cells from the start key on and below the end key, each of them if it is not empty.
  -- The engine keeps its laws, and the database holds cells that can be stored and read back.
  pub resolve_lock-commit :
      (start_key end_key : Bytes)
      → resolve_lock e db start_key end_key start_ts commit_ts
        ≡ some (
            if ltb 0 commit_ts
            then commit e db
                (owned_keys cells start_ts (keys_in (inside (scanned start_key end_key) cells)))
                start_ts
                commit_ts
            else rollback e db
                (owned_keys cells start_ts (keys_in (inside (scanned start_key end_key) cells)))
                start_ts)
  unfolding resolve_lock commit rollback
  resolve_lock-commit start_key end_key =
      resolve-resolved e laws db cells h start_key end_key (only start_ts commit_ts)
      ∙ ap some (elim (Bool-cases (ltb 0 commit_ts)) [
        | inl t ↦ rw t (ap (write_batch e db) (sym (commit_all-gather keys t)))
        | inr u ↦ rw u (ap (write_batch e db) (sym (rollback_all-gather keys u)))
      ])
    where
      keys : List Bytes
      keys = keys_in (inside (scanned start_key end_key) cells)

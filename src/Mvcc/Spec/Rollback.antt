-- ===== src/Mvcc/Spec/Rollback.antt =====
-- What a reader and a later Prewrite see of a Rollback of MVCCLevelDB.
use mock_tikv.Prelude.{
  ℕ, ◌≡◌, ◌≢◌, ◌<◌, ◌⊎◌, refl, sym, ap, ◌∙◌, inl, inr, true, Option, none, some, List, [], ◌∷◌,
  ◌++◌, Bytes, All, ◌==◌, if◌then◌else◌, arith, Bool-cases,
}
use mock_tikv.Errors.{Result, ok, err, retryable, >>=-eq-ok}
use mock_tikv.Bytes.{equal}
use mock_tikv.Key.{lock_ver}
use mock_tikv.Marshal.{MvccLock, MvccValue, type_rollback}
use mock_tikv.Entry.{IsolationLevel, Mutation, tomb, get_txn_commit_info, newer_head}
use mock_tikv.Engine.{Engine, EngineLaws}
use mock_tikv.Mvcc.{get}
use mock_tikv.Mvcc.Write.{own_lock, rollback, prewrite}
use mock_tikv.Mvcc.Cells.{Cell, value_cell, lock_of, values_of, Holds}
use mock_tikv.Mvcc.Cells.Read.{visible}
use mock_tikv.Mvcc.Cells.Change.{CellOp, store, unlock, apply_cells}
use mock_tikv.Mvcc.Cells.View.{put_version}
use mock_tikv.Mvcc.Cells.Effect.{
  View, view_of, view_op, view_ops, view_ops-append, view_of-apply_cells, mem_key, again,
}
use mock_tikv.Mvcc.Spec.{
  spec_unlocked, spec_rollback, spec_rollback_all, spec_prewrite, spec_prewrite_all, Refines,
}
use mock_tikv.Mvcc.Spec.Fit.{Fit, MutationFits, PrewriteFits}
use mock_tikv.Mvcc.Spec.Refine.{rollback-Refines, spec_rollback_all-Fit, prewrite-PrewriteRefines}
use mock_tikv.Mvcc.Spec.Commit.{owned, put_version_again}
use mock_tikv.Mvcc.Spec.Visible.{read_view, view_get-unlocked}

-- The lock and the values of a key once the transaction is rolled back, by its lock and its record
unfoldable pub undone : Option MvccLock → Option MvccValue → ℕ → View → View
undone (some l) c start_ts (lock, values) = (none, put_version (tomb start_ts) values)
undone none none start_ts (lock, values) = (lock, put_version (tomb start_ts) values)
undone none (some c) start_ts view = view

undone_again :
    (o : Option MvccLock) (c : Option MvccValue) (start_ts : ℕ) (view : View)
    → undone o c start_ts (undone o c start_ts view) ≡ undone o c start_ts view
unfolding undone
undone_again (some l) c start_ts (lock, values) = rw (put_version_again (tomb start_ts) values) refl
undone_again none none start_ts (lock, values) = rw (put_version_again (tomb start_ts) values) refl
undone_again none (some c) start_ts view = refl

spec_unlocked-view :
    (c : Option MvccValue) (j k : Bytes) (start_ts : ℕ) (ops : List CellOp) (view : View)
    → spec_unlocked c k start_ts ≡ ok ops
    → view_ops j ops view ≡ (if equal k j then undone none c start_ts view else view)
unfolding spec_unlocked view_ops view_op undone
spec_unlocked-view none j k start_ts ops (lock, values) h =
    let q : store (value_cell k (tomb start_ts)) ∷ [] ≡ ops = cc h in
    rw (← q) (elim (Bool-cases (equal k j)) [
      | inl y ↦ rw (view_ops, view_op, y) refl
      | inr n ↦ rw (view_ops, view_op, n) refl
    ])
spec_unlocked-view (some c) j k start_ts ops view h =
    elim (Bool-cases (c.value_type == type_rollback)) [
      | inl t ↦ let q : [] ≡ ops = cc (rw t at h) in rw (← q) (ground arith)
      | inr u ↦ cc (rw u at h)
    ]

spec_rollback-view :
    (o : Option MvccLock) (values : List MvccValue) (j k : Bytes) (start_ts : ℕ) (ops : List CellOp)
    (view : View)
    → spec_rollback o values k start_ts ≡ ok ops
    → view_ops j ops view
      ≡ (if equal k j then undone o (get_txn_commit_info values start_ts) start_ts view else view)
unfolding spec_rollback view_ops undone
spec_rollback-view (some l) values j k start_ts ops (lock, vs) h =
    let q : store (value_cell k (tomb start_ts)) ∷ unlock k ∷ [] ≡ ops = cc h in
    rw (← q) (elim (Bool-cases (equal k j)) [
      | inl y ↦ rw (view_ops, view_op, undone, y) refl
      | inr n ↦ rw (view_ops, view_op, n) refl
    ])
spec_rollback-view none values j k start_ts ops view h =
    spec_unlocked-view (get_txn_commit_info values start_ts) j k start_ts ops view h

abbrev rolled : List Cell → ℕ → Bytes → View → View
rolled cells start_ts i =
    undone (owned i cells start_ts) (get_txn_commit_info (values_of i cells) start_ts) start_ts

spec_rollback_all-view :
    (cells : List Cell) (keys : List Bytes) (start_ts : ℕ) (ops : List CellOp) (j : Bytes)
    (view : View)
    → spec_rollback_all cells keys start_ts ≡ ok ops
    → view_ops j ops view ≡ (if mem_key j keys then rolled cells start_ts j view else view)
unfolding spec_rollback_all
spec_rollback_all-view cells [] start_ts ops j view h =
    let q : [] ≡ ops = cc h in rw (← q) (unfold view_ops in refl)
spec_rollback_all-view cells (k ∷ ks) start_ts ops j view h =
    let (first, hf, h1) = >>=-eq-ok _ _ h in
    let (rest, hr, h2) = >>=-eq-ok (spec_rollback_all cells ks start_ts) _ h1 in
    let q : first ++ rest ≡ ops = cc h2 in
    rw (← q) (
      view_ops-append j first rest view
      ∙ spec_rollback_all-view cells ks start_ts rest j (view_ops j first view) hr
      ∙ rw
          (spec_rollback-view (owned k cells start_ts) (values_of k cells) j k start_ts first view
            hf)
          (again (rolled cells start_ts)
            (λ i.
              undone_again (owned i cells start_ts)
                (get_txn_commit_info (values_of i cells) start_ts) start_ts)
            j k ks view))

-- A rollback record is passed over, unless it replaces a value of its timestamp.
visible-put_tomb :
    (ts start_ts : ℕ) (vs : List MvccValue)
    → All (λ v. v.commit_ts ≢ start_ts) vs
    → visible ts (put_version (tomb start_ts) vs) ≡ visible ts vs
unfolding visible put_version
visible-put_tomb ts start_ts [] h = ground arith
visible-put_tomb ts start_ts (w ∷ ws) h = ground (arith, visible-put_tomb ts start_ts ws h.1)

newer_head-put_tomb :
    (start_ts : ℕ) (vs : List MvccValue)
    → newer_head (put_version (tomb start_ts) vs) start_ts ≡ true
unfolding newer_head put_version
newer_head-put_tomb start_ts [] = ground arith
newer_head-put_tomb start_ts (w ∷ ws) = ground arith

-- The values after a rollback of a transaction that left no record
tombed :
    (o : Option MvccLock) (start_ts : ℕ) (lock : Option MvccLock) (values : List MvccValue)
    → (lock ≡ none) ⊎ (own_lock lock start_ts ≢ none)
    → o ≡ own_lock lock start_ts
    → undone o none start_ts (lock, values) ≡ (none, put_version (tomb start_ts) values)
unfolding undone own_lock
tombed (some l) start_ts lock values h q = refl
tombed none start_ts none values h q = refl
tombed none start_ts (some l) values (inl n) q = cc n
tombed none start_ts (some l) values (inr n) q = absurd (n (sym q))

module _ (e : Engine) (laws : EngineLaws e) where
  abbrev RolledBack : e.Db → List Cell → List Bytes → ℕ → e.Db → Type 0
  RolledBack db cells keys start_ts db' =
      (cells' : List Cell) × Holds e db' cells'
      × ((j : Bytes)
          → view_of j cells' ≡ (
              if mem_key j keys
              then rolled cells start_ts j (view_of j cells)
              else view_of j cells))

  rollback_view :
      (db : e.Db) (cells : List Cell) (keys : List Bytes) (start_ts : ℕ)
      → Holds e db cells
      → (w : e.Db × Result (Unit {0})) (r : Result (List CellOp))
      → spec_rollback_all cells keys start_ts ≡ r
      → Fit r
      → Refines e db cells w r
      → w.1 ≡ ok tt
      → RolledBack db cells keys start_ts w.0
  rollback_view db cells keys start_ts h w (ok ops) s f q d = (
    apply_cells ops cells,
    q.1,
    λ j.
        view_of-apply_cells e laws j ops db cells h f
        ∙ spec_rollback_all-view cells keys start_ts ops j (view_of j cells) s,
  )
  rollback_view db cells keys start_ts h w (err x) s f q d = cc (q.1, d)

  rollback-RolledBack :
      (db : e.Db) (cells : List Cell)
      → Holds e db cells
      → (keys : List Bytes) (start_ts : ℕ) → start_ts < lock_ver
      → (rollback e db keys start_ts).1 ≡ ok tt
      → RolledBack db cells keys start_ts (rollback e db keys start_ts).0
  rollback-RolledBack db cells h keys start_ts hs d =
      rollback_view db cells keys start_ts h (rollback e db keys start_ts)
        (spec_rollback_all cells keys start_ts) refl (spec_rollback_all-Fit cells keys start_ts hs)
        (rollback-Refines e laws db cells h keys start_ts hs) d

  tombed_view :
      (cells : List Cell) (start_ts : ℕ) (key : Bytes)
      → (lock_of key cells ≡ none) ⊎ (owned key cells start_ts ≢ none)
      → get_txn_commit_info (values_of key cells) start_ts ≡ none
      → rolled cells start_ts key (view_of key cells)
        ≡ (none, put_version (tomb start_ts) (values_of key cells))
  tombed_view cells start_ts key free info = rw info (
      tombed (owned key cells start_ts) start_ts (lock_of key cells) (values_of key cells) free
        refl)

  -- After a Rollback that succeeds, a read of one of its keys, at any timestamp, sees what it
  -- would have seen with no lock: provided that no other transaction had locked the key, that the
  -- transaction had left no record there, and that no value has its start timestamp for a version.
  -- The start timestamp is below lockVer. The engine keeps its laws, and the database holds cells
  -- that can be stored and read back.
  pub rollback_reads :
      (db : e.Db) (cells : List Cell)
      → Holds e db cells
      → (keys : List Bytes) (start_ts : ℕ) → start_ts < lock_ver
      → (rollback e db keys start_ts).1 ≡ ok tt
      → (key : Bytes) → mem_key key keys ≡ true
      → (lock_of key cells ≡ none) ⊎ (owned key cells start_ts ≢ none)
      → get_txn_commit_info (values_of key cells) start_ts ≡ none
      → All (λ v. v.commit_ts ≢ start_ts) (values_of key cells)
      → (ts : ℕ) (iso : IsolationLevel)
      → get e (rollback e db keys start_ts).0 key ts iso ≡ ok (visible ts (values_of key cells))
  rollback_reads db cells h keys start_ts hs d key mem free info other ts iso =
      let (cells', h', view) = rollback-RolledBack db cells h keys start_ts hs d in
      read_view e laws (rollback e db keys start_ts).0 cells'
        (none, put_version (tomb start_ts) (values_of key cells)) key ts iso h'
        (view key ∙ rw mem (tombed_view cells start_ts key free info))
      ∙ view_get-unlocked _ key ts iso
      ∙ ap ok (visible-put_tomb ts start_ts (values_of key cells) other)

  conflict :
      (cells' : List Cell) (m : Mutation) (primary : Bytes) (start_ts ttl : ℕ)
      (values : List MvccValue)
      → view_of m.key cells' ≡ (none, put_version (tomb start_ts) values)
      → spec_prewrite_all cells' (m ∷ []) primary start_ts ttl
        ≡ (some (retryable "write conflict") ∷ [], [])
  unfolding spec_prewrite_all spec_prewrite
  conflict cells' m primary start_ts ttl values q =
      let free : lock_of m.key cells' ≡ none = ap (λ (v : View). v.0) q in
      let vals : values_of m.key cells' ≡ put_version (tomb start_ts) values =
        ap (λ (v : View). v.1) q in
      rw (free, vals) (rw (newer_head-put_tomb start_ts values) refl)

  -- After a Rollback that succeeds, the transaction cannot prewrite one of its keys any more: the
  -- Prewrite fails with a write conflict and changes nothing. This holds where no other
  -- transaction had locked the key, and where the transaction had left no record there before. The
  -- start timestamp is below lockVer. The mutation, the primary key, the start timestamp and the
  -- ttl can be stored. The engine keeps its laws, and the database holds cells that can be stored
  -- and read back.
  pub rollback_blocks_prewrite :
      (db : e.Db) (cells : List Cell)
      → Holds e db cells
      → (keys : List Bytes) (start_ts : ℕ) → start_ts < lock_ver
      → (rollback e db keys start_ts).1 ≡ ok tt
      → (m : Mutation) (primary : Bytes) (ttl : ℕ) → mem_key m.key keys ≡ true
      → (lock_of m.key cells ≡ none) ⊎ (owned m.key cells start_ts ≢ none)
      → get_txn_commit_info (values_of m.key cells) start_ts ≡ none
      → MutationFits m
      → PrewriteFits primary start_ts ttl
      → prewrite e (rollback e db keys start_ts).0 (m ∷ []) primary start_ts ttl
        ≡ ((rollback e db keys start_ts).0, some (retryable "write conflict") ∷ [])
  rollback_blocks_prewrite db cells h keys start_ts hs d m primary ttl mem free info hm hp =
      let (cells', h', view) = rollback-RolledBack db cells h keys start_ts hs d in
      let failed : spec_prewrite_all cells' (m ∷ []) primary start_ts ttl
          ≡ (some (retryable "write conflict") ∷ [], []) =
        conflict cells' m primary start_ts ttl (values_of m.key cells)
          (view m.key ∙ rw mem (tombed_view cells start_ts m.key free info)) in
      let (errs, same) = rw failed at (
        prewrite-PrewriteRefines e laws (rollback e db keys start_ts).0 cells' h' (m ∷ []) primary
          start_ts ttl (hm, tt) hp) in
      cc (errs, same)

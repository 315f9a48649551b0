-- ===== src/Mvcc/Spec/Visible.antt =====
-- What a reader sees after a Commit of MVCCLevelDB.
use mock_tikv.Prelude.{
  ℕ, ◌≡◌, ◌≢◌, ◌<◌, ◌≤◌, ◌^◌, refl, sym, ap, ◌∙◌, true, false, none, some, List, [], ◌∷◌, Bytes,
  All, ◌==◌, if◌then◌else◌, arith,
}
use mock_tikv.Errors.{Result, ok, err}
use mock_tikv.Key.{lock_ver}
use mock_tikv.Marshal.{MvccLock, MvccValue, type_rollback, type_delete}
use mock_tikv.Entry.{IsolationLevel, op_lock, op_put, value_type_of}
use mock_tikv.Engine.{Engine, EngineLaws}
use mock_tikv.Mvcc.{get, lock_ts}
use mock_tikv.Mvcc.Write.{commit_value, commit}
use mock_tikv.Mvcc.Cells.{Cell, values_of, Holds}
use mock_tikv.Mvcc.Cells.Read.{visible, view_get, get-view}
use mock_tikv.Mvcc.Cells.Change.{CellOp, apply_cells}
use mock_tikv.Mvcc.Cells.View.{put_version}
use mock_tikv.Mvcc.Cells.Effect.{View, view_of, view_of-apply_cells, mem_key}
use mock_tikv.Mvcc.Spec.{spec_commit_all, Refines}
use mock_tikv.Mvcc.Spec.Fit.{Fit}
use mock_tikv.Mvcc.Spec.Refine.{commit-Refines, spec_commit_all-Fit}
use mock_tikv.Mvcc.Spec.Commit.{done, owned, spec_commit_all-view}

-- A value that is newer than the snapshot is not seen.
pub visible-put_newer :
    (ts : ℕ) (v : MvccValue) (vs : List MvccValue)
    → ts < v.commit_ts
    → visible ts (put_version v vs) ≡ visible ts vs
unfolding visible put_version
visible-put_newer ts v [] h = ground arith
visible-put_newer ts v (w ∷ ws) h = ground (arith, visible-put_newer ts v ws h)

-- The newest value is what a snapshot at or after it sees.
pub visible-put_newest :
    (ts : ℕ) (v : MvccValue) (vs : List MvccValue)
    → All (λ w. w.commit_ts ≤ v.commit_ts) vs
    → v.commit_ts ≤ ts
    → v.value_type ≢ type_rollback
    → visible ts (put_version v vs) ≡ (if v.value_type == type_delete then none else some v.value)
unfolding visible put_version
visible-put_newest ts v [] a h n = ground arith
visible-put_newest ts v (w ∷ ws) a h n = ground arith

pub view_get-unlocked :
    (values : List MvccValue) (key : Bytes) (ts : ℕ) (iso : IsolationLevel)
    → view_get none values key ts iso ≡ ok (visible ts values)
unfolding view_get lock_ts
view_get-unlocked values key ts iso = refl

-- What is put for the lock, by its operation
value_type-read :
    (l : MvccLock) (start_ts commit_ts : ℕ)
    → ((commit_value l start_ts commit_ts).value_type ≢ type_rollback)
      × ((if (commit_value l start_ts commit_ts).value_type == type_delete
            then none
            else some l.value)
          ≡ (if l.op == op_put then some l.value else none))
unfolding value_type_of
value_type-read l start_ts commit_ts = (ground arith, ground arith)

done-put :
    (l : MvccLock) (start_ts commit_ts : ℕ) (view : View)
    → l.op ≢ op_lock
    → done (some l) start_ts commit_ts view
      ≡ (none, put_version (commit_value l start_ts commit_ts) view.1)
unfolding done
done-put l start_ts commit_ts (lock, values) n = ground arith

module _ (e : Engine) (laws : EngineLaws e) where
  abbrev Committed : e.Db → List Cell → List Bytes → ℕ → ℕ → e.Db → Type 0
  Committed db cells keys start_ts commit_ts db' =
      (cells' : List Cell) × Holds e db' cells'
      × ((j : Bytes)
          → view_of j cells' ≡ (
              if mem_key j keys
              then done (owned j cells start_ts) start_ts commit_ts (view_of j cells)
              else view_of j cells))

  commit_view :
      (db : e.Db) (cells : List Cell) (keys : List Bytes) (start_ts commit_ts : ℕ)
      → Holds e db cells
      → (w : e.Db × Result (Unit {0})) (r : Result (List CellOp))
      → spec_commit_all cells keys start_ts commit_ts ≡ r
      → Fit r
      → Refines e db cells w r
      → w.1 ≡ ok tt
      → Committed db cells keys start_ts commit_ts w.0
  commit_view db cells keys start_ts commit_ts h w (ok ops) s f q d = (
    apply_cells ops cells,
    q.1,
    λ j.
        view_of-apply_cells e laws j ops db cells h f
        ∙ spec_commit_all-view cells keys start_ts commit_ts ops j (view_of j cells) s,
  )
  commit_view db cells keys start_ts commit_ts h w (err x) s f q d = cc (q.1, d)

  commit-Committed :
      (db : e.Db) (cells : List Cell)
      → Holds e db cells
      → (keys : List Bytes) (start_ts commit_ts : ℕ) → start_ts < 256 ^ 8
      → commit_ts < lock_ver
      → (commit e db keys start_ts commit_ts).1 ≡ ok tt
      → Committed db cells keys start_ts commit_ts (commit e db keys start_ts commit_ts).0
  commit-Committed db cells h keys start_ts commit_ts hs hc d =
      commit_view db cells keys start_ts commit_ts h (commit e db keys start_ts commit_ts)
        (spec_commit_all cells keys start_ts commit_ts) refl
        (spec_commit_all-Fit cells keys start_ts commit_ts h.fit hs hc)
        (commit-Refines e laws db cells h keys start_ts commit_ts hs hc) d

  pub read_view :
      (db : e.Db) (cells : List Cell) (view : View) (j : Bytes) (ts : ℕ) (iso : IsolationLevel)
      → Holds e db cells
      → view_of j cells ≡ view
      → get e db j ts iso ≡ view_get view.0 view.1 j ts iso
  read_view db cells view j ts iso h q =
      get-view e laws db cells h j ts iso ∙ ap (λ (v : View). view_get v.0 v.1 j ts iso) q

  -- A Commit that succeeds leaves every read of the other keys as it was. The start timestamp is a
  -- uint64 and the commit timestamp is below lockVer. The engine keeps its laws, and the database
  -- holds cells that can be stored and read back.
  pub commit_elsewhere :
      (db : e.Db) (cells : List Cell)
      → Holds e db cells
      → (keys : List Bytes) (start_ts commit_ts : ℕ) → start_ts < 256 ^ 8
      → commit_ts < lock_ver
      → (commit e db keys start_ts commit_ts).1 ≡ ok tt
      → (key : Bytes) (ts : ℕ) (iso : IsolationLevel) → mem_key key keys ≡ false
      → get e (commit e db keys start_ts commit_ts).0 key ts iso ≡ get e db key ts iso
  commit_elsewhere db cells h keys start_ts commit_ts hs hc d key ts iso out =
      let (cells', h', view) = commit-Committed db cells h keys start_ts commit_ts hs hc d in
      read_view (commit e db keys start_ts commit_ts).0 cells' (view_of key cells) key ts iso h'
        (view key ∙ rw out refl)
      ∙ sym (get-view e laws db cells h key ts iso)

  -- After a Commit that succeeds, a read of a key that the transaction had locked for a write,
  -- below the commit timestamp, sees what it would have seen with no lock. The start timestamp is
  -- a uint64 and the commit timestamp is below lockVer. The engine keeps its laws, and the
  -- database holds cells that can be stored and read back.
  pub commit_before :
      (db : e.Db) (cells : List Cell)
      → Holds e db cells
      → (keys : List Bytes) (start_ts commit_ts : ℕ) → start_ts < 256 ^ 8
      → commit_ts < lock_ver
      → (commit e db keys start_ts commit_ts).1 ≡ ok tt
      → (key : Bytes) (l : MvccLock) → mem_key key keys ≡ true
      → owned key cells start_ts ≡ some l
      → l.op ≢ op_lock
      → (ts : ℕ) (iso : IsolationLevel) → ts < commit_ts
      → get e (commit e db keys start_ts commit_ts).0 key ts iso
        ≡ ok (visible ts (values_of key cells))
  commit_before db cells h keys start_ts commit_ts hs hc d key l mem own n ts iso lt =
      let (cells', h', view) = commit-Committed db cells h keys start_ts commit_ts hs hc d in
      read_view (commit e db keys start_ts commit_ts).0 cells'
        (none, put_version (commit_value l start_ts commit_ts) (values_of key cells)) key ts iso h'
        (view key ∙ rw (mem, own) (done-put l start_ts commit_ts (view_of key cells) n))
      ∙ view_get-unlocked _ key ts iso
      ∙ ap ok (visible-put_newer ts (commit_value l start_ts commit_ts) (values_of key cells) lt)

  -- After a Commit that succeeds, a read of a key that the transaction had locked for a write, at
  -- or above the commit timestamp, sees the value of the lock, or nil if that is a deletion,
  -- provided that the key has no value newer than the commit. The start timestamp is a uint64 and
  -- the commit timestamp is below lockVer. The engine keeps its laws, and the database holds cells
  -- that can be stored and read back.
  pub commit_after :
      (db : e.Db) (cells : List Cell)
      → Holds e db cells
      → (keys : List Bytes) (start_ts commit_ts : ℕ) → start_ts < 256 ^ 8
      → commit_ts < lock_ver
      → (commit e db keys start_ts commit_ts).1 ≡ ok tt
      → (key : Bytes) (l : MvccLock) → mem_key key keys ≡ true
      → owned key cells start_ts ≡ some l
      → l.op ≢ op_lock
      → (ts : ℕ) (iso : IsolationLevel) → commit_ts ≤ ts
      → All (λ v. v.commit_ts ≤ commit_ts) (values_of key cells)
      → get e (commit e db keys start_ts commit_ts).0 key ts iso
        ≡ ok (if l.op == op_put then some l.value else none)
  commit_after db cells h keys start_ts commit_ts hs hc d key l mem own n ts iso le all =
      let (cells', h', view) = commit-Committed db cells h keys start_ts commit_ts hs hc d in
      let (put, read) = value_type-read l start_ts commit_ts in
      read_view (commit e db keys start_ts commit_ts).0 cells'
        (none, put_version (commit_value l start_ts commit_ts) (values_of key cells)) key ts iso h'
        (view key ∙ rw (mem, own) (done-put l start_ts commit_ts (view_of key cells) n))
      ∙ view_get-unlocked _ key ts iso
      ∙ ap ok (
          visible-put_newest ts (commit_value l start_ts commit_ts) (values_of key cells) all le put
          ∙ read)

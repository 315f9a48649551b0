-- ===== src/Mvcc/Spec/Prewrite.antt =====
-- What a reader and another transaction see of a key that Prewrite of MVCCLevelDB has locked.
use mock_tikv.Prelude.{
  ℕ, ◌≡◌, ◌≢◌, ◌≤◌, refl, sym, ap, ◌∙◌, false, Option, none, some, List, [], ◌∷◌, Bytes, All,
  if◌then◌else◌, arith, max_u64,
}
use mock_tikv.Errors.{Error, err}
use mock_tikv.Bytes.{equal}
use mock_tikv.Marshal.{MvccLock, MvccValue}
use mock_tikv.Entry.{si, Mutation, lock_err, newer_head, op_lock, check}
use mock_tikv.Engine.{Engine, EngineLaws}
use mock_tikv.Mvcc.{get, lock_ts}
use mock_tikv.Mvcc.Write.{new_lock, prewrite}
use mock_tikv.Mvcc.Cells.{Cell, lock_cell, lock_of, values_of, Holds}
use mock_tikv.Mvcc.Cells.Read.{view_get, eq_self}
use mock_tikv.Mvcc.Cells.Change.{store, OpFits, apply_cells}
use mock_tikv.Mvcc.Cells.Effect.{View, view_of, view_op, view_ops, view_of-apply_cells}
use mock_tikv.Mvcc.Spec.{spec_prewrite, spec_prewrite_all}
use mock_tikv.Mvcc.Spec.Fit.{MutationFits, PrewriteFits}
use mock_tikv.Mvcc.Spec.Refine.{prewrite-PrewriteRefines, spec_prewrite_all-fit}
use mock_tikv.Mvcc.Spec.Visible.{read_view}

-- Another transaction's lock stops a prewrite.
held :
    (cells : List Cell) (l : MvccLock) (m : Mutation) (primary : Bytes) (start_ts ttl : ℕ)
    → lock_of m.key cells ≡ some l
    → l.start_ts ≢ start_ts
    → spec_prewrite_all cells (m ∷ []) primary start_ts ttl ≡ (some (lock_err l m.key) ∷ [], [])
unfolding spec_prewrite_all spec_prewrite
held cells l m primary start_ts ttl q n = rw q (ground arith)

-- A free key with no newer value is locked.
locks :
    (cells : List Cell) (m : Mutation) (primary : Bytes) (start_ts ttl : ℕ)
    → lock_of m.key cells ≡ none
    → newer_head (values_of m.key cells) start_ts ≡ false
    → spec_prewrite_all cells (m ∷ []) primary start_ts ttl
      ≡ (none ∷ [], store (lock_cell m.key (new_lock m start_ts primary ttl)) ∷ [])
unfolding spec_prewrite_all spec_prewrite
locks cells m primary start_ts ttl q n = rw q (rw n refl)

check_fails :
    (l : MvccLock) (ts : ℕ) (key : Bytes)
    → l.start_ts ≤ ts
    → l.op ≢ op_lock
    → ts ≢ max_u64
    → check l ts key ≡ err (lock_err l key)
unfolding check
check_fails l ts key le n m = ground arith

view_get-blocked :
    (l : MvccLock) (values : List MvccValue) (ts : ℕ) (key : Bytes)
    → l.start_ts ≤ ts
    → l.op ≢ op_lock
    → ts ≢ max_u64
    → view_get (some l) values key ts si ≡ err (lock_err l key)
unfolding view_get lock_ts
view_get-blocked l values ts key le n m = rw (check_fails l ts key le n m) refl

locked_view :
    (j : Bytes) (l : MvccLock) (k : Bytes) (view : View)
    → view_ops j (store (lock_cell k l) ∷ []) view
      ≡ ((if equal k j then some l else view.0), view.1)
unfolding view_ops view_op
locked_view j l k (lock, values) = refl

both_halves :
    {A B : Type 0} (w : A × B) {a : A} {b : B} → w.1 ≡ b → w.0 ≡ a → ◌≡◌ {A = A × B} w (a, b)
both_halves w p q = cc (p, q)

module _ (e : Engine) (laws : EngineLaws e) where
  abbrev Prewritten :
      e.Db → List Cell → Mutation → Bytes → ℕ → ℕ → e.Db × List (Option Error) → Type 0
  Prewritten db cells m primary start_ts ttl (db', errs) =
      (errs ≡ none ∷ [])
      × ((cells' : List Cell) × Holds e db' cells'
          × ((j : Bytes)
              → view_of j cells' ≡ (
                (if equal m.key j then some (new_lock m start_ts primary ttl) else lock_of j cells),
                values_of j cells,
              )))

  prewrite-Prewritten :
      (db : e.Db) (cells : List Cell)
      → Holds e db cells
      → (m : Mutation) (primary : Bytes) (start_ts ttl : ℕ) → MutationFits m
      → PrewriteFits primary start_ts ttl
      → lock_of m.key cells ≡ none
      → newer_head (values_of m.key cells) start_ts ≡ false
      → Prewritten db cells m primary start_ts ttl (prewrite e db (m ∷ []) primary start_ts ttl)
  prewrite-Prewritten db cells h m primary start_ts ttl hm hp free old =
      let done : spec_prewrite_all cells (m ∷ []) primary start_ts ttl
          ≡ (none ∷ [], store (lock_cell m.key (new_lock m start_ts primary ttl)) ∷ []) =
        locks cells m primary start_ts ttl free old in
      let fit : All OpFits (store (lock_cell m.key (new_lock m start_ts primary ttl)) ∷ []) =
        rw done at (spec_prewrite_all-fit cells (m ∷ []) primary start_ts ttl (hm, tt) hp) in
      let (errs, holds) =
        rw done at
          (prewrite-PrewriteRefines e laws db cells h (m ∷ []) primary start_ts ttl (hm, tt) hp) in
      (
        errs,
        (
          apply_cells (store (lock_cell m.key (new_lock m start_ts primary ttl)) ∷ []) cells,
          holds,
          λ j.
              view_of-apply_cells e laws j
                (store (lock_cell m.key (new_lock m start_ts primary ttl)) ∷ []) db cells h fit
              ∙ locked_view j (new_lock m start_ts primary ttl) m.key (view_of j cells),
        ),
      )

  -- After Prewrite of a key that has no lock and no value as new as the transaction, a read of the
  -- key on snapshot isolation, at the start timestamp or later and not at the maximal one, fails
  -- with the lock, unless the mutation only locks. The mutation, the primary key, the start
  -- timestamp and the ttl can be stored. The engine keeps its laws, and the database holds cells
  -- that can be stored and read back.
  pub prewrite_blocks_read :
      (db : e.Db) (cells : List Cell)
      → Holds e db cells
      → (m : Mutation) (primary : Bytes) (start_ts ttl : ℕ) → MutationFits m
      → PrewriteFits primary start_ts ttl
      → lock_of m.key cells ≡ none
      → newer_head (values_of m.key cells) start_ts ≡ false
      → m.op ≢ op_lock
      → (ts : ℕ) → start_ts ≤ ts
      → ts ≢ max_u64
      → get e (prewrite e db (m ∷ []) primary start_ts ttl).0 m.key ts si
        ≡ err (lock_err (new_lock m start_ts primary ttl) m.key)
  prewrite_blocks_read db cells h m primary start_ts ttl hm hp free old n ts le mx =
      let (errs, (cells', h', view)) =
        prewrite-Prewritten db cells h m primary start_ts ttl hm hp free old in
      read_view e laws (prewrite e db (m ∷ []) primary start_ts ttl).0 cells'
        (some (new_lock m start_ts primary ttl), values_of m.key cells) m.key ts si h'
        (view m.key ∙ rw (eq_self m.key m.key refl) refl)
      ∙ view_get-blocked (new_lock m start_ts primary ttl) (values_of m.key cells) ts m.key le n mx

  -- After Prewrite of a key that has no lock and no value as new as the transaction, a Prewrite of
  -- the key by another transaction fails with the lock and changes nothing. Both mutations, and
  -- the primary key, the start timestamp and the ttl of both calls, can be stored. The engine
  -- keeps its laws, and the database holds cells that can be stored and read back.
  pub prewrite_excludes :
      (db : e.Db) (cells : List Cell)
      → Holds e db cells
      → (m : Mutation) (primary : Bytes) (start_ts ttl : ℕ) → MutationFits m
      → PrewriteFits primary start_ts ttl
      → lock_of m.key cells ≡ none
      → newer_head (values_of m.key cells) start_ts ≡ false
      → (m' : Mutation) (primary' : Bytes) (start_ts' ttl' : ℕ) → MutationFits m'
      → PrewriteFits primary' start_ts' ttl'
      → m'.key ≡ m.key
      → start_ts ≢ start_ts'
      → prewrite e (prewrite e db (m ∷ []) primary start_ts ttl).0 (m' ∷ []) primary' start_ts' ttl'
        ≡ (
          (prewrite e db (m ∷ []) primary start_ts ttl).0,
          some (lock_err (new_lock m start_ts primary ttl) m'.key) ∷ [],
        )
  prewrite_excludes db cells h m primary start_ts ttl hm hp free old m' primary' start_ts' ttl' hm'
        hp' same n =
      let (errs, (cells', h', view)) =
        prewrite-Prewritten db cells h m primary start_ts ttl hm hp free old in
      let lock : lock_of m'.key cells' ≡ some (new_lock m start_ts primary ttl) =
        ap (λ (v : View). v.0) (view m'.key) ∙ rw (eq_self m'.key m.key (sym same)) refl in
      let failed : spec_prewrite_all cells' (m' ∷ []) primary' start_ts' ttl'
          ≡ (some (lock_err (new_lock m start_ts primary ttl) m'.key) ∷ [], []) =
        held cells' (new_lock m start_ts primary ttl) m' primary' start_ts' ttl' lock n in
      let (errs', unchanged) = rw failed at (
        prewrite-PrewriteRefines e laws (prewrite e db (m ∷ []) primary start_ts ttl).0 cells' h'
          (m' ∷ []) primary' start_ts' ttl' (hm', tt) hp') in
      both_halves
        (prewrite e (prewrite e db (m ∷ []) primary start_ts ttl).0 (m' ∷ []) primary' start_ts'
          ttl')
        errs' unchanged

-- ===== src/Mvcc/Spec/Refine.antt =====
-- Prewrite, Commit, Rollback and Cleanup of MVCCLevelDB do to the cells what is specified.
use mathlib.Core.List.{map-append}
use mock_tikv.Prelude.{
  ℕ, ◌≡◌, ◌<◌, ◌^◌, refl, sym, ap, ◌∙◌, Option, none, some, List, [], ◌∷◌, Bytes, All, map, inl,
  inr, Bool-cases, All-append,
}
use mock_tikv.Errors.{Error, Result, ok, err}
use mock_tikv.Key.{lock_ver}
use mock_tikv.Entry.{Mutation}
use mock_tikv.Engine.{Engine, EngineLaws, Batch}
use mock_tikv.Mvcc.{key_iter}
use mock_tikv.Mvcc.Write.{
  own_lock, prewrite_mutation, commit_key, rollback_key, written, write_batch, add_round,
  write_locks, prewrite_all, any_error, after_prewrite, prewrite, commit_all, commit, rollback_all,
  rollback, cleanup,
}
use mock_tikv.Mvcc.Cells.{Cell, CellFits, lock_of, values_of, from, Holds}
use mock_tikv.Mvcc.Cells.Shape.{lock_of-from, values_of-from, from-fit}
use mock_tikv.Mvcc.Cells.Read.{key_iter-cells, Entry-cells}
use mock_tikv.Mvcc.Cells.Change.{CellOp, encode_op, OpFits, write-Holds}
use mock_tikv.Mvcc.Spec.{
  spec_prewrite, spec_commit, spec_rollback, encoded, spec_commit_all, spec_rollback_all,
  spec_prewrite_all, Outcomes, add_outcome, Refines, PrewriteRefines,
}
use mock_tikv.Mvcc.Spec.Keys.{prewrite_mutation-cells, commit_key-cells, rollback_key-cells}
use mock_tikv.Mvcc.Spec.Fit.{
  Fit, LockOk, encoded-both, both-Fit, lock_of-fit, own_lock-fit, spec_commit-Fit,
  spec_rollback-Fit, spec_prewrite-Fit, MutationFits, PrewriteFits,
}

own_fit :
    (e : Engine) (db : e.Db) (cells : List Cell) (k : Bytes) (start_ts : ℕ)
    → Holds e db cells
    → LockOk (own_lock (lock_of k cells) start_ts)
own_fit e db cells k start_ts h =
    own_lock-fit (lock_of k cells) start_ts (lock_of-fit k cells h.fit)

pub spec_commit_all-Fit :
    (cells : List Cell) (keys : List Bytes) (start_ts commit_ts : ℕ)
    → All CellFits cells
    → start_ts < 256 ^ 8
    → commit_ts < lock_ver
    → Fit (spec_commit_all cells keys start_ts commit_ts)
unfolding spec_commit_all
spec_commit_all-Fit cells [] start_ts commit_ts h hs hc = tt
spec_commit_all-Fit cells (k ∷ ks) start_ts commit_ts h hs hc =
    both-Fit _ (spec_commit_all cells ks start_ts commit_ts)
      (spec_commit-Fit (own_lock (lock_of k cells) start_ts) (values_of k cells) k start_ts
        commit_ts (own_lock-fit (lock_of k cells) start_ts (lock_of-fit k cells h)) hs hc)
      (spec_commit_all-Fit cells ks start_ts commit_ts h hs hc)

pub spec_rollback_all-Fit :
    (cells : List Cell) (keys : List Bytes) (start_ts : ℕ)
    → start_ts < lock_ver
    → Fit (spec_rollback_all cells keys start_ts)
unfolding spec_rollback_all
spec_rollback_all-Fit cells [] start_ts h = tt
spec_rollback_all-Fit cells (k ∷ ks) start_ts h =
    both-Fit _ (spec_rollback_all cells ks start_ts)
      (spec_rollback-Fit (own_lock (lock_of k cells) start_ts) (values_of k cells) k start_ts h)
      (spec_rollback_all-Fit cells ks start_ts h)

add_outcome-Fit :
    (r : Result (List CellOp)) (o : Outcomes)
    → Fit r
    → All OpFits o.1
    → All OpFits (add_outcome r o).1
add_outcome-Fit (err x) (errs, rest) f h = h
add_outcome-Fit (ok ops) (errs, rest) f h = All-append OpFits ops rest f h

pub spec_prewrite_all-fit :
    (cells : List Cell) (ms : List Mutation) (primary : Bytes) (start_ts ttl : ℕ)
    → All MutationFits ms
    → PrewriteFits primary start_ts ttl
    → All OpFits (spec_prewrite_all cells ms primary start_ts ttl).1
unfolding spec_prewrite_all
spec_prewrite_all-fit cells [] primary start_ts ttl hm h = tt
spec_prewrite_all-fit cells (m ∷ ms) primary start_ts ttl hm h =
    add_outcome-Fit
      (spec_prewrite (lock_of m.key cells) (values_of m.key cells) m start_ts primary ttl)
      (spec_prewrite_all cells ms primary start_ts ttl)
      (spec_prewrite-Fit (lock_of m.key cells) (values_of m.key cells) m primary start_ts ttl hm.0
        h)
      (spec_prewrite_all-fit cells ms primary start_ts ttl hm.1 h)

module _ (e : Engine) (laws : EngineLaws e) where
  pub commit_key-view :
      (db : e.Db) (cells : List Cell) (k : Bytes) (start_ts commit_ts : ℕ)
      → Holds e db cells
      → commit_key (key_iter e db k) k start_ts commit_ts
        ≡ encoded (
            spec_commit
              (own_lock (lock_of k cells) start_ts)
              (values_of k cells)
              k
              start_ts
              commit_ts)
  commit_key-view db cells k start_ts commit_ts h =
      ap (λ it. commit_key it k start_ts commit_ts) (key_iter-cells e laws db cells k h)
      ∙ commit_key-cells k (from k cells) start_ts commit_ts (from-fit k cells h.fit)
          (Entry-cells e laws db cells k h)
      ∙ rw (lock_of-from k cells, values_of-from k cells)

  pub rollback_key-view :
      (db : e.Db) (cells : List Cell) (k : Bytes) (start_ts : ℕ)
      → Holds e db cells
      → rollback_key (key_iter e db k) k start_ts
        ≡ encoded
            (spec_rollback (own_lock (lock_of k cells) start_ts) (values_of k cells) k start_ts)
  rollback_key-view db cells k start_ts h =
      ap (λ it. rollback_key it k start_ts) (key_iter-cells e laws db cells k h)
      ∙ rollback_key-cells k (from k cells) start_ts (from-fit k cells h.fit)
          (Entry-cells e laws db cells k h)
      ∙ rw (lock_of-from k cells, values_of-from k cells)

  prewrite_mutation-view :
      (db : e.Db) (cells : List Cell) (m : Mutation) (start_ts : ℕ) (primary : Bytes) (ttl : ℕ)
      → Holds e db cells
      → prewrite_mutation (key_iter e db m.key) m start_ts primary ttl
        ≡ encoded
            (spec_prewrite (lock_of m.key cells) (values_of m.key cells) m start_ts primary ttl)
  prewrite_mutation-view db cells m start_ts primary ttl h =
      ap (λ it. prewrite_mutation it m start_ts primary ttl)
        (key_iter-cells e laws db cells m.key h)
      ∙ prewrite_mutation-cells m (from m.key cells) start_ts primary ttl
          (from-fit m.key cells h.fit) (Entry-cells e laws db cells m.key h)
      ∙ rw (lock_of-from m.key cells, values_of-from m.key cells)

  commit_all-cells :
      (db : e.Db) (cells : List Cell) (keys : List Bytes) (start_ts commit_ts : ℕ)
      → Holds e db cells
      → commit_all e db keys start_ts commit_ts
        ≡ encoded (spec_commit_all cells keys start_ts commit_ts)
  unfolding commit_all spec_commit_all
  commit_all-cells db cells [] start_ts commit_ts h = refl
  commit_all-cells db cells (k ∷ ks) start_ts commit_ts h =
      rw
        (
          commit_key-view db cells k start_ts commit_ts h,
          commit_all-cells db cells ks start_ts commit_ts h,
        )
        (sym (encoded-both _ (spec_commit_all cells ks start_ts commit_ts)))

  rollback_all-cells :
      (db : e.Db) (cells : List Cell) (keys : List Bytes) (start_ts : ℕ)
      → Holds e db cells
      → rollback_all e db keys start_ts ≡ encoded (spec_rollback_all cells keys start_ts)
  unfolding rollback_all spec_rollback_all
  rollback_all-cells db cells [] start_ts h = refl
  rollback_all-cells db cells (k ∷ ks) start_ts h =
      rw (rollback_key-view db cells k start_ts h, rollback_all-cells db cells ks start_ts h)
        (sym (encoded-both _ (spec_rollback_all cells ks start_ts)))

  written_ok : (w : e.Db × Option Error) → w.1 ≡ none → written e w ≡ (w.0, ok tt)
  written_ok (db, none) q = refl
  written_ok (db, some x) q = cc

  -- A batch of operations that fit, written
  written-Refines :
      (db : e.Db) (cells : List Cell) (ops : List CellOp)
      → Holds e db cells
      → All OpFits ops
      → Refines e db cells (written e (e.write db (map encode_op ops))) (ok ops)
  written-Refines db cells ops h f =
      rw (written_ok (e.write db (map encode_op ops)) (laws.write_ok db (map encode_op ops)))
        (refl, write-Holds e laws db cells ops h f)

  finish-Refines :
      (db : e.Db) (cells : List Cell) (r : Result (List CellOp))
      → Holds e db cells
      → Fit r
      → Refines e db cells (write_batch e db (encoded r)) r
  finish-Refines db cells (err x) h f = (refl, refl)
  finish-Refines db cells (ok ops) h f = written-Refines db cells ops h f

  -- Commit judges each key by its lock and values before the call, and either writes the outcome
  -- of all keys or fails with the first error and writes nothing. The start timestamp is a uint64
  -- and the commit timestamp is below lockVer. The engine keeps its laws, and the database holds
  -- cells that can be stored and read back.
  pub commit-Refines :
      (db : e.Db) (cells : List Cell)
      → Holds e db cells
      → (keys : List Bytes) (start_ts commit_ts : ℕ) → start_ts < 256 ^ 8
      → commit_ts < lock_ver
      → Refines e db cells
          (commit e db keys start_ts commit_ts)
          (spec_commit_all cells keys start_ts commit_ts)
  unfolding commit
  commit-Refines db cells h keys start_ts commit_ts hs hc =
      let q : commit e db keys start_ts commit_ts
          ≡ write_batch e db (encoded (spec_commit_all cells keys start_ts commit_ts)) =
        ap (write_batch e db) (commit_all-cells db cells keys start_ts commit_ts h) in
      rw q (
        finish-Refines db cells (spec_commit_all cells keys start_ts commit_ts) h
          (spec_commit_all-Fit cells keys start_ts commit_ts h.fit hs hc))

  -- Rollback judges each key by its lock and values before the call, and either writes the outcome
  -- of all keys or fails with the first error and writes nothing. The start timestamp is below
  -- lockVer. The engine keeps its laws, and the database holds cells that can be stored and read
  -- back.
  pub rollback-Refines :
      (db : e.Db) (cells : List Cell)
      → Holds e db cells
      → (keys : List Bytes) (start_ts : ℕ) → start_ts < lock_ver
      → Refines e db cells (rollback e db keys start_ts) (spec_rollback_all cells keys start_ts)
  unfolding rollback
  rollback-Refines db cells h keys start_ts hs =
      let q : rollback e db keys start_ts
          ≡ write_batch e db (encoded (spec_rollback_all cells keys start_ts)) =
        ap (write_batch e db) (rollback_all-cells db cells keys start_ts h) in
      rw q (
        finish-Refines db cells (spec_rollback_all cells keys start_ts) h
          (spec_rollback_all-Fit cells keys start_ts hs))

  -- Cleanup does to its key what a rollback does. The start timestamp is below lockVer. The engine
  -- keeps its laws, and the database holds cells that can be stored and read back.
  pub cleanup-Refines :
      (db : e.Db) (cells : List Cell)
      → Holds e db cells
      → (key : Bytes) (start_ts : ℕ) → start_ts < lock_ver
      → Refines e db cells
          (cleanup e db key start_ts)
          (spec_rollback (own_lock (lock_of key cells) start_ts) (values_of key cells) key start_ts)
  unfolding cleanup
  cleanup-Refines db cells h key start_ts hs =
      let q : cleanup e db key start_ts
          ≡ write_batch e db (
              encoded (
                spec_rollback (own_lock (lock_of key cells) start_ts) (values_of key cells) key
                  start_ts)) =
        ap (write_batch e db) (rollback_key-view db cells key start_ts h) in
      rw q (
        finish-Refines db cells
          (spec_rollback (own_lock (lock_of key cells) start_ts) (values_of key cells) key start_ts)
          h
          (spec_rollback-Fit (own_lock (lock_of key cells) start_ts) (values_of key cells) key
            start_ts hs))

  abbrev encode_outcomes : Outcomes → List (Option Error) × Batch
  encode_outcomes (errs, ops) = (errs, map encode_op ops)

  encode-add_outcome :
      (r : Result (List CellOp)) (o : Outcomes)
      → encode_outcomes (add_outcome r o) ≡ add_round e (encoded r) (encode_outcomes o)
  encode-add_outcome (err x) (errs, rest) = refl
  encode-add_outcome (ok ops) (errs, rest) =
      ap (λ b. (none ∷ errs, b)) (map-append encode_op ops rest)

  prewrite_all-cells :
      (db : e.Db) (cells : List Cell) (ms : List Mutation) (primary : Bytes) (start_ts ttl : ℕ)
      → Holds e db cells
      → prewrite_all e db ms primary start_ts ttl
        ≡ encode_outcomes (spec_prewrite_all cells ms primary start_ts ttl)
  unfolding prewrite_all spec_prewrite_all
  prewrite_all-cells db cells [] primary start_ts ttl h = refl
  prewrite_all-cells db cells (m ∷ ms) primary start_ts ttl h =
      ap (λ r. add_round e r (prewrite_all e db ms primary start_ts ttl))
        (prewrite_mutation-view db cells m start_ts primary ttl h)
      ∙ ap (add_round e _) (prewrite_all-cells db cells ms primary start_ts ttl h)
      ∙ sym (encode-add_outcome _ (spec_prewrite_all cells ms primary start_ts ttl))

  after_ok :
      (errs : List (Option Error)) (w : e.Db × Option Error)
      → w.1 ≡ none
      → after_prewrite e errs w ≡ (w.0, errs)
  after_ok errs (db, none) q = refl
  after_ok errs (db, some x) q = cc

  finish-PrewriteRefines :
      (db : e.Db) (cells : List Cell) (o : Outcomes)
      → Holds e db cells
      → All OpFits o.1
      → PrewriteRefines e db cells (write_locks e db (encode_outcomes o)) o
  finish-PrewriteRefines db cells (errs, ops) h f = elim (Bool-cases (any_error e errs)) [
    | inl t ↦ rw t (refl, refl)
    | inr u ↦
        rw
          (u, after_ok errs (e.write db (map encode_op ops)) (laws.write_ok db (map encode_op ops)))
          (refl, write-Holds e laws db cells ops h f)
  ]

  -- Prewrite judges each mutation by the lock and the values of its key before the call. If each
  -- succeeds it writes all the locks that are wanted; otherwise it writes nothing. It returns the
  -- outcome of each mutation. The mutations, the primary key, the start timestamp and the ttl can
  -- be stored. The engine keeps its laws, and the database holds cells that can be stored and read
  -- back.
  pub prewrite-PrewriteRefines :
      (db : e.Db) (cells : List Cell)
      → Holds e db cells
      → (mutations : List Mutation) (primary : Bytes) (start_ts ttl : ℕ)
      → All MutationFits mutations
      → PrewriteFits primary start_ts ttl
      → PrewriteRefines e db cells
          (prewrite e db mutations primary start_ts ttl)
          (spec_prewrite_all cells mutations primary start_ts ttl)
  unfolding prewrite
  prewrite-PrewriteRefines db cells h mutations primary start_ts ttl hm hp =
      let q : prewrite e db mutations primary start_ts ttl
          ≡ write_locks e db
              (encode_outcomes (spec_prewrite_all cells mutations primary start_ts ttl)) =
        ap (write_locks e db) (prewrite_all-cells db cells mutations primary start_ts ttl h) in
      rw q (
        finish-PrewriteRefines db cells (spec_prewrite_all cells mutations primary start_ts ttl) h
          (spec_prewrite_all-fit cells mutations primary start_ts ttl hm hp))

-- ===== src/Mvcc/Spec/Tests.antt =====
-- Commit, Rollback and Prewrite on a small database in memory, and what is read afterwards.
use mock_tikv.Mvcc.Cells.Keys.{keys_in, inside, scanned}
use mock_tikv.Mvcc.Cells.Listed.{InKeyOrder, IsOld, scan_lock-IsOld}
use mock_tikv.Mvcc.Spec.Resolve.{owned_keys, resolve_lock-commit}
use mock_tikv.Mvcc.Status.{LockInfo, scan_lock, resolve_lock}
use mathlib.Core.List.{Memᴰ}
use mock_tikv.Prelude.{
  List, ◌↔◌, ltb, if◌then◌else◌, ◌≡◌, ◌≢◌, ◌⊎◌, inr, refl, none, some, [], ◌∷◌, ◌++◌, arith, All,
}
use mock_tikv.Errors.{ok, err, retryable}
use mock_tikv.Entry.{si, tomb, lock_err}
use mock_tikv.Engine.Memory.{memory, memory-EngineLaws}
use mock_tikv.Mvcc.{get}
use mock_tikv.Mvcc.Write.{new_lock, prewrite, commit, rollback}
use mock_tikv.Mvcc.Cells.{value_cell, lock_of, values_of}
use mock_tikv.Mvcc.Cells.Read.{visible}
use mock_tikv.Mvcc.Cells.Change.{store, unlock}
use mock_tikv.Mvcc.Spec.{Refines, spec_commit_all, spec_rollback, spec_rollback_all}
use mock_tikv.Mvcc.Spec.Refine.{commit-Refines, rollback-Refines}
use mock_tikv.Mvcc.Spec.Commit.{owned}
use mock_tikv.Mvcc.Spec.Visible.{commit_elsewhere, commit_before, commit_after}
use mock_tikv.Mvcc.Spec.Rollback.{rollback_reads, rollback_blocks_prewrite}
use mock_tikv.Mvcc.Spec.Prewrite.{prewrite_blocks_read, prewrite_excludes}
use mock_tikv.Mvcc.Sample.{
  key_a, key_b, a_lock, cells, db, db-Holds, not_mem_b, put_b, put_a, put_b-MutationFits,
  put_a-MutationFits, at_25-PrewriteFits, at_26-PrewriteFits, values_a, succeeds, commits,
  not_newer, lock_b, owned_a, mem_a, no_record_a, free_b,
}

commit-Refines_example :
    Refines memory db cells
      (commit memory db (key_a ∷ []) 25 30)
      (spec_commit_all cells (key_a ∷ []) 25 30)
commit-Refines_example =
    commit-Refines memory memory-EngineLaws db cells db-Holds (key_a ∷ []) 25 30 (omega arith)
      (omega arith)

rollback-Refines_example :
    Refines memory db cells
      (rollback memory db (key_a ∷ key_b ∷ []) 25)
      (spec_rollback_all cells (key_a ∷ key_b ∷ []) 25)
rollback-Refines_example =
    rollback-Refines memory memory-EngineLaws db cells db-Holds (key_a ∷ key_b ∷ []) 25
      (omega arith)

commit_elsewhere_example :
    get memory (commit memory db (key_a ∷ []) 25 30).0 key_b 40 si ≡ get memory db key_b 40 si
commit_elsewhere_example =
    commit_elsewhere memory memory-EngineLaws db cells db-Holds (key_a ∷ []) 25 30 (omega arith)
      (omega arith) commits key_b 40 si not_mem_b

commit_before_example :
    get memory (commit memory db (key_a ∷ []) 25 30).0 key_a 20 si
    ≡ ok (visible 20 (values_of key_a cells))
commit_before_example =
    commit_before memory memory-EngineLaws db cells db-Holds (key_a ∷ []) 25 30 (omega arith)
      (omega arith) commits key_a a_lock mem_a owned_a (ground arith) 20 si (omega arith)

commit_after_example :
    get memory (commit memory db (key_a ∷ []) 25 30).0 key_a 40 si ≡ ok (some (3 ∷ []))
commit_after_example =
    commit_after memory memory-EngineLaws db cells db-Holds (key_a ∷ []) 25 30 (omega arith)
      (omega arith) commits key_a a_lock mem_a owned_a (ground arith) 40 si (omega arith) not_newer

spec_rolls_back :
    spec_rollback_all cells (key_a ∷ []) 25
    ≡ ok ((store (value_cell key_a (tomb 25)) ∷ unlock key_a ∷ []) ++ [])
unfolding spec_rollback_all spec_rollback
spec_rolls_back = rw owned_a refl

rolls_back : (rollback memory db (key_a ∷ []) 25).1 ≡ ok tt
rolls_back =
    succeeds _ _ _ spec_rolls_back
      (rollback-Refines memory memory-EngineLaws db cells db-Holds (key_a ∷ []) 25 (omega arith))

own_a : (lock_of key_a cells ≡ none) ⊎ (owned key_a cells 25 ≢ none)
own_a = inr (λ q. cc (q, owned_a))

other_version : All (λ v. v.commit_ts ≢ 25) (values_of key_a cells)
other_version = rw values_a (ground arith, tt)

rollback_reads_example :
    get memory (rollback memory db (key_a ∷ []) 25).0 key_a 40 si
    ≡ ok (visible 40 (values_of key_a cells))
rollback_reads_example =
    rollback_reads memory memory-EngineLaws db cells db-Holds (key_a ∷ []) 25 (omega arith)
      rolls_back key_a mem_a own_a no_record_a other_version 40 si

rollback_blocks_prewrite_example :
    prewrite memory (rollback memory db (key_a ∷ []) 25).0 (put_a ∷ []) key_a 25 3000
    ≡ ((rollback memory db (key_a ∷ []) 25).0, some (retryable "write conflict") ∷ [])
rollback_blocks_prewrite_example =
    rollback_blocks_prewrite memory memory-EngineLaws db cells db-Holds (key_a ∷ []) 25
      (omega arith) rolls_back put_a key_a 3000 mem_a own_a no_record_a put_a-MutationFits
      at_25-PrewriteFits

prewrite_blocks_read_example :
    get memory (prewrite memory db (put_b ∷ []) key_a 25 3000).0 key_b 40 si
    ≡ err (lock_err (new_lock put_b 25 key_a 3000) key_b)
prewrite_blocks_read_example =
    prewrite_blocks_read memory memory-EngineLaws db cells db-Holds put_b key_a 25 3000
      put_b-MutationFits at_25-PrewriteFits lock_b free_b (ground arith) 40 (omega arith)
      (ground arith)

prewrite_excludes_example :
    prewrite memory (prewrite memory db (put_b ∷ []) key_a 25 3000).0 (put_b ∷ []) key_b 26 3000 ≡ (
      (prewrite memory db (put_b ∷ []) key_a 25 3000).0,
      some (lock_err (new_lock put_b 25 key_a 3000) key_b) ∷ [],
    )
prewrite_excludes_example =
    prewrite_excludes memory memory-EngineLaws db cells db-Holds put_b key_a 25 3000
      put_b-MutationFits at_25-PrewriteFits lock_b free_b put_b key_b 26 3000 put_b-MutationFits
      at_26-PrewriteFits refl (ground arith)

resolve_lock-commit_example :
    resolve_lock memory db [] [] 25 30
    ≡ some (
        if ltb 0 30
        then commit memory db (owned_keys cells 25 (keys_in (inside (scanned [] []) cells))) 25 30
        else rollback memory db (owned_keys cells 25 (keys_in (inside (scanned [] []) cells))) 25)
resolve_lock-commit_example =
    resolve_lock-commit memory memory-EngineLaws db cells db-Holds 25 30 [] []

scan_lock-IsOld_example :
    (locks : List LockInfo) × (scan_lock memory db key_a [] 25 ≡ some (ok locks))
    × InKeyOrder locks
    × ((i : LockInfo) → Memᴰ i locks ↔ IsOld cells key_a [] 25 i)
scan_lock-IsOld_example = scan_lock-IsOld memory memory-EngineLaws db cells db-Holds key_a [] 25

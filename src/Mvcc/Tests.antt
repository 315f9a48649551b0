-- ===== src/Mvcc/Tests.antt =====
-- The operations of MVCCLevelDB on a small database in memory.
use mock_tikv.Prelude.{
  take, ◌≡◌, refl, false, none, some, List, [], ◌∷◌, arith, Bytes, if◌then◌else◌,
}
use mock_tikv.Bytes.{equal}
use mock_tikv.Mvcc.Scan.{scan}
use mock_tikv.Mvcc.Cells.Keys.{keys_in, inside, scanned}
use mock_tikv.Mvcc.Cells.Gets.{reads}
use mock_tikv.Mvcc.Cells.Scan.{scan-get}
use mock_tikv.Mvcc.Raw.{raw_get, raw_put, raw_delete, raw_batch_delete, raw_delete_range}
use mock_tikv.Mvcc.Raw.Laws.{raw_get-writes, within}
use mock_tikv.Mvcc.Cells.Effect.{mem_key}
use mock_tikv.Mvcc.Sample.{key_b}
use mock_tikv.Errors.{ok}
use mock_tikv.Entry.{si}
use mock_tikv.Engine.Memory.{memory, memory-EngineLaws}
use mock_tikv.Mvcc.{get}
use mock_tikv.Mvcc.Write.{own_lock, prewrite, cleanup}
use mock_tikv.Mvcc.Status.{check_txn_status, is_outdated}
use mock_tikv.Mvcc.Cells.{Cell, Holds, lock_of, values_of}
use mock_tikv.Mvcc.Cells.Read.{view_get, get-view}
use mock_tikv.Mvcc.Cells.Effect.{view_of}
use mock_tikv.Mvcc.Spec.{Refines, PrewriteRefines, spec_rollback, spec_prewrite_all}
use mock_tikv.Mvcc.Spec.Refine.{cleanup-Refines, prewrite-PrewriteRefines}
use mock_tikv.Mvcc.Spec.Check.{Does, spec_check, check_txn_status-Does, check_txn_status_live}
use mock_tikv.Mvcc.Sample.{
  key_a, a_lock, cells, db, db-Holds, put_b, put_a, put_b-MutationFits, put_a-MutationFits,
  at_25-PrewriteFits, lock_a,
}

get-view_example :
    get memory db key_a 20 si ≡ view_get (lock_of key_a cells) (values_of key_a cells) key_a 20 si
get-view_example = get-view memory memory-EngineLaws db cells db-Holds key_a 20 si

cleanup-Refines_example :
    Refines memory db cells
      (cleanup memory db key_a 25)
      (spec_rollback (own_lock (lock_of key_a cells) 25) (values_of key_a cells) key_a 25)
cleanup-Refines_example =
    cleanup-Refines memory memory-EngineLaws db cells db-Holds key_a 25 (omega arith)

prewrite-PrewriteRefines_example :
    PrewriteRefines memory db cells
      (prewrite memory db (put_a ∷ put_b ∷ []) key_a 25 3000)
      (spec_prewrite_all cells (put_a ∷ put_b ∷ []) key_a 25 3000)
prewrite-PrewriteRefines_example =
    prewrite-PrewriteRefines memory memory-EngineLaws db cells db-Holds (put_a ∷ put_b ∷ []) key_a
      25 3000 (put_a-MutationFits, (put_b-MutationFits, tt)) at_25-PrewriteFits

check_txn_status-Does_example :
    Does memory memory-EngineLaws cells
      (check_txn_status memory db key_a 25 30 40)
      (spec_check (own_lock (lock_of key_a cells) 25) (values_of key_a cells) key_a 25 40)
check_txn_status-Does_example =
    check_txn_status-Does memory memory-EngineLaws db cells db-Holds key_a 25 30 40 (omega arith)

lives : is_outdated a_lock 40 ≡ false
unfolding is_outdated mock_tikv.Mvcc.Status.extract_physical
lives = refl

check_txn_status_live_example :
    ((check_txn_status memory db key_a 25 30 40).1 ≡ ok (3000, 0))
    × ((cells' : List Cell) × Holds memory (check_txn_status memory db key_a 25 30 40).0 cells'
        × ((j : Bytes) → view_of j cells' ≡ view_of j cells))
check_txn_status_live_example =
    check_txn_status_live memory memory-EngineLaws db cells db-Holds key_a a_lock 30 40 lock_a
      (omega arith) lives

raw_get-writes_example :
    (raw_get memory (raw_put memory db key_a (7 ∷ [])) key_b
      ≡ (if equal key_a key_b then some (7 ∷ []) else raw_get memory db key_b))
    × (raw_get memory (raw_delete memory db key_a) key_b
        ≡ (if equal key_a key_b then none else raw_get memory db key_b))
    × (raw_get memory (raw_batch_delete memory db (key_a ∷ key_b ∷ [])) key_b
        ≡ (if mem_key key_b (key_a ∷ key_b ∷ []) then none else raw_get memory db key_b))
    × (raw_get memory (raw_delete_range memory db key_a (some key_b)) key_b
        ≡ (if within key_a (some key_b) key_b then none else raw_get memory db key_b))
raw_get-writes_example =
    raw_get-writes memory memory-EngineLaws db key_a (7 ∷ []) key_b (key_a ∷ key_b ∷ []) key_a
      (some key_b)

scan-get_example :
    scan memory db key_a [] 5 20 si
    ≡ some (take 5 (reads (λ k. get memory db k 20 si) (keys_in (inside (scanned key_a []) cells))))
scan-get_example = scan-get memory memory-EngineLaws db cells db-Holds key_a [] 5 20 si

-- ===== src/Mvcc/Cells/Resolve.antt =====
-- What ScanLock, ResolveLock and BatchResolveLock of server/mvcc_leveldb.go find and write.
use mock_tikv.Prelude.{
  ℕ, ◌≡◌, refl, ap, ◌∙◌, Bool, true, Option, none, some, List, [], ◌∷◌, map, Bytes, All, length,
  ◌+◌,
}
use mock_tikv.Errors.{Result, ok, err}
use mock_tikv.Marshal.{MvccLock}
use mock_tikv.Engine.{Iter, Engine, EngineLaws}
use mock_tikv.Mvcc.Write.{write_batch}
use mock_tikv.Mvcc.Status.{
  LockInfo, old_lock, scan_lock_loop, scan_lock, resolved, resolve_loop, resolve,
}
use mock_tikv.Mvcc.Fuel.Locks.{IsLockLoop, scan_lock_loop-IsLockLoop, resolve_loop-IsLockLoop}
use mock_tikv.Mvcc.Cells.{Cell, key_of, encode_cell, Holds, lock_of}
use mock_tikv.Mvcc.Cells.Keys.{keys_in, inside, scanned}
use mock_tikv.Mvcc.Cells.Range.{inside-fit, inside-InOrder, inside-passes, lock_of-inside}
use mock_tikv.Mvcc.Cells.Scan.{first_key, Entry-first_key, cells-InOrder, new_scan_iterator-cells}
use mock_tikv.Mvcc.Cells.Locks.{gather, Locked, lock_loop-cells}

locks_of-range :
    (cells : List Cell) (w : Bytes → Bool) (ds : List Cell)
    → All (λ d. w (key_of d) ≡ true) ds
    → Locked (λ k. lock_of k cells) (inside w cells) ds
locks_of-range cells w [] p = tt
locks_of-range cells w (d ∷ ds) p =
    (lock_of-inside w (key_of d) cells p.0, locks_of-range cells w ds p.1)

module _ (e : Engine) (laws : EngineLaws e) (db : e.Db) (cells : List Cell) (h : Holds e db cells)
    (start_key end_key : Bytes) where
  -- A loop over the locks of a range, as the operations begin it
  range_loop :
      {A : Type 0} (piece : Option MvccLock → Bytes → List A)
      (loop : ℕ → Iter → Bytes → Result (List A))
      → IsLockLoop piece loop
      → ((k : Bytes) → piece none k ≡ [])
      → loop
          (length (map encode_cell (inside (scanned start_key end_key) cells)) + 2)
          (map encode_cell (inside (scanned start_key end_key) cells), none)
          (first_key start_key (inside (scanned start_key end_key) cells))
        ≡ ok (
            gather
              (λ k. piece (lock_of k cells) k)
              (keys_in (inside (scanned start_key end_key) cells)))
  range_loop piece loop is_loop nothing =
      lock_loop-cells piece loop is_loop nothing (λ k. lock_of k cells)
        (first_key start_key (inside (scanned start_key end_key) cells))
        (inside (scanned start_key end_key) cells)
        (inside-fit (scanned start_key end_key) cells h.fit)
        (inside-InOrder (scanned start_key end_key) cells (cells-InOrder e laws db cells h))
        (Entry-first_key start_key end_key cells h.fit (cells-InOrder e laws db cells h))
        (locks_of-range cells (scanned start_key end_key) _
          (inside-passes (scanned start_key end_key) cells))

  -- ScanLock makes a list of the locks of each key.
  pub scan_lock-old_lock :
      (max_ts : ℕ)
      → scan_lock e db start_key end_key max_ts
        ≡ some (
            ok (
              gather
                (λ k. old_lock (lock_of k cells) max_ts k)
                (keys_in (inside (scanned start_key end_key) cells))))
  unfolding scan_lock
  scan_lock-old_lock max_ts =
      ap
        (λ r. elim r as (λ _. Option (Result (List LockInfo))) [
          | err x ↦ none
          | ok s ↦ some (scan_lock_loop (length s.0.0 + 2) max_ts s.0 s.1)
        ])
        (new_scan_iterator-cells e laws db cells h start_key end_key)
      ∙ ap some (
          range_loop (λ lock key. old_lock lock max_ts key)
            (λ n it key. scan_lock_loop n max_ts it key) (scan_lock_loop-IsLockLoop max_ts)
            (λ k. refl))

  pub resolve-resolved :
      (commit_of : ℕ → Option ℕ)
      → resolve e db start_key end_key commit_of
        ≡ some (
            write_batch e db (
              ok (
                gather
                  (λ k. resolved (lock_of k cells) k commit_of)
                  (keys_in (inside (scanned start_key end_key) cells)))))
  unfolding resolve
  resolve-resolved commit_of =
      ap
        (λ r. elim r as (λ _. Option (e.Db × Result (Unit {0}))) [
          | err x ↦ none
          | ok s ↦ some (write_batch e db (resolve_loop (length s.0.0 + 2) commit_of s.0 s.1))
        ])
        (new_scan_iterator-cells e laws db cells h start_key end_key)
      ∙ ap (λ r. some (write_batch e db r))
          (range_loop (λ lock key. resolved lock key commit_of)
            (λ n it key. resolve_loop n commit_of it key) (resolve_loop-IsLockLoop commit_of)
            (λ k. refl))

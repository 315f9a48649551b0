-- ===== src/Mvcc/Fuel/Locks.antt =====
-- The loops of ScanLock and ResolveLock end, as that of Scan does.
use mock_tikv.Prelude.{ℕ, suc, ◌≡◌, refl, Option, List, [], ◌∷◌, ◌++◌, Bytes}
use mock_tikv.Errors.{Error, Result, ok, ◌>>=◌}
use mock_tikv.Marshal.{MvccLock}
use mock_tikv.Engine.{Item, Iter}
use mock_tikv.Mvcc.{lock_decode, skip_decode}
use mock_tikv.Mvcc.Status.{old_lock, scan_lock_loop, resolved, resolve_loop}

-- A loop over the locks, as ScanLock and ResolveLock have it: what it makes of each lock comes before
-- the result of the later rounds.
pub record IsLockLoop {A : Type 0} (piece : Option MvccLock → Bytes → List A)
    (loop : ℕ → Iter → Bytes → Result (List A)) : Type 0 where
  pub at_end : (n : ℕ) (fault : Option Error) (key : Bytes) → loop (suc n) ([], fault) key ≡ ok []
  pub round :
      (n : ℕ) (x : Item) (rest : List Item) (fault : Option Error) (key : Bytes)
      → loop (suc n) (x ∷ rest, fault) key ≡ (
          lock_decode key (x ∷ rest, fault) >>= λ (lock, it).
          skip_decode key it >>= λ (there, next_key, next).
          loop n next next_key >>= λ a. ok (piece lock key ++ a))

pub scan_lock_loop-IsLockLoop :
    (max_ts : ℕ)
    → IsLockLoop (λ lock key. old_lock lock max_ts key) (λ n it key. scan_lock_loop n max_ts it key)
unfolding scan_lock_loop
scan_lock_loop-IsLockLoop max_ts = record {
  at_end = λ n fault key. refl;
  round = λ n x rest fault key. refl;
}

pub resolve_loop-IsLockLoop :
    (commit_of : ℕ → Option ℕ)
    → IsLockLoop
        (λ lock key. resolved lock key commit_of)
        (λ n it key. resolve_loop n commit_of it key)
unfolding resolve_loop
resolve_loop-IsLockLoop commit_of = record {
  at_end = λ n fault key. refl;
  round = λ n x rest fault key. refl;
}

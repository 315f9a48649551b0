-- ===== src/Mvcc/Fuel/Loops.antt =====
-- The loop of Scan ends: a round but the first uses up an item, so that the rounds that
-- the model allows are enough, and more would change nothing.
use mock_tikv.Prelude.{
  ℕ, zero, suc, ◌+◌, ◌≡◌, ◌≤◌, ◌<◌, inl, inr, refl, ap, Bool, true, false, List, ◌++◌, Bytes,
  length, ltb, if◌then◌else◌, arith,
}
use mock_tikv.Errors.{ok, err}
use mock_tikv.Entry.{IsolationLevel}
use mock_tikv.Engine.{Iter}
use mock_tikv.Mvcc.{Pair, skip_decode, value_of}
use mock_tikv.Mvcc.Scan.{scan_loop, found_pair}
use mock_tikv.Mvcc.Fuel.{
  Shrinks, At, Shrinks-le, value_of-Shrinks, Skipped, SkipResult, SkippedTo, skip_decode-Skipped,
}

-- An iterator that a skip leaves is not longer than before, and shorter if it was at the key.
pub further :
    (it it' : Iter) (curr_key next_key : Bytes) (next : Iter)
    → Shrinks it it'
    → Skipped curr_key it'.0 it'.1 true next_key next
    → At curr_key it
    → length next.0 < length it.0
further it it' curr_key next_key next (inl q) s at =
    let same : length it'.0 ≡ length it.0 = ap (λ (i : Iter). length i.0) q in
    omega (arith, same, s.onwards refl (rw q at))
further it it' curr_key next_key next (inr h) s at = omega (arith, h, s.no_longer)

module _ (limit start_ts : ℕ) (iso : IsolationLevel) where
  -- A round of Scan, if the later rounds agree
  scan_round :
      (n m : ℕ) (it : Iter) (key : Bytes) (pairs : List Pair)
      → ((next_key : Bytes) (next : Iter) (more : List Pair)
          → At next_key next
          → length next.0 ≤ length it.0
          → (At key it → length next.0 < length it.0)
          → scan_loop n limit start_ts iso next next_key more
            ≡ scan_loop m limit start_ts iso next next_key more)
      → scan_loop (suc n) limit start_ts iso it key pairs
        ≡ scan_loop (suc m) limit start_ts iso it key pairs
  unfolding scan_loop
  scan_round n m it key pairs same = full (ltb (length pairs) limit)
    where
      after : Iter
      after = (value_of it key start_ts iso).0

      more : List Pair
      more = pairs ++ found_pair key (value_of it key start_ts iso).1

      skip :
          (r : SkipResult)
          → SkippedTo key after.0 after.1 r
          → (elim r as (λ _. List Pair) [
            | err x ↦ more
            | ok s ↦ (if s.0 then scan_loop n limit start_ts iso s.2 s.1 more else more)
          ])
            ≡ (elim r as (λ _. List Pair) [
              | err x ↦ more
              | ok s ↦ (if s.0 then scan_loop m limit start_ts iso s.2 s.1 more else more)
            ])
      skip (err x) h = refl
      skip (ok (false, next_key, next)) h = refl
      skip (ok (true, next_key, next)) h =
          let shrinks : Shrinks it after = value_of-Shrinks it key start_ts iso in
          same next_key next more h.at_next
            (omega (arith, h.no_longer, Shrinks-le it after shrinks))
            (further it after key next_key next shrinks h)

      full :
          (b : Bool)
          → (if b
              then elim (skip_decode key after) as (λ _. List Pair) [
                | err x ↦ more
                | ok s ↦ (if s.0 then scan_loop n limit start_ts iso s.2 s.1 more else more)
              ]
              else pairs)
            ≡ (if b
                then elim (skip_decode key after) as (λ _. List Pair) [
                  | err x ↦ more
                  | ok s ↦ (if s.0 then scan_loop m limit start_ts iso s.2 s.1 more else more)
                ]
                else pairs)
      full false = refl
      full true = skip (skip_decode key after) (skip_decode-Skipped key after.0 after.1)

  scan_loop_later :
      (n m : ℕ) (it : Iter) (key : Bytes) (pairs : List Pair)
      → At key it
      → length it.0 < n
      → length it.0 < m
      → scan_loop n limit start_ts iso it key pairs ≡ scan_loop m limit start_ts iso it key pairs
  scan_loop_later zero m it key pairs at h k = absurd (omega (arith, h))
  scan_loop_later (suc n) zero it key pairs at h k = absurd (omega (arith, k))
  scan_loop_later (suc n) (suc m) it key pairs at h k =
      scan_round n m it key pairs (λ next_key next more there le less.
        scan_loop_later n m next next_key more there (omega (arith, less at, h))
          (omega (arith, less at, k)))

  -- The loop of Scan ends within two rounds more than the iterator has items: with so many rounds
  -- or any more its result is the same.
  pub scan_loop_enough :
      (n m : ℕ) (it : Iter) (key : Bytes) (pairs : List Pair)
      → length it.0 + 2 ≤ n
      → length it.0 + 2 ≤ m
      → scan_loop n limit start_ts iso it key pairs ≡ scan_loop m limit start_ts iso it key pairs
  scan_loop_enough zero m it key pairs h k = absurd (omega (arith, h))
  scan_loop_enough (suc n) zero it key pairs h k = absurd (omega (arith, k))
  scan_loop_enough (suc n) (suc m) it key pairs h k =
      scan_round n m it key pairs (λ next_key next more there le less.
        scan_loop_later n m next next_key more there (omega (arith, le, h)) (omega (arith, le, k)))

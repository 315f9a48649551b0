-- ===== src/Mvcc/Fuel.antt =====
-- What the decoders of server/mvcc_leveldb.go do to an iterator: it stays or moves on.
mod Tests
pub mod Loops
pub mod Locks
use mock_tikv.Prelude.{
  ℕ, zero, suc, ◌+◌, ◌≡◌, ◌≤◌, ◌<◌, ◌⊎◌, inl, inr, refl, sym, ap, ◌∙◌, Bool, true, false, not,
  Option, none, some, List, [], ◌∷◌, ◌++◌, Bytes, length, ltb, leb, ◌==◌, if◌then◌else◌, arith,
  Bool-cases,
}
use mock_tikv.Errors.{Error, Result, ok, err, ◌>>=◌, >>=-eq-ok, Result-cases}
use mock_tikv.Bytes.{equal}
use mock_tikv.Bytes.Order.{equal_iff}
use mock_tikv.Key.{mvcc_decode}
use mock_tikv.Marshal.{MvccLock, MvccValue, type_rollback, type_delete}
use mock_tikv.Entry.{IsolationLevel}
use mock_tikv.Engine.{Item, Iter, Batch, Engine}
use mock_tikv.Mvcc.{
  Pair, moved, lock_at, value_at, lock_decode, skip_items, skip_decode, value_loop, lock_ts,
  value_from, value_after, value_of,
}
use mock_tikv.Mvcc.Scan.{scan_loop, found_pair}
use mock_tikv.Mvcc.Status.{LockInfo, old_lock, scan_lock_loop, resolved, resolve_loop}

-- The iterator has stayed or moved on.
abbrev pub Shrinks : Iter → Iter → Type 0
Shrinks it it' = (it' ≡ it) ⊎ (length it'.0 < length it.0)

-- The iterator is at its end or at an item of the key.
abbrev pub At : Bytes → Iter → Type 0
At key ([], fault) = Unit
At key (x ∷ rest, fault) = (v : ℕ) × (mvcc_decode x.key ≡ ok (key, v))

pub Shrinks-le : (it it' : Iter) → Shrinks it it' → length it'.0 ≤ length it.0
Shrinks-le it it' (inl q) =
    let same : length it'.0 ≡ length it.0 = ap (λ (i : Iter). length i.0) q in omega (arith, same)
Shrinks-le it it' (inr h) = omega (arith, h)

Shrinks-trans : (a b c : Iter) → Shrinks a b → Shrinks b c → Shrinks a c
Shrinks-trans a b c (inl q) h = rw (← q) h
Shrinks-trans a b c (inr h) k = inr (omega (arith, h, Shrinks-le b c k))

pub lock_decode-Shrinks :
    (key : Bytes) (it it' : Iter) (lock : Option MvccLock)
    → ◌≡◌ {A = Result (Option MvccLock × Iter)} (lock_decode key it) (ok (lock, it'))
    → Shrinks it it'
unfolding lock_decode
lock_decode-Shrinks key ([], none) it' lock h = inl (sym (cc h))
lock_decode-Shrinks key ([], some e) it' lock h = cc h
lock_decode-Shrinks key (x ∷ rest, fault) it' lock h =
    let (r, q, k) = >>=-eq-ok (lock_at key x) _ h in moves r (cc k)
  where
    moves : (r : Option MvccLock) → moved r (x ∷ rest, fault) ≡ it' → Shrinks (x ∷ rest, fault) it'
    moves none q = inl (sym q)
    moves (some l) q = inr (rw (← q) (omega arith))

value_loop-le :
    (key : Bytes) (ts : ℕ) (items : List Item) (fault : Option Error)
    → Shrinks (items, fault) (value_loop key ts items fault).0
unfolding value_loop
value_loop-le key ts [] fault = inl refl
value_loop-le key ts (x ∷ rest) fault = go (value_at key x) (value_loop-le key ts rest fault)
  where
    less :
        Shrinks (rest, fault) (value_loop key ts rest fault).0
        → length (value_loop key ts rest fault).0.0 < suc (length rest)
    less h = omega (arith, Shrinks-le (rest, fault) (value_loop key ts rest fault).0 h)

    go :
        (r : Result (Option MvccValue))
        → Shrinks (rest, fault) (value_loop key ts rest fault).0
        → Shrinks
            (x ∷ rest, fault)
            (elim r as (λ _. Iter × Result (Option Bytes)) [
              | err e ↦ ((x ∷ rest, fault), err e)
              | ok none ↦ ((x ∷ rest, fault), ok none)
              | ok (some v) ↦
                  (if v.value_type == type_rollback
                    then value_loop key ts rest fault
                    else if leb v.commit_ts ts
                    then (
                      (rest, fault),
                      (if v.value_type == type_delete then ok none else ok (some v.value)),
                    )
                    else value_loop key ts rest fault)
            ]).0
    go (err e) h = inl refl
    go (ok none) h = inl refl
    go (ok (some v)) h = elim (Bool-cases (v.value_type == type_rollback)) [
      | inl t ↦ rw t (inr (less h))
      | inr u ↦ rw u (elim (Bool-cases (leb v.commit_ts ts)) [
        | inl t ↦ rw t (inr (omega arith))
        | inr w ↦ rw w (inr (less h))
      ])
    ]

value_from-Shrinks : (r : Result ℕ) (key : Bytes) (it : Iter) → Shrinks it (value_from r key it).0
unfolding value_from
value_from-Shrinks (err e) key it = inl refl
value_from-Shrinks (ok ts) key (items, fault) = value_loop-le key ts items fault

pub value_of-Shrinks :
    (it : Iter) (key : Bytes) (ts : ℕ) (iso : IsolationLevel)
    → Shrinks it (value_of it key ts iso).0
unfolding value_of value_after
value_of-Shrinks it key ts iso = go (lock_decode key it) refl
  where
    go :
        (r : Result (Option MvccLock × Iter))
        → lock_decode key it ≡ r
        → Shrinks it (value_after r it key ts iso).0
    go (err e) q = inl refl
    go (ok (lock, it')) q =
        Shrinks-trans it it' (value_from (lock_ts lock ts key iso) key it').0
          (lock_decode-Shrinks key it it' lock q)
          (value_from-Shrinks (lock_ts lock ts key iso) key it')

-- What skipDecoder leaves: an iterator at the key that it returns, further on if it was at the old one
pub record Skipped (curr_key : Bytes) (items : List Item) (fault : Option Error) (there : Bool)
    (next_key : Bytes) (it : Iter) : Type 0 where
  pub no_longer : length it.0 ≤ length items
  pub at_next : At next_key it
  pub ended : there ≡ false → length it.0 ≡ 0
  pub onwards : there ≡ true → At curr_key (items, fault) → length it.0 < length items

abbrev pub SkipResult : Type 0
SkipResult = Result (Bool × Bytes × Iter)

self_equal : (k : Bytes) → equal k k ≡ true
self_equal k = (equal_iff k k).1 refl

-- An item of another key
skip_here :
    (curr_key key : Bytes) (v : ℕ) (x : Item) (rest : List Item) (fault : Option Error)
    → mvcc_decode x.key ≡ ok (key, v)
    → equal key curr_key ≡ false
    → Skipped curr_key (x ∷ rest) fault true key (x ∷ rest, fault)
skip_here curr_key key v x rest fault q u = record {
  no_longer = omega arith;
  at_next = (v, q);
  ended = λ h. cc h;
  onwards = λ h (w, p).
      let same : key ≡ curr_key = cc (p, q) in
      let yes : equal key curr_key ≡ true = rw same (self_equal curr_key) in cc (yes, u);
}

-- Whatever is skipped after an item of the key
skip_past :
    (curr_key : Bytes) (x : Item) (rest : List Item) (fault : Option Error) (there : Bool)
    (next_key : Bytes) (it : Iter)
    → Skipped curr_key rest fault there next_key it
    → Skipped curr_key (x ∷ rest) fault there next_key it
skip_past curr_key x rest fault there next_key it s = record {
  no_longer = omega (arith, s.no_longer);
  at_next = s.at_next;
  ended = s.ended;
  onwards = λ h at. omega (arith, s.no_longer);
}

skip_end :
    (curr_key : Bytes) (fault : Option Error) → Skipped curr_key [] fault false curr_key ([], fault)
skip_end curr_key fault = record {
  no_longer = omega arith;
  at_next = tt;
  ended = λ h. refl;
  onwards = λ h at. cc h;
}

-- The result of skipDecoder is that of a skip, or an error.
abbrev pub SkippedTo : Bytes → List Item → Option Error → SkipResult → Type 0
SkippedTo curr_key items fault (err e) = Unit
SkippedTo curr_key items fault (ok (there, next_key, it)) =
    Skipped curr_key items fault there next_key it

past :
    (curr_key : Bytes) (x : Item) (rest : List Item) (fault : Option Error) (r : SkipResult)
    → SkippedTo curr_key rest fault r
    → SkippedTo curr_key (x ∷ rest) fault r
past curr_key x rest fault (err e) h = tt
past curr_key x rest fault (ok (there, next_key, it)) h =
    skip_past curr_key x rest fault there next_key it h

skip_items-Skipped :
    (curr_key : Bytes) (items : List Item) (fault : Option Error)
    → SkippedTo curr_key items fault (skip_items curr_key items fault)
unfolding skip_items
skip_items-Skipped curr_key [] fault = skip_end curr_key fault
skip_items-Skipped curr_key (x ∷ rest) fault =
    go (mvcc_decode x.key) refl (skip_items-Skipped curr_key rest fault)
  where
    go :
        (r : Result (Bytes × ℕ))
        → mvcc_decode x.key ≡ r
        → SkippedTo curr_key rest fault (skip_items curr_key rest fault)
        → SkippedTo curr_key (x ∷ rest) fault (
            r >>= λ (key, v).
            if not (equal key curr_key)
            then ok (true, key, (x ∷ rest, fault))
            else skip_items curr_key rest fault)
    go (err e) q ih = tt
    go (ok (key, v)) q ih = elim (Bool-cases (equal key curr_key)) [
      | inl t ↦ rw t (past curr_key x rest fault (skip_items curr_key rest fault) ih)
      | inr u ↦ rw u (skip_here curr_key key v x rest fault q u)
    ]

pub skip_decode-Skipped :
    (curr_key : Bytes) (items : List Item) (fault : Option Error)
    → SkippedTo curr_key items fault (skip_decode curr_key (items, fault))
unfolding skip_decode
skip_decode-Skipped curr_key [] none = skip_items-Skipped curr_key [] none
skip_decode-Skipped curr_key [] (some e) = tt
skip_decode-Skipped curr_key (x ∷ rest) fault = skip_items-Skipped curr_key (x ∷ rest) fault

-- ===== src/Mvcc/Cells/Listed.antt =====
-- Which locks ScanLock of server/mvcc_leveldb.go lists, and in which order.
use mathlib.Core.List.{Memᴰ}
use mathlib.Core.List.Memᴰ
use mathlib.Core.Path.{subst}
use mock_tikv.Prelude.{
  ℕ, Ordering, ◌≡◌, ◌≤◌, ◌↔◌, inl, inr, refl, sym, ap, ◌∙◌, Bool, true, Option, none, some, List,
  [], ◌∷◌, Bytes, All, leb, arith, Bool-cases, Option-cases,
}
use mock_tikv.Errors.{ok}
use mock_tikv.Bytes.{cmp}
use mock_tikv.Marshal.{MvccLock}
use mock_tikv.Engine.{Engine, EngineLaws}
use mock_tikv.Mvcc.Status.{LockInfo, old_lock, scan_lock}
use mock_tikv.Mvcc.Cells.{Cell, Holds, lock_of}
use mock_tikv.Mvcc.Cells.Keys.{keys_in, inside, scanned}
use mock_tikv.Mvcc.Cells.Range.{inside-InOrder, inside-passes, lock_of-inside}
use mock_tikv.Mvcc.Cells.Scan.{cells-InOrder}
use mock_tikv.Mvcc.Cells.Locks.{gather}
use mock_tikv.Mvcc.Cells.Resolve.{scan_lock-old_lock}
use mock_tikv.Mvcc.Cells.Upward.{KeysAbove, KeysUp, keys_in-KeysUp, locked_key_mem, keys_in-pass}

-- The locks are in the order of their keys, no key twice.
abbrev pub InKeyOrder : List LockInfo → Type 0
InKeyOrder [] = Unit
InKeyOrder (i ∷ is) = All (λ (j : LockInfo). cmp i.key j.key ≡ Ordering.lt) is × InKeyOrder is

All-mem : {A : Type 0} (P : A → Type 0) (xs : List A) (x : A) → All P xs → Memᴰ x xs → P x
All-mem P [] x a m = absurd (Memᴰ.not-nil m)
All-mem P (y ∷ ys) x a m = elim (Memᴰ.cases_cons m) [
  | inl e ↦ subst P (sym e) a.0
  | inr n ↦ All-mem P ys x a.1 n
]

gather-mem :
    {A : Type 0} (f : Bytes → List A) (k : Bytes) (ks : List Bytes) (x : A)
    → Memᴰ k ks
    → Memᴰ x (f k)
    → Memᴰ x (gather f ks)
gather-mem f k [] x m n = absurd (Memᴰ.not-nil m)
gather-mem f k (j ∷ js) x m n = elim (Memᴰ.cases_cons m) [
  | inl e ↦ Memᴰ.append_left (gather f js) (subst (λ i. Memᴰ x (f i)) e n)
  | inr m' ↦ Memᴰ.append_right (f j) (gather-mem f k js x m' n)
]

mem-gather :
    {A : Type 0} (f : Bytes → List A) (ks : List Bytes) (x : A)
    → Memᴰ x (gather f ks)
    → (k : Bytes) × Memᴰ k ks × Memᴰ x (f k)
mem-gather f [] x m = absurd (Memᴰ.not-nil m)
mem-gather f (j ∷ js) x m = elim (Memᴰ.append_cases (f j) m) [
  | inl n ↦ (j, Memᴰ.head refl, n)
  | inr m' ↦ let (k, n, p) = mem-gather f js x m' in (k, Memᴰ.tail n, p)
]

-- How ScanLock shows a lock
abbrev pub info : MvccLock → Bytes → LockInfo
info l k = record { primary_lock = l.primary; lock_version = l.start_ts; key = k }

old_lock-mem :
    (l : MvccLock) (max_ts : ℕ) (k : Bytes)
    → l.start_ts ≤ max_ts
    → Memᴰ (info l k) (old_lock (some l) max_ts k)
old_lock-mem l max_ts k h =
    let t : leb l.start_ts max_ts ≡ true = ground (arith, h) in rw t (Memᴰ.head refl)

mem-old_lock :
    (o : Option MvccLock) (max_ts : ℕ) (k : Bytes) (i : LockInfo)
    → Memᴰ i (old_lock o max_ts k)
    → (l : MvccLock) × (o ≡ some l) × (l.start_ts ≤ max_ts) × (i ≡ info l k)
mem-old_lock none max_ts k i m = absurd (Memᴰ.not-nil m)
mem-old_lock (some l) max_ts k i m = elim (Bool-cases (leb l.start_ts max_ts)) [
  | inr u ↦ absurd (Memᴰ.not-nil (rw u at m))
  | inl t ↦ elim (Memᴰ.cases_cons (rw t at m)) [
    | inl e ↦ (l, refl, ground (arith, t), e)
    | inr n ↦ absurd (Memᴰ.not-nil n)
  ]
]

-- The locks of keys that go upwards are in order.
old_locks_above :
    (cells : List Cell) (max_ts : ℕ) (k : Bytes) (ks : List Bytes)
    → KeysAbove k ks
    → All
        (λ (j : LockInfo). cmp k j.key ≡ Ordering.lt)
        (gather (λ k. old_lock (lock_of k cells) max_ts k) ks)
old_locks_above cells max_ts k [] a = tt
old_locks_above cells max_ts k (j ∷ js) a = elim (Option-cases (lock_of j cells)) [
  | inl q ↦ rw q (old_locks_above cells max_ts k js a.1)
  | inr (l, q) ↦ rw q (elim (Bool-cases (leb l.start_ts max_ts)) [
    | inl t ↦ rw t (a.0, old_locks_above cells max_ts k js a.1)
    | inr u ↦ rw u (old_locks_above cells max_ts k js a.1)
  ])
]

old_locks-InKeyOrder :
    (cells : List Cell) (max_ts : ℕ) (ks : List Bytes)
    → KeysUp ks
    → InKeyOrder (gather (λ k. old_lock (lock_of k cells) max_ts k) ks)
old_locks-InKeyOrder cells max_ts [] u = tt
old_locks-InKeyOrder cells max_ts (k ∷ ks) u = elim (Option-cases (lock_of k cells)) [
  | inl q ↦ rw q (old_locks-InKeyOrder cells max_ts ks u.1)
  | inr (l, q) ↦ rw q (elim (Bool-cases (leb l.start_ts max_ts)) [
    | inl t ↦ rw t (old_locks_above cells max_ts k ks u.0, old_locks-InKeyOrder cells max_ts ks u.1)
    | inr f ↦ rw f (old_locks-InKeyOrder cells max_ts ks u.1)
  ])
]

-- A lock of a key in the range, not newer than the timestamp
abbrev pub IsOld : List Cell → Bytes → Bytes → ℕ → LockInfo → Type 0
IsOld cells start_key end_key max_ts i =
    (l : MvccLock) × (lock_of i.key cells ≡ some l)
    × (scanned start_key end_key i.key ≡ true)
    × (l.start_ts ≤ max_ts)
    × (i ≡ info l i.key)

module _ (e : Engine) (laws : EngineLaws e) (db : e.Db) (cells : List Cell) (h : Holds e db cells)
    (start_key end_key : Bytes) (max_ts : ℕ) where
  listed :
      (i : LockInfo)
      → Memᴰ i (
          gather
            (λ k. old_lock (lock_of k cells) max_ts k)
            (keys_in (inside (scanned start_key end_key) cells)))
        ↔ IsOld cells start_key end_key max_ts i
  listed i = (there, back)
    where
      w : Bytes → Bool
      w = scanned start_key end_key

      there :
          Memᴰ i (gather (λ k. old_lock (lock_of k cells) max_ts k) (keys_in (inside w cells)))
          → IsOld cells start_key end_key max_ts i
      there m =
          let (k, n, p) =
            mem-gather (λ k. old_lock (lock_of k cells) max_ts k) (keys_in (inside w cells)) i m in
          let (l, q, le, same) = mem-old_lock (lock_of k cells) max_ts k i p in
          let key : i.key ≡ k = ap (λ (i : LockInfo). i.key) same in
          (
            l,
            ap (λ j. lock_of j cells) key ∙ q,
            ap w key
                ∙ All-mem (λ k. w k ≡ true) (keys_in (inside w cells)) k
                    (keys_in-pass w (inside w cells) (inside-passes w cells)) n,
            le,
            same ∙ ap (info l) (sym key),
          )

      back :
          IsOld cells start_key end_key max_ts i
          → Memᴰ i (gather (λ k. old_lock (lock_of k cells) max_ts k) (keys_in (inside w cells)))
      back (l, q, t, le, same) =
          gather-mem (λ k. old_lock (lock_of k cells) max_ts k) i.key (keys_in (inside w cells)) i
            (locked_key_mem i.key l (inside w cells) (lock_of-inside w i.key cells t ∙ q))
            (rw q (Memᴰ.cast same (old_lock-mem l max_ts i.key le)))

  -- ScanLock does not panic and has no error. A lock is in its list if and only if the database
  -- has it, its key is in the range, and its start timestamp is at most the given one; the list
  -- shows its primary key, its start timestamp and its key. The list is in the order of the keys,
  -- and no key is in it twice. The range is that of the keys from the start key on and below the
  -- end key, each of them if it is not empty. The engine keeps its laws, and the database holds
  -- cells that can be stored and read back.
  pub scan_lock-IsOld :
      (locks : List LockInfo) × (scan_lock e db start_key end_key max_ts ≡ some (ok locks))
      × InKeyOrder locks
      × ((i : LockInfo) → Memᴰ i locks ↔ IsOld cells start_key end_key max_ts i)
  scan_lock-IsOld = (
    gather (λ k. old_lock (lock_of k cells) max_ts k)
        (keys_in (inside (scanned start_key end_key) cells)),
    scan_lock-old_lock e laws db cells h start_key end_key max_ts,
    old_locks-InKeyOrder cells max_ts (keys_in (inside (scanned start_key end_key) cells)) (
        keys_in-KeysUp (inside (scanned start_key end_key) cells)
          (inside-InOrder (scanned start_key end_key) cells (cells-InOrder e laws db cells h))),
    listed,
  )

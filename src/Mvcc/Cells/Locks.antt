-- ===== src/Mvcc/Cells/Locks.antt =====
-- ScanLock and ResolveLock of server/mvcc_leveldb.go go through the locks of the keys of their range.
use mathlib.Core.Path.{subst}
use mock_tikv.Prelude.{
  ℕ, zero, suc, ◌≡◌, ◌<◌, inl, inr, refl, sym, ap, ◌∙◌, Bool, Option, none, List, [], ◌∷◌, ◌++◌,
  map, Bytes, All, length, ◌+◌, arith, Bool-cases,
}
use mock_tikv.Errors.{Result, ok, ◌>>=◌}
use mock_tikv.Bytes.{equal}
use mock_tikv.Bytes.Order.{equal_iff}
use mock_tikv.Marshal.{MvccLock}
use mock_tikv.Engine.{Iter}
use mock_tikv.Mvcc.{skip_decode}
use mock_tikv.Mvcc.Fuel.Locks.{IsLockLoop}
use mock_tikv.Mvcc.Cells.{Cell, key_of, encode_cell, CellFits, InOrder, lock_of, Beyond, Entry}
use mock_tikv.Mvcc.Cells.Read.{ne_of_lt, lock_of-Beyond, unlocked, unlocked-fit, lock_decode-cells}
use mock_tikv.Mvcc.Cells.Keys.{
  keys_in, behind, keys_in-behind, behind-fit, behind-InOrder, length-behind, Beyond-behind,
  behind-unlocked, lock_of-behind, Entry-first,
}
use mock_tikv.Mvcc.Cells.Next.{skipped, skip_decode-cells}
use mock_tikv.Mvcc.Cells.Gets.{behind_first}
use mock_tikv.Mvcc.Cells.Scan.{own_first, length-map}

-- What is made of each key, joined in the order of the keys
abbrev pub gather : {A : Type 0} → (Bytes → List A) → List Bytes → List A
gather f [] = []
gather f (k ∷ ks) = f k ++ gather f ks

abbrev pub Locked : (Bytes → Option MvccLock) → List Cell → List Cell → Type 0
Locked g cs ds = All (λ d. lock_of (key_of d) cs ≡ g (key_of d)) ds

Locked-rest :
    (g : Bytes → Option MvccLock) (k : Bytes) (cs ds : List Cell)
    → Locked g cs ds
    → Locked g cs (behind k ds)
unfolding behind
Locked-rest g k cs [] a = tt
Locked-rest g k cs (d ∷ ds) a = elim (Bool-cases (equal (key_of d) k)) [
  | inl t ↦ rw t (Locked-rest g k cs ds a.1)
  | inr u ↦ rw u a
]

Locked-behind :
    (g : Bytes → Option MvccLock) (k : Bytes) (cs ds : List Cell)
    → Beyond k ds
    → Locked g cs ds
    → Locked g (behind k cs) ds
Locked-behind g k cs [] b a = tt
Locked-behind g k cs (d ∷ ds) b a = (
  lock_of-behind (key_of d) k cs (ne_of_lt k (key_of d) b.0) ∙ a.0,
  Locked-behind g k cs ds b.1 a.1,
)

module _ {A : Type 0} (piece : Option MvccLock → Bytes → List A)
    (loop : ℕ → Iter → Bytes → Result (List A)) (is_loop : IsLockLoop piece loop)
    (nothing : (k : Bytes) → piece none k ≡ []) (g : Bytes → Option MvccLock) where
  first_piece :
      (c : Cell) (cs : List Cell)
      → lock_of (key_of c) (c ∷ cs) ≡ g (key_of c)
      → piece (lock_of (key_of c) (c ∷ cs)) (key_of c)
          ++ gather (λ k. piece (g k) k) (keys_in (behind (key_of c) (c ∷ cs)))
        ≡ gather (λ k. piece (g k) k) (keys_in (c ∷ cs))
  first_piece c cs a =
      ap
        (λ l.
          piece l (key_of c) ++ gather (λ k. piece (g k) k) (keys_in (behind (key_of c) (c ∷ cs))))
        a
      ∙ ap (λ r. piece (g (key_of c)) (key_of c) ++ gather (λ k. piece (g k) k) (keys_in r))
          (behind_first c cs)
      ∙ sym (ap (gather (λ k. piece (g k) k)) (keys_in-behind c cs))

  abbrev Claim : ℕ → Type 0
  Claim n =
      (k : Bytes) (cs : List Cell)
      → All CellFits cs
      → InOrder cs
      → Entry k cs
      → Locked g cs (behind k cs)
      → length (behind k cs) < n
      → loop (suc n) (map encode_cell cs, none) k
        ≡ ok (piece (lock_of k cs) k ++ gather (λ k. piece (g k) k) (keys_in (behind k cs)))

  abbrev Below : ℕ → Type 0
  Below zero = Unit
  Below (suc n) = Claim n

  next_lock :
      (n : ℕ) (k : Bytes) (l : Option MvccLock) (ds : List Cell)
      → Below n
      → All CellFits ds
      → InOrder ds
      → Locked g ds ds
      → length ds < n
      → (skipped k ds >>= λ (there, next_key, next).
          loop n next next_key >>= λ a. ok (piece l k ++ a))
        ≡ ok (piece l k ++ gather (λ k. piece (g k) k) (keys_in ds))
  unfolding keys_in
  next_lock zero k l ds ih h o a lt = absurd (omega (arith, lt))
  next_lock (suc n) k l [] ih h o a lt = rw (is_loop.at_end n none k) refl
  next_lock (suc n) k l (c ∷ cs) ih h o a lt =
      ap (λ (r : Result (List A)). r >>= λ a. ok (piece l k ++ a))
        (ih (key_of c) (c ∷ cs) h o (Entry-first c cs h.0 o)
          (Locked-rest g (key_of c) (c ∷ cs) (c ∷ cs) a)
          (rw (behind_first c cs) (omega (arith, lt, length-behind (key_of c) cs))))
      ∙ ap (λ xs. ok (piece l k ++ xs)) (first_piece c cs a.0)

  lock_round : (n : ℕ) → Below n → Claim n
  unfolding behind keys_in lock_of
  lock_round zero ih k cs h o e a lt = absurd (omega (arith, lt))
  lock_round (suc n) ih k [] h o e a lt = is_loop.at_end (suc n) none k ∙ rw (nothing k) refl
  lock_round (suc n) ih k (c ∷ cs) h o e a lt =
      is_loop.round (suc n) (encode_cell c) (map encode_cell cs) none k
      ∙ ap
          (λ (r : Result (Option MvccLock × Iter)). r >>= λ (lock, it).
            skip_decode k it >>= λ (there, next_key, next).
            loop (suc n) next next_key >>= λ a. ok (piece lock k ++ a))
          (lock_decode-cells k (c ∷ cs) h e)
      ∙ ap
          (λ (r : Result (Bool × Bytes × Iter)). r >>= λ (there, next_key, next).
            loop (suc n) next next_key >>= λ a. ok (piece (lock_of k (c ∷ cs)) k ++ a))
          (skip_decode-cells k (unlocked k (c ∷ cs)) (unlocked-fit k (c ∷ cs) h)
            ∙ ap (skipped k) (behind-unlocked k (c ∷ cs)))
      ∙ next_lock (suc n) k (lock_of k (c ∷ cs)) (behind k (c ∷ cs)) ih (behind-fit k (c ∷ cs) h)
          (behind-InOrder k (c ∷ cs) o)
          (Locked-behind g k (c ∷ cs) (behind k (c ∷ cs)) (Beyond-behind k (c ∷ cs) e) a) lt

  lock_loop-gather : (n : ℕ) → Claim n
  lock_loop-gather zero = lock_round zero tt
  lock_loop-gather (suc n) = lock_round (suc n) (lock_loop-gather n)

  opening_lock :
      (k : Bytes) (cs : List Cell)
      → Entry k cs
      → Locked g cs cs
      → piece (lock_of k cs) k ++ gather (λ k. piece (g k) k) (keys_in (behind k cs))
        ≡ gather (λ k. piece (g k) k) (keys_in cs)
  unfolding behind keys_in lock_of
  opening_lock k [] e a = rw (nothing k) refl
  opening_lock k (c ∷ cs) e a = elim (Bool-cases (equal (key_of c) k)) [
    | inl t ↦
        let same : key_of c ≡ k = (equal_iff (key_of c) k).0 t in
        subst
          (λ j.
            piece (lock_of j (c ∷ cs)) j
              ++ gather (λ k. piece (g k) k) (keys_in (behind j (c ∷ cs)))
            ≡ gather (λ k. piece (g k) k) (keys_in (c ∷ cs)))
          same (first_piece c cs a.0)
    | inr u ↦
        let stays : behind k (c ∷ cs) ≡ c ∷ cs = own_first k c cs u in
        let b : Beyond k (c ∷ cs) = rw stays at (Beyond-behind k (c ∷ cs) e) in
        ap (λ xs. xs ++ gather (λ k. piece (g k) k) (keys_in (behind k (c ∷ cs))))
          (ap (λ l. piece l k) (lock_of-Beyond k (c ∷ cs) b) ∙ nothing k)
        ∙ ap (λ ds. gather (λ k. piece (g k) k) (keys_in ds)) stays
  ]

  -- A loop over all locks of some cells
  pub lock_loop-cells :
      (k : Bytes) (cs : List Cell)
      → All CellFits cs
      → InOrder cs
      → Entry k cs
      → Locked g cs cs
      → loop (length (map encode_cell cs) + 2) (map encode_cell cs, none) k
        ≡ ok (gather (λ k. piece (g k) k) (keys_in cs))
  lock_loop-cells k cs h o e a =
      let q : length (map encode_cell cs) + 2 ≡ suc (suc (length cs)) =
        omega (arith, length-map cs) in
      ap (λ n. loop n (map encode_cell cs, none) k) q
      ∙ lock_loop-gather (suc (length cs)) k cs h o e (Locked-rest g k cs cs a)
          (omega (arith, length-behind k cs))
      ∙ ap ok (opening_lock k cs e a)

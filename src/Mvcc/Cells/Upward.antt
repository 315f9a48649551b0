-- ===== src/Mvcc/Cells/Upward.antt =====
-- The keys of cells in order go upwards, and a key with a lock is among them.
use mathlib.Core.List.{Memᴰ}
use mathlib.Core.List.Memᴰ
use mock_tikv.Prelude.{
  Ordering, ◌≡◌, inl, inr, refl, sym, Bool, true, false, some, List, [], ◌∷◌, Bytes, All,
  Bool-cases,
}
use mock_tikv.Bytes.{cmp, equal}
use mock_tikv.Bytes.Order.{equal_iff}
use mock_tikv.Marshal.{MvccLock}
use mock_tikv.Mvcc.Cells.{Cell, lock_cell, value_cell, key_of, AllAfter, InOrder, lock_of, Beyond}
use mock_tikv.Mvcc.Cells.Shape.{after_cases, Beyond-after}
use mock_tikv.Mvcc.Cells.Read.{eq_self}
use mock_tikv.Mvcc.Cells.Keys.{opens, keys_in}

-- Every key is above `k`, and the keys go upwards.
abbrev pub KeysAbove : Bytes → List Bytes → Type 0
KeysAbove k ks = All (λ j. cmp k j ≡ Ordering.lt) ks

abbrev pub KeysUp : List Bytes → Type 0
KeysUp [] = Unit
KeysUp (k ∷ ks) = KeysAbove k ks × KeysUp ks

Beyond-KeysAbove : (k : Bytes) (cs : List Cell) → Beyond k cs → KeysAbove k (keys_in cs)
unfolding keys_in
Beyond-KeysAbove k [] b = tt
Beyond-KeysAbove k (c ∷ cs) b = elim (Bool-cases (opens (key_of c) cs)) [
  | inl t ↦ rw t (Beyond-KeysAbove k cs b.1)
  | inr u ↦ rw u (b.0, Beyond-KeysAbove k cs b.1)
]

-- If the next cell is of another key, all later keys are above.
next-Beyond :
    (c : Cell) (cs : List Cell)
    → AllAfter c cs
    → InOrder cs
    → opens (key_of c) cs ≡ false
    → Beyond (key_of c) cs
next-Beyond c [] a o u = tt
next-Beyond c (d ∷ ds) a o u = elim (after_cases c d a.0) [
  | inl lt ↦ (lt, Beyond-after (key_of c) d ds lt o.0)
  | inr (same, lower) ↦ cc (u, eq_self (key_of c) (key_of d) same)
]

pub keys_in-KeysUp : (cs : List Cell) → InOrder cs → KeysUp (keys_in cs)
unfolding keys_in
keys_in-KeysUp [] o = tt
keys_in-KeysUp (c ∷ cs) o = elim (Bool-cases (opens (key_of c) cs)) [
  | inl t ↦ rw t (keys_in-KeysUp cs o.1)
  | inr u ↦
      rw u (Beyond-KeysAbove (key_of c) cs (next-Beyond c cs o.0 o.1 u), keys_in-KeysUp cs o.1)
]

-- A key with a lock is among the keys.
first_key_mem : (c : Cell) (cs : List Cell) → Memᴰ (key_of c) (keys_in (c ∷ cs))
unfolding keys_in
first_key_mem c [] = Memᴰ.head refl
first_key_mem c (d ∷ ds) = elim (Bool-cases (equal (key_of d) (key_of c))) [
  | inl t ↦ rw t (Memᴰ.cast (sym ((equal_iff (key_of d) (key_of c)).0 t)) (first_key_mem d ds))
  | inr u ↦ rw u (Memᴰ.head refl)
]

later_key_mem :
    (k : Bytes) (c : Cell) (cs : List Cell) → Memᴰ k (keys_in cs) → Memᴰ k (keys_in (c ∷ cs))
unfolding keys_in
later_key_mem k c cs m = elim (Bool-cases (opens (key_of c) cs)) [
  | inl t ↦ rw t m
  | inr u ↦ rw u (Memᴰ.tail m)
]

pub locked_key_mem :
    (k : Bytes) (l : MvccLock) (cs : List Cell) → lock_of k cs ≡ some l → Memᴰ k (keys_in cs)
unfolding lock_of
locked_key_mem k l [] h = cc h
locked_key_mem k l (lock_cell j w ∷ cs) h = elim (Bool-cases (equal j k)) [
  | inl t ↦ Memᴰ.cast (sym ((equal_iff j k).0 t)) (first_key_mem (lock_cell j w) cs)
  | inr u ↦ later_key_mem k (lock_cell j w) cs (locked_key_mem k l cs (rw u at h))
]
locked_key_mem k l (value_cell j w ∷ cs) h =
    later_key_mem k (value_cell j w) cs (locked_key_mem k l cs h)

pub keys_in-pass :
    (w : Bytes → Bool) (cs : List Cell)
    → All (λ c. w (key_of c) ≡ true) cs
    → All (λ k. w k ≡ true) (keys_in cs)
unfolding keys_in
keys_in-pass w [] p = tt
keys_in-pass w (c ∷ cs) p = elim (Bool-cases (opens (key_of c) cs)) [
  | inl t ↦ rw t (keys_in-pass w cs p.1)
  | inr u ↦ rw u (p.0, keys_in-pass w cs p.1)
]

-- ===== src/Mvcc/Cells/Keys.antt =====
-- The keys of a database in order, and the cells of a range of keys, as the scans of
-- server/mvcc_leveldb.go go through them.
use mock_tikv.Prelude.{
  ◌≡◌, ◌≤◌, inl, inr, refl, sym, ap, ◌∙◌, Bool, true, false, List, [], ◌∷◌, Bytes, All, length,
  if◌then◌else◌, ◌&&◌, is_empty, arith, Bool-cases,
}
use mock_tikv.Bytes.{equal, less, less_eq}
use mock_tikv.Bytes.Order.{equal_iff}
use mock_tikv.Mvcc.Cells.{
  Cell, lock_cell, value_cell, key_of, CellFits, InOrder, lock_of, values_of, Beyond, Values, Entry,
}
use mock_tikv.Mvcc.Cells.Shape.{Values-after, ver-le}
use mock_tikv.Mvcc.Cells.Read.{ne_of_lt, eq_self, unlocked}

-- Whether the first cell is one of the key
abbrev pub opens : Bytes → List Cell → Bool
opens k [] = false
opens k (c ∷ cs) = equal (key_of c) k

-- The keys of the cells, each once if the cells are in order
unfoldable pub keys_in : List Cell → List Bytes
keys_in [] = []
keys_in (c ∷ cs) = let rest = keys_in cs in if opens (key_of c) cs then rest else key_of c ∷ rest

-- The cells behind those of a key
unfoldable pub behind : Bytes → List Cell → List Cell
behind k [] = []
behind k (c ∷ cs) = let rest = behind k cs in if equal (key_of c) k then rest else c ∷ cs

-- The cells whose key passes a test
unfoldable pub inside : (Bytes → Bool) → List Cell → List Cell
inside w [] = []
inside w (c ∷ cs) = let rest = inside w cs in if w (key_of c) then c ∷ rest else rest

-- The range of a scan: from the start key on, and below the end key, where they are given
abbrev pub scanned : Bytes → Bytes → Bytes → Bool
scanned start_key end_key k =
    (if is_empty start_key then true else less_eq start_key k)
    && (if is_empty end_key then true else less k end_key)

pub keys_in-behind :
    (c : Cell) (cs : List Cell) → keys_in (c ∷ cs) ≡ key_of c ∷ keys_in (behind (key_of c) cs)
unfolding keys_in behind
keys_in-behind c [] = refl
keys_in-behind c (d ∷ ds) = elim (Bool-cases (equal (key_of d) (key_of c))) [
  | inr u ↦ rw u refl
  | inl t ↦
      let same : key_of d ≡ key_of c = (equal_iff (key_of d) (key_of c)).0 t in
      rw t (keys_in-behind d ds ∙ ap (λ k. k ∷ keys_in (behind k ds)) same)
]

pub behind-fit : (k : Bytes) (cs : List Cell) → All CellFits cs → All CellFits (behind k cs)
unfolding behind
behind-fit k [] h = tt
behind-fit k (c ∷ cs) h = elim (Bool-cases (equal (key_of c) k)) [
  | inl t ↦ rw t (behind-fit k cs h.1)
  | inr u ↦ rw u h
]

pub behind-InOrder : (k : Bytes) (cs : List Cell) → InOrder cs → InOrder (behind k cs)
unfolding behind
behind-InOrder k [] h = tt
behind-InOrder k (c ∷ cs) h = elim (Bool-cases (equal (key_of c) k)) [
  | inl t ↦ rw t (behind-InOrder k cs h.1)
  | inr u ↦ rw u h
]

pub length-behind : (k : Bytes) (cs : List Cell) → length (behind k cs) ≤ length cs
unfolding behind
length-behind k [] = omega arith
length-behind k (c ∷ cs) = elim (Bool-cases (equal (key_of c) k)) [
  | inl t ↦ rw t (omega (arith, length-behind k cs))
  | inr u ↦ rw u (omega arith)
]

behind-Beyond : (k : Bytes) (cs : List Cell) → Beyond k cs → behind k cs ≡ cs
unfolding behind
behind-Beyond k [] b = refl
behind-Beyond k (c ∷ cs) b = rw (ne_of_lt k (key_of c) b.0) refl

-- Behind the cells of a key in its entry, all keys are above it.
Values-Beyond : (k : Bytes) (cs : List Cell) → Values k cs → Beyond k (behind k cs)
unfolding behind
Values-Beyond k [] v = tt
Values-Beyond k (lock_cell j l ∷ cs) b = rw (ne_of_lt k j b.0) b
Values-Beyond k (value_cell j w ∷ cs) (inl (e, v)) = rw (eq_self k j e) (Values-Beyond k cs v)
Values-Beyond k (value_cell j w ∷ cs) (inr b) = rw (ne_of_lt k j b.0) b

pub Beyond-behind : (k : Bytes) (cs : List Cell) → Entry k cs → Beyond k (behind k cs)
unfolding behind
Beyond-behind k [] e = tt
Beyond-behind k (lock_cell j l ∷ cs) (inl (e, v)) = rw (eq_self k j e) (Values-Beyond k cs v)
Beyond-behind k (lock_cell j l ∷ cs) (inr b) = rw (ne_of_lt k j b.0) b
Beyond-behind k (value_cell j w ∷ cs) e = Values-Beyond k (value_cell j w ∷ cs) e

pub behind-unlocked : (k : Bytes) (cs : List Cell) → behind k (unlocked k cs) ≡ behind k cs
unfolding behind unlocked
behind-unlocked k [] = refl
behind-unlocked k (lock_cell j l ∷ cs) = elim (Bool-cases (equal j k)) [
  | inl t ↦ rw t refl
  | inr u ↦ rw u (rw u refl)
]
behind-unlocked k (value_cell j v ∷ cs) = refl

-- The cells of one key are nothing to the lock and the values of another.
other : (j k : Bytes) (i : Bytes) → equal j k ≡ false → equal i k ≡ true → equal i j ≡ false
other j k i u t = elim (Bool-cases (equal i j)) [
  | inr f ↦ f
  | inl s ↦
      let p : i ≡ j = (equal_iff i j).0 s in
      let q : i ≡ k = (equal_iff i k).0 t in cc (u, (equal_iff j k).1 (sym p ∙ q))
]

pub lock_of-behind :
    (j k : Bytes) (cs : List Cell) → equal j k ≡ false → lock_of j (behind k cs) ≡ lock_of j cs
unfolding behind lock_of
lock_of-behind j k [] u = refl
lock_of-behind j k (lock_cell i l ∷ cs) u = elim (Bool-cases (equal i k)) [
  | inl t ↦ rw (t, other j k i u t) (lock_of-behind j k cs u)
  | inr f ↦ rw f refl
]
lock_of-behind j k (value_cell i v ∷ cs) u = elim (Bool-cases (equal i k)) [
  | inl t ↦ rw t (lock_of-behind j k cs u)
  | inr f ↦ rw f refl
]

pub values_of-behind :
    (j k : Bytes) (cs : List Cell) → equal j k ≡ false → values_of j (behind k cs) ≡ values_of j cs
unfolding behind values_of
values_of-behind j k [] u = refl
values_of-behind j k (lock_cell i l ∷ cs) u = elim (Bool-cases (equal i k)) [
  | inl t ↦ rw t (values_of-behind j k cs u)
  | inr f ↦ rw f refl
]
values_of-behind j k (value_cell i v ∷ cs) u = elim (Bool-cases (equal i k)) [
  | inl t ↦ rw (t, other j k i u t) (values_of-behind j k cs u)
  | inr f ↦ rw f refl
]

-- The first cell begins the entry of its key.
pub Entry-first :
    (c : Cell) (cs : List Cell) → CellFits c → InOrder (c ∷ cs) → Entry (key_of c) (c ∷ cs)
Entry-first (lock_cell j l) cs h o =
    inl (refl, Values-after j (lock_cell j l) cs refl (ver-le (lock_cell j l) h) o.0 o.1)
Entry-first (value_cell j v) cs h o =
    inl (refl, Values-after j (value_cell j v) cs refl (ver-le (value_cell j v) h) o.0 o.1)

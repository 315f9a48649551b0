-- ===== src/Mvcc/Cells/Gets.antt =====
-- Scan of server/mvcc_leveldb.go as a sequence of Gets: its loop goes from key to key, and reads each
-- as Get does.
use mock_tikv.Prelude.{
  ℕ, zero, suc, ◌≡◌, ◌≤◌, inl, inr, refl, sym, ap, ◌∙◌, Bool, true, false, Option, none, some, List,
  [], ◌∷◌, ◌++◌, append-nil, append_assoc, map, Bytes, All, length, ltb, take, if◌then◌else◌, arith,
  Bool-cases, ◌+◌, length-append,
}
use mock_tikv.Errors.{Result, ok, err}
use mock_tikv.Bytes.{equal}
use mock_tikv.Entry.{IsolationLevel}
use mock_tikv.Engine.{Iter}
use mock_tikv.Mvcc.{Pair, skip_decode, value_of}
use mock_tikv.Mvcc.Scan.{found_pair, scan_loop}
use mock_tikv.Mvcc.Cells.{
  Cell, key_of, encode_cell, CellFits, InOrder, lock_of, values_of, Beyond, Entry,
}
use mock_tikv.Mvcc.Cells.Read.{eq_self, ne_of_lt, value_of-cells, view_get}
use mock_tikv.Mvcc.Cells.Keys.{
  keys_in, behind, keys_in-behind, behind-fit, behind-InOrder, length-behind, Beyond-behind,
  lock_of-behind, values_of-behind, Entry-first,
}
use mock_tikv.Mvcc.Cells.Next.{Left, value_of-Left, skipped, skip_decode-cells}

-- The pairs of reads of keys, in their order: a value, or an error; nothing for a key without a value.
abbrev pub reads : (Bytes → Result (Option Bytes)) → List Bytes → List Pair
reads g [] = []
reads g (k ∷ ks) = found_pair k (g k) ++ reads g ks

-- Pairs are appended as long as there is room.
unfoldable pub up_to : ℕ → List Pair → List Pair → List Pair
up_to limit pairs [] = pairs
up_to limit pairs (p ∷ ps) =
    let rest = up_to limit (pairs ++ p ∷ []) ps in if ltb (length pairs) limit then rest else pairs

pub up_to-take :
    (limit n : ℕ) (pairs ps : List Pair)
    → length pairs + n ≡ limit
    → up_to limit pairs ps ≡ pairs ++ take n ps
unfolding up_to
up_to-take limit zero pairs [] h = sym (append-nil pairs)
up_to-take limit (suc n) pairs [] h = sym (append-nil pairs)
up_to-take limit zero pairs (p ∷ ps) h =
    let full : ltb (length pairs) limit ≡ false = ground arith in rw full (sym (append-nil pairs))
up_to-take limit (suc n) pairs (p ∷ ps) h =
    let room : ltb (length pairs) limit ≡ true = ground arith in
    rw room (
      up_to-take limit n (pairs ++ p ∷ []) ps (omega (arith, h, length-append pairs (p ∷ [])))
      ∙ append_assoc pairs (p ∷ []) (take n ps))

up_to_full :
    (limit : ℕ) (pairs ps : List Pair)
    → ltb (length pairs) limit ≡ false
    → up_to limit pairs ps ≡ pairs
unfolding up_to
up_to_full limit pairs [] h = refl
up_to_full limit pairs (p ∷ ps) h = rw h refl

up_to-found_pair :
    (limit : ℕ) (pairs rest : List Pair) (k : Bytes) (r : Result (Option Bytes))
    → ltb (length pairs) limit ≡ true
    → up_to limit (pairs ++ found_pair k r) rest ≡ up_to limit pairs (found_pair k r ++ rest)
unfolding up_to
up_to-found_pair limit pairs rest k (ok none) h = rw (append-nil pairs) refl
up_to-found_pair limit pairs rest k (ok (some v)) h = rw h refl
up_to-found_pair limit pairs rest k (err x) h = rw h refl

-- What a read of a key makes of the cells, and that it is what `g` says of the keys
abbrev pub seen : ℕ → IsolationLevel → List Cell → Bytes → Result (Option Bytes)
seen ts iso cs k = view_get (lock_of k cs) (values_of k cs) k ts iso

abbrev pub Agree :
    ℕ → IsolationLevel → (Bytes → Result (Option Bytes)) → List Cell → List Cell → Type 0
Agree ts iso g cs [] = Unit
Agree ts iso g cs (d ∷ ds) = (seen ts iso cs (key_of d) ≡ g (key_of d)) × Agree ts iso g cs ds

pub behind_first : (c : Cell) (cs : List Cell) → behind (key_of c) (c ∷ cs) ≡ behind (key_of c) cs
unfolding behind
behind_first c cs = rw (eq_self (key_of c) (key_of c) refl) refl

module _ (limit ts : ℕ) (iso : IsolationLevel) (g : Bytes → Result (Option Bytes)) where
  pub Agree-rest :
      (k : Bytes) (cs ds : List Cell) → Agree ts iso g cs ds → Agree ts iso g cs (behind k ds)
  unfolding behind
  Agree-rest k cs [] a = tt
  Agree-rest k cs (d ∷ ds) a = elim (Bool-cases (equal (key_of d) k)) [
    | inl t ↦ rw t (Agree-rest k cs ds a.1)
    | inr u ↦ rw u a
  ]

  Agree-behind :
      (k : Bytes) (cs ds : List Cell)
      → Beyond k ds
      → Agree ts iso g cs ds
      → Agree ts iso g (behind k cs) ds
  Agree-behind k cs [] b a = tt
  Agree-behind k cs (d ∷ ds) b a =
      let u : equal (key_of d) k ≡ false = ne_of_lt k (key_of d) b.0 in
      (
        rw (lock_of-behind (key_of d) k cs u, values_of-behind (key_of d) k cs u) a.0,
        Agree-behind k cs ds b.1 a.1,
      )

  -- The read of the first key, and those of the rest
  pub reads_first :
      (c : Cell) (cs : List Cell)
      → seen ts iso (c ∷ cs) (key_of c) ≡ g (key_of c)
      → found_pair (key_of c) (seen ts iso (c ∷ cs) (key_of c))
          ++ reads g (keys_in (behind (key_of c) (c ∷ cs)))
        ≡ reads g (keys_in (c ∷ cs))
  reads_first c cs a = rw a (
      ap (λ r. found_pair (key_of c) (g (key_of c)) ++ reads g (keys_in r)) (behind_first c cs)
      ∙ sym (ap (reads g) (keys_in-behind c cs)))

  abbrev pub Claim : ℕ → Type 0
  Claim n =
      (k : Bytes) (cs : List Cell) (pairs : List Pair)
      → All CellFits cs
      → InOrder cs
      → Entry k cs
      → Agree ts iso g cs (behind k cs)
      → length (behind k cs) ≤ n
      → scan_loop (suc n) limit ts iso (map encode_cell cs, none) k pairs
        ≡ up_to limit pairs (found_pair k (seen ts iso cs k) ++ reads g (keys_in (behind k cs)))

  abbrev Below : ℕ → Type 0
  Below zero = Unit
  Below (suc n) = Claim n

  next_key :
      (n : ℕ) (k : Bytes) (r : Result (Option Bytes)) (pairs : List Pair) (ds : List Cell)
      → Below n
      → ltb (length pairs) limit ≡ true
      → All CellFits ds
      → InOrder ds
      → Agree ts iso g ds ds
      → length ds ≤ n
      → (elim (skipped k ds) as (λ _. List Pair) [
        | err x ↦ pairs ++ found_pair k r
        | ok s ↦
            (if s.0
              then scan_loop n limit ts iso s.2 s.1 (pairs ++ found_pair k r)
              else pairs ++ found_pair k r)
      ])
        ≡ up_to limit pairs (found_pair k r ++ reads g (keys_in ds))
  unfolding up_to keys_in
  next_key n k r pairs [] ih t h o a l = up_to-found_pair limit pairs [] k r t
  next_key zero k r pairs (c ∷ cs) ih t h o a l = absurd (omega (arith, l))
  next_key (suc n) k r pairs (c ∷ cs) ih t h o a l =
      ih (key_of c) (c ∷ cs) (pairs ++ found_pair k r) h o (Entry-first c cs h.0 o)
        (Agree-rest (key_of c) (c ∷ cs) (c ∷ cs) a)
        (rw (behind_first c cs) (omega (arith, l, length-behind (key_of c) cs)))
      ∙ ap (up_to limit (pairs ++ found_pair k r)) (reads_first c cs a.0)
      ∙ up_to-found_pair limit pairs (reads g (keys_in (c ∷ cs))) k r t

  -- What a round of the loop makes of a skip and a read
  abbrev rounded :
      ℕ → Bytes → List Pair → Result (Bool × Bytes × Iter) → Result (Option Bytes) → List Pair
  rounded n k pairs stop r = elim stop [
    | err x ↦ pairs ++ found_pair k r
    | ok s ↦
        (if s.0
          then scan_loop n limit ts iso s.2 s.1 (pairs ++ found_pair k r)
          else pairs ++ found_pair k r)
  ]

  scan_round : (n : ℕ) → Below n → Claim n
  unfolding scan_loop
  scan_round n ih k cs pairs h o e a l = elim (Bool-cases (ltb (length pairs) limit)) [
    | inr u ↦ rw u (sym (up_to_full limit pairs _ u))
    | inl t ↦
        let left : Left k cs (value_of (map encode_cell cs, none) k ts iso).0 =
          value_of-Left k ts iso cs h e in
        rw t (
          ap (rounded n k pairs (skip_decode k (value_of (map encode_cell cs, none) k ts iso).0))
            (value_of-cells cs k ts iso h e)
          ∙ ap (λ it. rounded n k pairs (skip_decode k it) (seen ts iso cs k)) left.shown
          ∙ ap (λ stop. rounded n k pairs stop (seen ts iso cs k))
              (skip_decode-cells k left.cells left.fit ∙ ap (skipped k) left.same)
          ∙ next_key n k (seen ts iso cs k) pairs (behind k cs) ih t (behind-fit k cs h)
              (behind-InOrder k cs o) (Agree-behind k cs (behind k cs) (Beyond-behind k cs e) a) l)
  ]

  pub scan_loop-reads : (n : ℕ) → Claim n
  scan_loop-reads zero = scan_round zero tt
  scan_loop-reads (suc n) = scan_round (suc n) (scan_loop-reads n)

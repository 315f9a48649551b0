-- ===== src/Mvcc/Cells/Next.antt =====
-- How the decoders of server/mvcc_leveldb.go go from the entry of a key to the next key.
use mock_tikv.Prelude.{
  ℕ, ◌≡◌, inl, inr, refl, ◌∙◌, Bool, true, false, none, some, List, [], ◌∷◌, map, Bytes, All,
  if◌then◌else◌, Bool-cases, ◌==◌, leb,
}
use mock_tikv.Errors.{Result, ok, err}
use mock_tikv.Bytes.{equal}
use mock_tikv.Marshal.{type_rollback, type_delete}
use mock_tikv.Entry.{IsolationLevel}
use mock_tikv.Engine.{Iter}
use mock_tikv.Mvcc.{skip_items, skip_decode, value_loop, value_from, value_after, value_of, lock_ts}
use mock_tikv.Mvcc.Cells.{
  Cell, lock_cell, value_cell, key_of, encode_cell, CellFits, lock_of, Entry,
}
use mock_tikv.Mvcc.Cells.Read.{
  decode_key, value_at-lock_cell, value_at-value_cell, unlocked, unlocked-fit, lock_decode-cells,
}
use mock_tikv.Mvcc.Cells.Keys.{behind, behind-unlocked}

-- The iterator that a read leaves: some cells of the key are gone, and what is behind them is there.
pub record Left (k : Bytes) (cs : List Cell) (it : Iter) : Type 0 where
  pub cells : List Cell
  pub shown : it ≡ (map encode_cell cells, none)
  pub same : behind k cells ≡ behind k cs
  pub fit : All CellFits cells

value_loop-Left :
    (k : Bytes) (ts : ℕ) (cs : List Cell)
    → All CellFits cs
    → Left k cs (value_loop k ts (map encode_cell cs) none).0
unfolding value_loop behind
value_loop-Left k ts [] h = record { cells = []; shown = refl; same = refl; fit = tt }
value_loop-Left k ts (lock_cell j l ∷ cs) h =
    rw (value_at-lock_cell k j l h.0, value_loop)
      (record { cells = lock_cell j l ∷ cs; shown = refl; same = refl; fit = h })
value_loop-Left k ts (value_cell j w ∷ cs) h = elim (Bool-cases (equal j k)) [
  | inr u ↦
      rw (value_at-value_cell k j w h.0, u, value_loop)
        (record { cells = value_cell j w ∷ cs; shown = refl; same = refl; fit = h })
  | inl t ↦
      rw (value_at-value_cell k j w h.0, t, value_loop)
        (goes t (value_loop-Left k ts cs h.1) (w.value_type == type_rollback) (leb w.commit_ts ts))
]
  where
    moved : equal j k ≡ true → (it : Iter) → Left k cs it → Left k (value_cell j w ∷ cs) it
    moved t it l = record {
      cells = l.cells;
      shown = l.shown;
      same = unfold behind in rw t (l.same);
      fit = l.fit;
    }

    goes :
        equal j k ≡ true
        → Left k cs (value_loop k ts (map encode_cell cs) none).0
        → (b c : Bool)
        → Left k
            (value_cell j w ∷ cs)
            (if b
              then value_loop k ts (map encode_cell cs) none
              else if c
              then (
                (map encode_cell cs, none),
                (if w.value_type == type_delete then ok none else ok (some w.value)),
              )
              else value_loop k ts (map encode_cell cs) none).0
    goes t l true c = moved t _ l
    goes t l false true = moved t _ (record { cells = cs; shown = refl; same = refl; fit = h.1 })
    goes t l false false = moved t _ l

pub value_of-Left :
    (k : Bytes) (ts : ℕ) (iso : IsolationLevel) (cs : List Cell)
    → All CellFits cs
    → Entry k cs
    → Left k cs (value_of (map encode_cell cs, none) k ts iso).0
unfolding value_of value_after value_from
value_of-Left k ts iso cs h e =
    rw (lock_decode-cells k cs h e) (from_lock (lock_ts (lock_of k cs) ts k iso))
  where
    from_lock :
        (r : Result ℕ) → Left k cs (value_from r k (map encode_cell (unlocked k cs), none)).0
    from_lock (err x) = record {
      cells = unlocked k cs;
      shown = refl;
      same = behind-unlocked k cs;
      fit = unlocked-fit k cs h;
    }
    from_lock (ok ts') =
        let l = value_loop-Left k ts' (unlocked k cs) (unlocked-fit k cs h) in
        record {
          cells = l.cells;
          shown = l.shown;
          same = l.same ∙ behind-unlocked k cs;
          fit = l.fit;
        }

-- Where a skip stops
abbrev pub skipped : Bytes → List Cell → Result (Bool × Bytes × Iter)
skipped k [] = ok (false, k, ([], none))
skipped k (c ∷ cs) = ok (true, key_of c, (map encode_cell (c ∷ cs), none))

skip_items-cells :
    (k : Bytes) (cs : List Cell)
    → All CellFits cs
    → skip_items k (map encode_cell cs) none ≡ skipped k (behind k cs)
unfolding skip_items behind
skip_items-cells k [] h = refl
skip_items-cells k (c ∷ cs) h = elim (Bool-cases (equal (key_of c) k)) [
  | inl t ↦ rw (decode_key c h.0, t) (skip_items-cells k cs h.1)
  | inr u ↦ rw (decode_key c h.0, u) refl
]

pub skip_decode-cells :
    (k : Bytes) (cs : List Cell)
    → All CellFits cs
    → skip_decode k (map encode_cell cs, none) ≡ skipped k (behind k cs)
unfolding skip_decode
skip_decode-cells k [] h = skip_items-cells k [] h
skip_decode-cells k (c ∷ cs) h = skip_items-cells k (c ∷ cs) h

-- ===== src/Mvcc/Spec/Fit.antt =====
-- The operations that the specification gives can be stored and read back.
use mathlib.Core.List.{map-append}
use mock_tikv.Prelude.{
  ℕ, ◌≡◌, ◌<◌, ◌≤◌, ◌^◌, refl, ap, Option, none, some, List, [], ◌∷◌, ◌++◌, Bytes, All, ◌==◌,
  length, arith, inl, inr, Bool-cases, All-append,
}
use mock_tikv.Errors.{Result, ok, err, ◌>>=◌}
use mock_tikv.Bytes.{equal}
use mock_tikv.Key.{lock_ver}
use mock_tikv.Marshal.{MvccLock, MvccValue, c10_m, type_rollback}
use mock_tikv.Marshal.RoundTrip.{LockFits}
use mock_tikv.Entry.{
  Mutation, op_lock, tomb, value_type_of, get_txn_commit_info, committed, newer_head,
}
use mock_tikv.Mvcc.Write.{new_lock, own_lock}
use mock_tikv.Mvcc.Cells.{Cell, lock_cell, value_cell, CellFits, lock_of}
use mock_tikv.Mvcc.Cells.Change.{CellOp, store, encode_op, OpFits}
use mock_tikv.Mvcc.Spec.{
  spec_prewrite, commit_ops, spec_commit, spec_unlocked, spec_rollback, encoded,
}

abbrev pub both : Result (List CellOp) → Result (List CellOp) → Result (List CellOp)
both r more = do ops ← r; rest ← more; ok (ops ++ rest)

pub encoded-both :
    (r more : Result (List CellOp))
    → encoded (both r more) ≡ (do ops ← encoded r; batch ← encoded more; ok (ops ++ batch))
encoded-both (err x) more = refl
encoded-both (ok ops) (err x) = refl
encoded-both (ok ops) (ok rest) = ap ok (map-append encode_op ops rest)

-- Every operation of a result can be stored.
abbrev pub Fit : Result (List CellOp) → Type 0
Fit (ok ops) = All OpFits ops
Fit (err x) = Unit

pub both-Fit : (r more : Result (List CellOp)) → Fit r → Fit more → Fit (both r more)
both-Fit (err x) more h hs = tt
both-Fit (ok ops) (err x) h hs = tt
both-Fit (ok ops) (ok rest) h hs = All-append OpFits ops rest h hs

abbrev pub LockOk : Option MvccLock → Type 0
LockOk none = Unit
LockOk (some l) = LockFits l

pub lock_of-fit : (k : Bytes) (cells : List Cell) → All CellFits cells → LockOk (lock_of k cells)
unfolding lock_of
lock_of-fit k [] h = tt
lock_of-fit k (lock_cell j l ∷ cs) h = elim (Bool-cases (equal j k)) [
  | inl t ↦ rw t h.0.0
  | inr u ↦ rw u (lock_of-fit k cs h.1)
]
lock_of-fit k (value_cell j v ∷ cs) h = lock_of-fit k cs h.1

pub own_lock-fit : (o : Option MvccLock) (start_ts : ℕ) → LockOk o → LockOk (own_lock o start_ts)
unfolding own_lock
own_lock-fit none start_ts h = tt
own_lock-fit (some l) start_ts h = elim (Bool-cases (l.start_ts == start_ts)) [
  | inl t ↦ rw t h
  | inr u ↦ rw u tt
]

pub tomb-fit :
    (key : Bytes) (start_ts : ℕ)
    → start_ts < lock_ver
    → OpFits (store (value_cell key (tomb start_ts)))
tomb-fit key start_ts h = (
  record {
    type_fits = omega arith;
    start_ts_fits = omega arith;
    commit_ts_fits = omega arith;
    value_fits = omega arith;
  },
  h,
)

commit_ops-fit :
    (l : MvccLock) (key : Bytes) (start_ts commit_ts : ℕ)
    → LockFits l
    → start_ts < 256 ^ 8
    → commit_ts < lock_ver
    → All OpFits (commit_ops l key start_ts commit_ts)
commit_ops-fit l key start_ts commit_ts h hs hc = elim (Bool-cases (l.op == op_lock)) [
  | inl t ↦ rw t (tt, tt)
  | inr u ↦ rw u (
    (
      record {
        type_fits = unfold value_type_of in ground arith;
        start_ts_fits = hs;
        commit_ts_fits = omega arith;
        value_fits = h.value_fits;
      },
      hc,
    ),
    (tt, tt),
  )
]

pub spec_commit-Fit :
    (o : Option MvccLock) (values : List MvccValue) (key : Bytes) (start_ts commit_ts : ℕ)
    → LockOk o
    → start_ts < 256 ^ 8
    → commit_ts < lock_ver
    → Fit (spec_commit o values key start_ts commit_ts)
unfolding spec_commit
spec_commit-Fit (some l) values key start_ts commit_ts h hs hc =
    commit_ops-fit l key start_ts commit_ts h hs hc
spec_commit-Fit none values key start_ts commit_ts h hs hc =
    elim (Bool-cases (committed (get_txn_commit_info values start_ts))) [
      | inl t ↦ rw t tt
      | inr u ↦ rw u tt
    ]

spec_unlocked-Fit :
    (o : Option MvccValue) (key : Bytes) (start_ts : ℕ)
    → start_ts < lock_ver
    → Fit (spec_unlocked o key start_ts)
unfolding spec_unlocked
spec_unlocked-Fit none key start_ts h = (tomb-fit key start_ts h, tt)
spec_unlocked-Fit (some c) key start_ts h = elim (Bool-cases (c.value_type == type_rollback)) [
  | inl t ↦ rw t tt
  | inr u ↦ rw u tt
]

pub spec_rollback-Fit :
    (o : Option MvccLock) (values : List MvccValue) (key : Bytes) (start_ts : ℕ)
    → start_ts < lock_ver
    → Fit (spec_rollback o values key start_ts)
unfolding spec_rollback
spec_rollback-Fit (some l) values key start_ts h = (tomb-fit key start_ts h, (tt, tt))
spec_rollback-Fit none values key start_ts h =
    spec_unlocked-Fit (get_txn_commit_info values start_ts) key start_ts h

-- A mutation, and the rest of a Prewrite, that can be stored
pub record MutationFits (m : Mutation) : Type 0 where
  pub value_fits : length m.value ≤ c10_m
  pub op_fits : m.op < 256 ^ 4

pub record PrewriteFits (primary : Bytes) (start_ts ttl : ℕ) : Type 0 where
  pub primary_fits : length primary ≤ c10_m
  pub start_ts_fits : start_ts < 256 ^ 8
  pub ttl_fits : ttl < 256 ^ 8

new_lock-fit :
    (m : Mutation) (primary : Bytes) (start_ts ttl : ℕ)
    → MutationFits m
    → PrewriteFits primary start_ts ttl
    → OpFits (store (lock_cell m.key (new_lock m start_ts primary ttl)))
new_lock-fit m primary start_ts ttl hm h = (
  record {
    start_ts_fits = h.start_ts_fits;
    primary_fits = h.primary_fits;
    value_fits = hm.value_fits;
    op_fits = hm.op_fits;
    ttl_fits = h.ttl_fits;
  },
  refl,
)

pub spec_prewrite-Fit :
    (o : Option MvccLock) (values : List MvccValue) (m : Mutation) (primary : Bytes)
    (start_ts ttl : ℕ)
    → MutationFits m
    → PrewriteFits primary start_ts ttl
    → Fit (spec_prewrite o values m start_ts primary ttl)
unfolding spec_prewrite
spec_prewrite-Fit (some l) values m primary start_ts ttl hm h =
    elim (Bool-cases (l.start_ts == start_ts)) [ inl t ↦ rw t tt | inr u ↦ rw u tt ]
spec_prewrite-Fit none values m primary start_ts ttl hm h =
    elim (Bool-cases (newer_head values start_ts)) [
      | inl t ↦ rw t tt
      | inr u ↦ rw u (new_lock-fit m primary start_ts ttl hm h, tt)
    ]

-- ===== src/Mvcc/Spec/Keys.antt =====
-- The operations on one key read the lock and the values of the key, and do as specified.
use mock_tikv.Prelude.{
  ℕ, ◌≡◌, inl, inr, refl, ap, ◌∙◌, Option, none, some, List, [], ◌∷◌, Bytes, All, map, arith,
}
use mock_tikv.Errors.{Result, ok, ◌>>=◌}
use mock_tikv.Marshal.{MvccLock, MvccValue}
use mock_tikv.Entry.{Mutation, get_txn_commit_info, newer_head}
use mock_tikv.Engine.{Batch}
use mock_tikv.Mvcc.{value_decode}
use mock_tikv.Mvcc.Write.{
  prewrite_unlocked, prewrite_locked, prewrite_mutation, commit_lock, rollback_lock, commit_locked,
  own_lock, commit_key, rollback_unlocked, rollback_locked, rollback_key,
}
use mock_tikv.Mvcc.Cells.{
  Cell, lock_cell, value_cell, encode_cell, CellFits, lock_of, values_of, Values, Entry,
}
use mock_tikv.Mvcc.Cells.Read.{
  unlocked, lock_decode-cells, unlocked-Values, unlocked-fit, values_of-unlocked,
  txn_commit_info-cells, value_at-lock_cell, value_at-value_cell, values_of-Beyond, ne_of_lt,
  eq_self,
}
use mock_tikv.Mvcc.Cells.Change.{encode_op}
use mock_tikv.Mvcc.Spec.{
  spec_prewrite, commit_ops, spec_commit, spec_unlocked, spec_rollback, encoded,
}

abbrev head_of : List MvccValue → Option MvccValue
head_of [] = none
head_of (v ∷ vs) = some v

-- What the value decoder finds first
first_value :
    (k : Bytes) (cs : List Cell) (f : Option MvccValue → Result Batch)
    → All CellFits cs
    → Values k cs
    → (value_decode k (map encode_cell cs, none) >>= λ r. f r.0) ≡ f (head_of (values_of k cs))
unfolding value_decode values_of
first_value k [] f h v = refl
first_value k (lock_cell j l ∷ cs) f h b =
    rw (value_at-lock_cell k j l h.0, values_of-Beyond k cs b.1)
first_value k (value_cell j w ∷ cs) f h (inl (e, v)) =
    rw (value_at-value_cell k j w h.0, eq_self k j e)
first_value k (value_cell j w ∷ cs) f h (inr b) =
    rw (value_at-value_cell k j w h.0, ne_of_lt k j b.0, values_of-Beyond k cs b.1)

prewrite_head :
    (values : List MvccValue) (m : Mutation) (start_ts : ℕ) (primary : Bytes) (ttl : ℕ)
    → prewrite_unlocked (head_of values) m start_ts primary ttl
      ≡ encoded (spec_prewrite none values m start_ts primary ttl)
unfolding prewrite_unlocked spec_prewrite newer_head
prewrite_head [] m start_ts primary ttl = refl
prewrite_head (v ∷ vs) m start_ts primary ttl = ground arith

prewrite_locked-cells :
    (lock : Option MvccLock) (m : Mutation) (cs : List Cell) (start_ts : ℕ) (primary : Bytes)
    (ttl : ℕ)
    → All CellFits cs
    → Values m.key cs
    → prewrite_locked lock (map encode_cell cs, none) m start_ts primary ttl
      ≡ encoded (spec_prewrite lock (values_of m.key cs) m start_ts primary ttl)
unfolding prewrite_locked
prewrite_locked-cells none m cs start_ts primary ttl h v =
    first_value m.key cs (λ r. prewrite_unlocked r m start_ts primary ttl) h v
    ∙ prewrite_head (values_of m.key cs) m start_ts primary ttl
prewrite_locked-cells (some l) m cs start_ts primary ttl h v = unfold spec_prewrite in ground arith

pub prewrite_mutation-cells :
    (m : Mutation) (cs : List Cell) (start_ts : ℕ) (primary : Bytes) (ttl : ℕ)
    → All CellFits cs
    → Entry m.key cs
    → prewrite_mutation (map encode_cell cs, none) m start_ts primary ttl
      ≡ encoded (spec_prewrite (lock_of m.key cs) (values_of m.key cs) m start_ts primary ttl)
unfolding prewrite_mutation
prewrite_mutation-cells m cs start_ts primary ttl h e = rw (lock_decode-cells m.key cs h e) (
    prewrite_locked-cells (lock_of m.key cs) m (unlocked m.key cs) start_ts primary ttl
      (unlocked-fit m.key cs h) (unlocked-Values m.key cs e)
    ∙ rw (values_of-unlocked m.key cs))

pub commit_lock-cells :
    (l : MvccLock) (key : Bytes) (start_ts commit_ts : ℕ)
    → commit_lock l key start_ts commit_ts ≡ map encode_op (commit_ops l key start_ts commit_ts)
unfolding commit_lock
commit_lock-cells l key start_ts commit_ts = ground arith

commit_locked-cells :
    (own : Option MvccLock) (key : Bytes) (cs : List Cell) (start_ts commit_ts : ℕ)
    → All CellFits cs
    → Values key cs
    → commit_locked own (map encode_cell cs) key start_ts commit_ts
      ≡ encoded (spec_commit own (values_of key cs) key start_ts commit_ts)
unfolding commit_locked spec_commit
commit_locked-cells none key cs start_ts commit_ts h v =
    rw (txn_commit_info-cells key start_ts cs h v) (ground arith)
commit_locked-cells (some l) key cs start_ts commit_ts h v =
    ap ok (commit_lock-cells l key start_ts commit_ts)

pub commit_key-cells :
    (key : Bytes) (cs : List Cell) (start_ts commit_ts : ℕ)
    → All CellFits cs
    → Entry key cs
    → commit_key (map encode_cell cs, none) key start_ts commit_ts
      ≡ encoded (
          spec_commit
            (own_lock (lock_of key cs) start_ts)
            (values_of key cs)
            key
            start_ts
            commit_ts)
unfolding commit_key
commit_key-cells key cs start_ts commit_ts h e = rw (lock_decode-cells key cs h e) (
    commit_locked-cells (own_lock (lock_of key cs) start_ts) key (unlocked key cs) start_ts
      commit_ts (unlocked-fit key cs h) (unlocked-Values key cs e)
    ∙ rw (values_of-unlocked key cs))

rollback_unlocked-cells :
    (c : Option MvccValue) (key : Bytes) (start_ts : ℕ)
    → rollback_unlocked c key start_ts ≡ encoded (spec_unlocked c key start_ts)
unfolding rollback_unlocked spec_unlocked
rollback_unlocked-cells none key start_ts = refl
rollback_unlocked-cells (some c) key start_ts = ground arith

rollback_locked-cells :
    (own : Option MvccLock) (key : Bytes) (cs : List Cell) (start_ts : ℕ)
    → All CellFits cs
    → Values key cs
    → rollback_locked own (map encode_cell cs) key start_ts
      ≡ encoded (spec_rollback own (values_of key cs) key start_ts)
unfolding rollback_locked spec_rollback
rollback_locked-cells none key cs start_ts h v =
    rw (txn_commit_info-cells key start_ts cs h v)
      (rollback_unlocked-cells (get_txn_commit_info (values_of key cs) start_ts) key start_ts)
rollback_locked-cells (some l) key cs start_ts h v = unfold rollback_lock in refl

pub rollback_key-cells :
    (key : Bytes) (cs : List Cell) (start_ts : ℕ)
    → All CellFits cs
    → Entry key cs
    → rollback_key (map encode_cell cs, none) key start_ts
      ≡ encoded (spec_rollback (own_lock (lock_of key cs) start_ts) (values_of key cs) key start_ts)
unfolding rollback_key
rollback_key-cells key [] start_ts h e =
    unfold lock_of values_of own_lock spec_rollback get_txn_commit_info in
    rollback_unlocked-cells none key start_ts
rollback_key-cells key (c ∷ cs) start_ts h e = rw (lock_decode-cells key (c ∷ cs) h e) (
    rollback_locked-cells (own_lock (lock_of key (c ∷ cs)) start_ts) key (unlocked key (c ∷ cs))
      start_ts (unlocked-fit key (c ∷ cs) h) (unlocked-Values key (c ∷ cs) e)
    ∙ rw (values_of-unlocked key (c ∷ cs)))

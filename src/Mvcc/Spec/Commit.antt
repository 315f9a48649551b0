-- ===== src/Mvcc/Spec/Commit.antt =====
-- What a reader sees of a Commit of MVCCLevelDB.
use mock_tikv.Prelude.{
  ℕ, ◌≡◌, refl, ◌∙◌, inl, inr, Option, none, some, List, [], ◌∷◌, ◌++◌, Bytes, ◌==◌, if◌then◌else◌,
  arith, Bool-cases,
}
use mock_tikv.Errors.{ok, >>=-eq-ok}
use mock_tikv.Bytes.{equal}
use mock_tikv.Marshal.{MvccLock, MvccValue}
use mock_tikv.Entry.{op_lock, committed, get_txn_commit_info}
use mock_tikv.Mvcc.Write.{commit_value, own_lock}
use mock_tikv.Mvcc.Cells.{Cell, lock_of, values_of}
use mock_tikv.Mvcc.Cells.Change.{CellOp}
use mock_tikv.Mvcc.Cells.View.{put_version}
use mock_tikv.Mvcc.Cells.Effect.{View, view_op, view_ops, view_ops-append, mem_key, again}
use mock_tikv.Mvcc.Spec.{commit_ops, spec_commit, spec_commit_all}

-- The lock and the values of a key once its lock is committed
unfoldable pub done : Option MvccLock → ℕ → ℕ → View → View
done none start_ts commit_ts view = view
done (some l) start_ts commit_ts (lock, values) = (
  none,
  (if l.op == op_lock then values else put_version (commit_value l start_ts commit_ts) values),
)

pub put_version_again :
    (v : MvccValue) (vs : List MvccValue) → put_version v (put_version v vs) ≡ put_version v vs
unfolding put_version
put_version_again v [] = ground arith
put_version_again v (w ∷ ws) = ground (arith, put_version_again v ws)

done_again :
    (o : Option MvccLock) (start_ts commit_ts : ℕ) (view : View)
    → done o start_ts commit_ts (done o start_ts commit_ts view) ≡ done o start_ts commit_ts view
unfolding done
done_again none start_ts commit_ts view = refl
done_again (some l) start_ts commit_ts (lock, values) =
    ground (arith, put_version_again (commit_value l start_ts commit_ts) values)

commit_ops-view :
    (l : MvccLock) (j k : Bytes) (start_ts commit_ts : ℕ) (view : View)
    → view_ops j (commit_ops l k start_ts commit_ts) view
      ≡ (if equal k j then done (some l) start_ts commit_ts view else view)
unfolding view_ops view_op done
commit_ops-view l j k start_ts commit_ts (lock, values) = elim (Bool-cases (l.op == op_lock)) [
  | inl t ↦ rw t (elim (Bool-cases (equal k j)) [
    | inl y ↦ rw (view_ops, view_op, y) refl
    | inr n ↦ rw (view_ops, view_op, n) refl
  ])
  | inr u ↦ rw u (elim (Bool-cases (equal k j)) [
    | inl y ↦ rw (view_ops, view_op, y) refl
    | inr n ↦ rw (view_ops, view_op, n) refl
  ])
]

no_ops :
    (j k : Bytes) (start_ts commit_ts : ℕ) (view : View)
    → view_ops j [] view ≡ (if equal k j then done none start_ts commit_ts view else view)
unfolding view_ops done
no_ops j k start_ts commit_ts view = ground arith

spec_commit-view :
    (o : Option MvccLock) (values : List MvccValue) (j k : Bytes) (start_ts commit_ts : ℕ)
    (ops : List CellOp) (view : View)
    → spec_commit o values k start_ts commit_ts ≡ ok ops
    → view_ops j ops view ≡ (if equal k j then done o start_ts commit_ts view else view)
unfolding spec_commit
spec_commit-view (some l) values j k start_ts commit_ts ops view h =
    let q : commit_ops l k start_ts commit_ts ≡ ops = cc h in
    rw (← q) (commit_ops-view l j k start_ts commit_ts view)
spec_commit-view none values j k start_ts commit_ts ops view h =
    elim (Bool-cases (committed (get_txn_commit_info values start_ts))) [
      | inl t ↦ let q : [] ≡ ops = cc (rw t at h) in rw (← q) (no_ops j k start_ts commit_ts view)
      | inr u ↦ cc (rw u at h)
    ]

-- The lock that a key of the transaction holds
abbrev pub owned : Bytes → List Cell → ℕ → Option MvccLock
owned j cells start_ts = own_lock (lock_of j cells) start_ts

pub spec_commit_all-view :
    (cells : List Cell) (keys : List Bytes) (start_ts commit_ts : ℕ) (ops : List CellOp) (j : Bytes)
    (view : View)
    → spec_commit_all cells keys start_ts commit_ts ≡ ok ops
    → view_ops j ops view
      ≡ (if mem_key j keys then done (owned j cells start_ts) start_ts commit_ts view else view)
unfolding spec_commit_all
spec_commit_all-view cells [] start_ts commit_ts ops j view h =
    let q : [] ≡ ops = cc h in rw (← q) (unfold view_ops in refl)
spec_commit_all-view cells (k ∷ ks) start_ts commit_ts ops j view h =
    let (first, hf, h1) = >>=-eq-ok _ _ h in
    let (rest, hr, h2) = >>=-eq-ok (spec_commit_all cells ks start_ts commit_ts) _ h1 in
    let q : first ++ rest ≡ ops = cc h2 in
    rw (← q) (
      view_ops-append j first rest view
      ∙ spec_commit_all-view cells ks start_ts commit_ts rest j (view_ops j first view) hr
      ∙ rw
          (spec_commit-view (owned k cells start_ts) (values_of k cells) j k start_ts commit_ts
            first view hf)
          (again (λ i. done (owned i cells start_ts) start_ts commit_ts)
            (λ i. done_again (owned i cells start_ts) start_ts commit_ts) j k ks view))

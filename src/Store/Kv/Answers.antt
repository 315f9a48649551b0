-- ===== src/Store/Kv/Answers.antt =====
-- convertToPbPairs and convertToPbPairsKeyOnly of server/conversion.go on what Get gives.
use mock_tikv.Prelude.{
  ℕ, zero, suc, ◌≡◌, ◌⊎◌, inl, inr, refl, ap, ◌∙◌, Bool, true, false, Option, none, some, List, [],
  ◌∷◌, ◌++◌, Bytes, max_u64, sub_u64, take, ltb, ◌||◌, ◌&&◌, ◌==◌, if◌then◌else◌, Bool-cases,
}
use mock_tikv.Errors.{Error, locked, Result, ok, err}
use mock_tikv.Bytes.{equal}
use mock_tikv.Key.{lock_ver}
use mock_tikv.Key.Laws.{raw-mvcc_encode}
use mock_tikv.Marshal.{MvccLock, MvccValue}
use mock_tikv.Entry.{IsolationLevel, rc, si, op_lock, lock_err, check}
use mock_tikv.Engine.{Engine, EngineLaws}
use mock_tikv.Mvcc.{Pair, lock_ts, get}
use mock_tikv.Mvcc.Scan.{found_pair}
use mock_tikv.Mvcc.Cells.{Cell, Holds, lock_of, values_of}
use mock_tikv.Mvcc.Cells.Read.{visible, view_get, get-view}
use mock_tikv.Mvcc.Cells.Gets.{reads}
use mock_tikv.Store.{
  KeyError, key_locked, KvPair, push, convert_to_key_error, convert_to_pb_pair, convert_to_pb_pairs,
  without_values, convert_to_pb_pairs_key_only,
}
use mock_tikv.Store.Kv.{scan_pairs}

-- A pair for a locked key names the lock in its error, and has no key.
abbrev pub locked_pair : Bytes → Error → List KvPair
locked_pair k (locked l) =
    record {
      key = [];
      value = none;
      error = some (
          key_locked (record {
            key = k;
            primary_lock = l.primary;
            lock_version = l.start_ts;
            lock_ttl = l.ttl;
          }));
    }
    ∷ []
locked_pair k x = []

-- What a scan answers for a key: its value, if it is asked for, or the lock that is in the way
abbrev pub answer : Bool → Bytes → Result (Option Bytes) → List KvPair
answer key_only k (ok none) = []
answer key_only k (ok (some v)) =
    record { key = k; value = if key_only then none else some v; error = none } ∷ []
answer key_only k (err x) = locked_pair k x

abbrev pub answers : Bool → (Bytes → Result (Option Bytes)) → List Bytes → List KvPair
answers key_only g [] = []
answers key_only g (k ∷ ks) = answer key_only k (g k) ++ answers key_only g ks

-- A read gives a value or nil, or fails with a lock of its key.
abbrev IsRead : Bytes → Result (Option Bytes) → Type 0
IsRead k r = ((o : Option Bytes) × (r ≡ ok o)) ⊎ ((l : MvccLock) × (r ≡ err (lock_err l k)))

check_cases :
    (l : MvccLock) (ts : ℕ) (k : Bytes)
    → ((ts' : ℕ) × (check l ts k ≡ ok ts')) ⊎ (check l ts k ≡ err (lock_err l k))
unfolding check
check_cases l ts k = elim (Bool-cases (ltb ts l.start_ts || l.op == op_lock)) [
  | inl t ↦ inl (ts, rw t refl)
  | inr u ↦ elim (Bool-cases (ts == max_u64 && equal l.primary k)) [
    | inl t ↦ inl (sub_u64 l.start_ts 1, rw (u, t) refl)
    | inr v ↦ inr (rw (u, v) refl)
  ]
]

view_get-IsRead :
    (o : Option MvccLock) (values : List MvccValue) (k : Bytes) (ts : ℕ) (iso : IsolationLevel)
    → IsRead k (view_get o values k ts iso)
unfolding view_get lock_ts
view_get-IsRead none values k ts iso = inl (visible ts values, refl)
view_get-IsRead (some l) values k ts rc = inl (visible ts values, refl)
view_get-IsRead (some l) values k ts si = elim (check_cases l ts k) [
  | inl (ts', q) ↦ inl (visible ts' values, rw q refl)
  | inr q ↦ inr (l, rw q refl)
]

pub get-IsRead :
    (e : Engine) (laws : EngineLaws e) (db : e.Db) (cells : List Cell)
    → Holds e db cells
    → (k : Bytes) (ts : ℕ) (iso : IsolationLevel) → IsRead k (get e db k ts iso)
get-IsRead e laws db cells h k ts iso =
    rw (get-view e laws db cells h k ts iso)
      (view_get-IsRead (lock_of k cells) (values_of k cells) k ts iso)

convert_to_key_error-lock_err :
    (l : MvccLock) (k : Bytes)
    → convert_to_key_error (lock_err l k)
      ≡ some (
          key_locked (record {
            key = k;
            primary_lock = l.primary;
            lock_version = l.start_ts;
            lock_ttl = l.ttl;
          }))
unfolding convert_to_key_error lock_err
convert_to_key_error-lock_err l k =
    ap
      (λ (r : Result Bytes). elim r as (λ _. Option KeyError) [
        | err x ↦ none
        | ok key ↦ some (
            key_locked (record {
              key = key;
              primary_lock = l.primary;
              lock_version = l.start_ts;
              lock_ttl = l.ttl;
            }))
      ])
      (raw-mvcc_encode k lock_ver)

one_more :
    (n : ℕ) (p : Pair) (q : KvPair) (rest : List Pair) (out : List KvPair)
    → convert_to_pb_pair p ≡ some q
    → ((m : ℕ) → convert_to_pb_pairs (take m rest) ≡ some (take m out))
    → convert_to_pb_pairs (take n (p ∷ rest)) ≡ some (take n (q ∷ out))
unfolding convert_to_pb_pairs
one_more zero p q rest out h ih = refl
one_more (suc n) p q rest out h ih =
    ap (λ o. push o (convert_to_pb_pairs (take n rest))) h ∙ ap (push (some q)) (ih n)

converted_read :
    (k : Bytes) (r : Result (Option Bytes)) (rest : List Pair) (out : List KvPair)
    → IsRead k r
    → ((m : ℕ) → convert_to_pb_pairs (take m rest) ≡ some (take m out))
    → (n : ℕ)
    → convert_to_pb_pairs (take n (found_pair k r ++ rest))
      ≡ some (take n (answer false k r ++ out))
unfolding convert_to_pb_pair lock_err
converted_read k r rest out (inl (none, q)) ih n = rw q (ih n)
converted_read k r rest out (inl (some v, q)) ih n = rw q (one_more n _ _ rest out refl ih)
converted_read k r rest out (inr (l, q)) ih n =
    rw q (one_more n _ _ rest out (rw (convert_to_key_error-lock_err l k) refl) ih)

converted :
    (g : Bytes → Result (Option Bytes)) (ks : List Bytes)
    → ((k : Bytes) → IsRead k (g k))
    → (n : ℕ) → convert_to_pb_pairs (take n (reads g ks)) ≡ some (take n (answers false g ks))
unfolding convert_to_pb_pairs
converted g [] h zero = refl
converted g [] h (suc n) = refl
converted g (k ∷ ks) h n =
    converted_read k (g k) (reads g ks) (answers false g ks) (h k) (converted g ks h) n

without_one :
    (k : Bytes) (r : Result (Option Bytes)) (out keys : List KvPair)
    → IsRead k r
    → ((m : ℕ) → without_values (take m out) ≡ take m keys)
    → (n : ℕ) → without_values (take n (answer false k r ++ out)) ≡ take n (answer true k r ++ keys)
unfolding lock_err
without_one k r out keys (inl (none, q)) ih n = rw q (ih n)
without_one k r out keys (inl (some v, q)) ih zero = refl
without_one k r out keys (inl (some v, q)) ih (suc n) = rw (q, ih n) refl
without_one k r out keys (inr (l, q)) ih zero = refl
without_one k r out keys (inr (l, q)) ih (suc n) = rw (q, ih n) refl

without :
    (g : Bytes → Result (Option Bytes)) (ks : List Bytes)
    → ((k : Bytes) → IsRead k (g k))
    → (n : ℕ) → without_values (take n (answers false g ks)) ≡ take n (answers true g ks)
without g [] h zero = refl
without g [] h (suc n) = refl
without g (k ∷ ks) h n =
    without_one k (g k) (answers false g ks) (answers true g ks) (h k) (without g ks h) n

pub scan_pairs-reads :
    (key_only : Bool) (g : Bytes → Result (Option Bytes)) (ks : List Bytes) (n : ℕ)
    → ((k : Bytes) → IsRead k (g k))
    → scan_pairs key_only (take n (reads g ks)) ≡ some (take n (answers key_only g ks))
unfolding scan_pairs convert_to_pb_pairs_key_only
scan_pairs-reads false g ks n h = converted g ks h n
scan_pairs-reads true g ks n h =
    ap
      (λ (o : Option (List KvPair)). elim o as (λ _. Option (List KvPair)) [
        | none ↦ none
        | some kv_pairs ↦ some (without_values kv_pairs)
      ])
      (converted g ks h n)
    ∙ ap some (without g ks h n)

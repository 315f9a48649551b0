-- ===== src/Store/Kv/Limit.antt =====
-- KvScan and RawScan of server/store.go keep to the limit of the request.
use mathlib.Core.Path.{subst}
use mock_tikv.Prelude.{
  ℕ, zero, suc, ◌+◌, ◌≡◌, ◌≤◌, inl, inr, refl, ap, ◌∙◌, ltb→lt, Bool, true, false, not, Option,
  none, some, List, [], ◌∷◌, ◌++◌, Bytes, ◌&&◌, length, length-append, ltb, if◌then◌else◌, is_empty,
  arith, Bool-cases, Option-cases,
}
use mock_tikv.Errors.{Result, ok, err}
use mock_tikv.Bytes.{less}
use mock_tikv.Entry.{IsolationLevel}
use mock_tikv.Engine.{Item, Iter, Engine}
use mock_tikv.Mvcc.{Pair, skip_decode, value_of}
use mock_tikv.Mvcc.Scan.{found_pair, scan_loop, new_scan_iterator, scan}
use mock_tikv.Mvcc.Raw.{raw_scan_loop, raw_scan}
use mock_tikv.Store.{
  StoreInstance, State, Call, RequestContext, KvPair, Reply, answered, push, convert_to_pb_pair,
  convert_to_pb_pairs, without_values, convert_to_pb_pairs_key_only,
}
use mock_tikv.Store.Check.{
  Checked, check_panicked, check_failed, refused, passed, check_request, served,
}
use mock_tikv.Store.Kv.{reply_with, scan_end, scan_pairs, scan_reply, kv_scan}
use mock_tikv.Store.RawKv.{kv_raw_scan}

found_pair_one : (key : Bytes) (r : Result (Option Bytes)) → length (found_pair key r) ≤ 1
found_pair_one key (err x) = omega arith
found_pair_one key (ok none) = omega arith
found_pair_one key (ok (some v)) = omega arith

room_for :
    (pairs : List Pair) (key : Bytes) (r : Result (Option Bytes)) (limit : ℕ)
    → ltb (length pairs) limit ≡ true
    → length (pairs ++ found_pair key r) ≤ limit
room_for pairs key r limit t = omega (
  arith,
  ltb→lt (length pairs) limit t,
  length-append pairs (found_pair key r),
  found_pair_one key r,
)

-- The loop of Scan
scan_loop_limit :
    (fuel limit ts : ℕ) (iso : IsolationLevel) (it : Iter) (key : Bytes) (pairs : List Pair)
    → length pairs ≤ limit
    → length (scan_loop fuel limit ts iso it key pairs) ≤ limit
unfolding scan_loop
scan_loop_limit zero limit ts iso it key pairs h = h
scan_loop_limit (suc fuel) limit ts iso it key pairs h =
    elim (Bool-cases (ltb (length pairs) limit)) [
      | inr u ↦ rw u h
      | inl t ↦ rw t (
          skip (skip_decode key after)
            (λ next next_key k. scan_loop_limit fuel limit ts iso next next_key more k)
            (room_for pairs key (value_of it key ts iso).1 limit t))
    ]
  where
    after : Iter
    after = (value_of it key ts iso).0

    more : List Pair
    more = pairs ++ found_pair key (value_of it key ts iso).1

    skip :
        (r : Result (Bool × Bytes × Iter))
        → ((next : Iter) (next_key : Bytes)
            → length more ≤ limit
            → length (scan_loop fuel limit ts iso next next_key more) ≤ limit)
        → length more ≤ limit
        → length (elim r as (λ _. List Pair) [
          | err x ↦ more
          | ok s ↦ (if s.0 then scan_loop fuel limit ts iso s.2 s.1 more else more)
        ])
          ≤ limit
    skip (err x) ih k = k
    skip (ok (false, next_key, next)) ih k = k
    skip (ok (true, next_key, next)) ih k = ih next next_key k

raw_scan_loop_limit :
    (end_key : Bytes) (limit : ℕ) (items : List Item)
    → length (raw_scan_loop end_key limit items) ≤ limit
unfolding raw_scan_loop
raw_scan_loop_limit end_key zero items = omega arith
raw_scan_loop_limit end_key (suc limit) [] = omega arith
raw_scan_loop_limit end_key (suc limit) (x ∷ rest) =
    elim (Bool-cases (not (is_empty end_key) && not (less x.key end_key))) [
      | inl t ↦ rw t (omega arith)
      | inr u ↦ rw u (omega (arith, raw_scan_loop_limit end_key limit rest))
    ]

-- A conversion neither adds nor drops a pair.
length-push :
    {A : Type 0} (o : Option A) (rest : Option (List A)) (out : List A)
    → push o rest ≡ some out
    → (xs : List A) × (rest ≡ some xs) × (length out ≡ suc (length xs))
length-push none rest out h = cc h
length-push (some x) none out h = cc h
length-push (some x) (some xs) out h =
    let same : x ∷ xs ≡ out = cc h in (xs, refl, rw (← same) refl)

length-convert_to_pb_pairs :
    (pairs : List Pair) (out : List KvPair)
    → convert_to_pb_pairs pairs ≡ some out
    → length out ≡ length pairs
unfolding convert_to_pb_pairs
length-convert_to_pb_pairs [] out h = let same : [] ≡ out = cc h in rw (← same) refl
length-convert_to_pb_pairs (p ∷ pairs) out h =
    let (xs, q, l) = length-push (convert_to_pb_pair p) (convert_to_pb_pairs pairs) out h in
    l ∙ ap suc (length-convert_to_pb_pairs pairs xs q)

length-without_values : (pairs : List KvPair) → length (without_values pairs) ≡ length pairs
length-without_values [] = refl
length-without_values (p ∷ pairs) = ap suc (length-without_values pairs)

length-scan_pairs :
    (key_only : Bool) (pairs : List Pair) (out : List KvPair)
    → scan_pairs key_only pairs ≡ some out
    → length out ≡ length pairs
unfolding scan_pairs convert_to_pb_pairs_key_only
length-scan_pairs false pairs out h = length-convert_to_pb_pairs pairs out h
length-scan_pairs true pairs out h = elim (Option-cases (convert_to_pb_pairs pairs)) [
  | inl q ↦ cc (rw (q, convert_to_pb_pairs_key_only) at h)
  | inr (xs, q) ↦
      let same : without_values xs ≡ out = cc (rw (q, convert_to_pb_pairs_key_only) at h) in
      rw (← same) (length-without_values xs ∙ length-convert_to_pb_pairs pairs xs q)
]

-- An answer within the limit
abbrev Within : ℕ → Reply (List KvPair) → Type 0
Within limit (answered pairs) = length pairs ≤ limit
Within limit r = Unit

reply_with-Within :
    (limit : ℕ) (key_only : Bool) (pairs : List Pair) (o : Option (List KvPair))
    → scan_pairs key_only pairs ≡ o
    → length pairs ≤ limit
    → Within limit (reply_with o)
reply_with-Within limit key_only pairs none q h = tt
reply_with-Within limit key_only pairs (some out) q h =
    omega (arith, h, length-scan_pairs key_only pairs out q)

served-Within :
    {Db : Type 0} (limit : ℕ) (checked : Checked) (st : State Db)
    (body : RequestContext → State Db × Reply (List KvPair))
    → ((ctx : RequestContext) → Within limit (body ctx).1)
    → Within limit (served checked st body).1
served-Within limit check_panicked st body h = tt
served-Within limit (check_failed x) st body h = tt
served-Within limit (refused x) st body h = tt
served-Within limit (passed ctx) st body h = h ctx

module _ (e : Engine) (s : StoreInstance) (st : State e.Db) (call : Call) where
  scanned-Within :
      (start_key end_key : Bytes) (limit version : ℕ) (key_only : Bool) (iso : IsolationLevel)
      → Within limit (scan_reply key_only (scan e st.db start_key end_key limit version iso))
  unfolding scan
  scanned-Within start_key end_key limit version key_only iso =
      go (new_scan_iterator e st.db start_key end_key)
    where
      go :
          (r : Result (Iter × Bytes))
          → Within limit (
              scan_reply key_only (elim r as (λ _. Option (List Pair)) [
                | err x ↦ none
                | ok s ↦ some (scan_loop (length s.0.0 + 2) limit version iso s.0 s.1 [])
              ]))
      go (err x) = tt
      go (ok (it, key)) =
          reply_with-Within limit key_only (scan_loop (length it.0 + 2) limit version iso it key [])
            _ refl (scan_loop_limit (length it.0 + 2) limit version iso it key [] (omega arith))

  -- A KvScan that answers with pairs, the error pairs of locked keys included, answers with at
  -- most as many as its limit.
  pub kv_scan_limit :
      (start_key end_key : Bytes) (limit version : ℕ) (key_only : Bool) (pairs : List KvPair)
      → (kv_scan e s st call start_key end_key limit version key_only).1 ≡ answered pairs
      → length pairs ≤ limit
  unfolding kv_scan
  kv_scan_limit start_key end_key limit version key_only pairs h = subst (Within limit) h (
      served-Within limit (check_request s st.cluster call) st _ (λ ctx.
        scanned-Within start_key (scan_end ctx.end_key end_key) limit version key_only
          ctx.isolation_level))

  pub kv_raw_scan_limit :
      (start_key end_key : Bytes) (limit : ℕ) (key_only : Bool) (pairs : List KvPair)
      → (kv_raw_scan e s st call start_key end_key limit key_only).1 ≡ answered pairs
      → length pairs ≤ limit
  unfolding kv_raw_scan raw_scan
  kv_raw_scan_limit start_key end_key limit key_only pairs h = subst (Within limit) h (
      served-Within limit (check_request s st.cluster call) st _ (λ ctx.
        reply_with-Within limit key_only (raw_scan e st.db start_key end_key limit) _ refl
          (raw_scan_loop_limit end_key limit _)))

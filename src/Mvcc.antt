-- ===== src/Mvcc.antt =====
-- MVCCLevelDB of server/mvcc_leveldb.go over an engine: the decoders of its iterator, and the reads of
-- one key. The children hold the other operations and the laws. The mutex makes each operation one
-- step, so an operation is a function of the database; `errors.Trace` is left out.
mod Tests
pub mod Sample
pub mod Write
pub mod Scan
pub mod Status
pub mod Raw
pub mod Cells
pub mod Spec
pub mod Fuel
use mock_tikv.Prelude.{
  ℕ, zero, suc, ◌+◌, Bool, true, false, not, Option, none, some, List, [], ◌∷◌, ◌++◌, Bytes, length,
  leb, ltb, ◌==◌, ◌&&◌, if◌then◌else◌, is_empty,
}
use mock_tikv.Errors.{Error, Result, ok, err, ◌>>=◌}
use mock_tikv.Bytes.{equal}
use mock_tikv.Key.{mvcc_encode, mvcc_decode, lock_ver}
use mock_tikv.Marshal.{
  MvccLock, MvccValue, unmarshal_lock, unmarshal_value, type_rollback, type_delete,
}
use mock_tikv.Entry.{IsolationLevel, si, rc, check, Entry}
use mock_tikv.Engine.{Item, Range, Iter, Engine}

-- lockDecoder.Decode on the item that the iterator is at
unfoldable pub lock_at : Bytes → Item → Result (Option MvccLock)
lock_at expect_key item = do
  (key, ver) ← mvcc_decode item.key
  if not (equal key expect_key)
      then ok none
      else if not (ver == lock_ver)
      then ok none
      else (do lock ← unmarshal_lock item.value; ok (some lock))

-- valueDecoder.Decode on the item that the iterator is at
unfoldable pub value_at : Bytes → Item → Result (Option MvccValue)
value_at expect_key item = do
  (key, ver) ← mvcc_decode item.key
  if not (equal key expect_key)
      then ok none
      else if ver == lock_ver
      then ok none
      else (do value ← unmarshal_value item.value; ok (some value))

-- Decode of lockDecoder and valueDecoder: the iterator moves on if the item was decoded.
abbrev pub moved {ℓ} : {A : Type ℓ} → Option A → Iter → Iter
moved none it = it
moved (some a) ([], fault) = ([], fault)
moved (some a) (x ∷ rest, fault) = (rest, fault)

-- lockDecoder.Decode: the lock, if there is one, and the iterator. On an error it has not moved.
unfoldable pub lock_decode : Bytes → Iter → Result (Option MvccLock × Iter)
lock_decode expect_key ([], none) = ok (none, ([], none))
lock_decode expect_key ([], some e) = err e
lock_decode expect_key (x ∷ rest, fault) = do
  r ← lock_at expect_key x
  ok (r, moved r (x ∷ rest, fault))

-- valueDecoder.Decode
unfoldable pub value_decode : Bytes → Iter → Result (Option MvccValue × Iter)
value_decode expect_key ([], none) = ok (none, ([], none))
value_decode expect_key ([], some e) = err e
value_decode expect_key (x ∷ rest, fault) = do
  r ← value_at expect_key x
  ok (r, moved r (x ∷ rest, fault))

-- The loop of skipDecoder.Decode: whether there is a next key, that key (or the old one), and the
-- iterator.
unfoldable pub skip_items : Bytes → List Item → Option Error → Result (Bool × Bytes × Iter)
skip_items curr_key [] fault = ok (false, curr_key, ([], fault))
skip_items curr_key (x ∷ rest) fault =
    let more = skip_items curr_key rest fault in
    do
      (key, _) ← mvcc_decode x.key
      if not (equal key curr_key) then ok (true, key, (x ∷ rest, fault)) else more

-- skipDecoder.Decode
unfoldable pub skip_decode : Bytes → Iter → Result (Bool × Bytes × Iter)
unfolding skip_items
skip_decode curr_key ([], some e) = err e
skip_decode curr_key (items, fault) = skip_items curr_key items fault

-- The second loop of mvccEntryDecoder.Decode
unfoldable pub decode_values : Bytes → List Item → Option Error → Result (List MvccValue × Iter)
decode_values expect_key [] fault = ok ([], ([], fault))
decode_values expect_key (x ∷ rest) fault =
    let more = decode_values expect_key rest fault in
    do
      r ← value_at expect_key x
      elim r [ none ↦ ok ([], (x ∷ rest, fault)) | some v ↦ (do (vs, it) ← more; ok (v ∷ vs, it)) ]

-- mvccEntryDecoder.Decode: the lock and the values of the entry, and whether there is one.
unfoldable pub entry_decode : Bytes → Iter → Result (Option MvccLock × List MvccValue × Bool)
unfolding lock_decode decode_values
entry_decode expect_key it = do
  (lock, (items, fault)) ← lock_decode expect_key it
  (values, _) ← decode_values expect_key items fault
  ok (lock, values, (elim lock [ none ↦ not (is_empty values) | some l ↦ true ]))

-- The loop of getValue: the first value that is no rollback record and not newer than `ts`. Nil is
-- `none`, and the iterator is left where the loop ends.
unfoldable pub value_loop : Bytes → ℕ → List Item → Option Error → Iter × Result (Option Bytes)
value_loop key ts [] fault = (([], fault), ok none)
value_loop key ts (x ∷ rest) fault =
    let more = value_loop key ts rest fault in
    elim (value_at key x) [
      | err e ↦ ((x ∷ rest, fault), err e)
      | ok none ↦ ((x ∷ rest, fault), ok none)
      | ok (some v) ↦
          (if v.value_type == type_rollback
            then more
            else if leb v.commit_ts ts
            then (
              (rest, fault),
              (if v.value_type == type_delete then ok none else ok (some v.value)),
            )
            else more)
    ]

-- The timestamp that getValue reads at, once it has looked for a lock
unfoldable pub lock_ts : Option MvccLock → ℕ → Bytes → IsolationLevel → Result ℕ
lock_ts none ts key iso = ok ts
lock_ts (some l) ts key rc = ok ts
lock_ts (some l) ts key si = check l ts key

-- getValue behind its lock check
unfoldable pub value_from : Result ℕ → Bytes → Iter → Iter × Result (Option Bytes)
unfolding value_loop
value_from (err e) key it = (it, err e)
value_from (ok ts) key (items, fault) = value_loop key ts items fault

-- getValue behind its lock decoder
unfoldable pub value_after :
    Result (Option MvccLock × Iter)
    → Iter
    → Bytes
    → ℕ
    → IsolationLevel
    → Iter × Result (Option Bytes)
unfolding value_from lock_ts
value_after (err e) it key ts iso = (it, err e)
value_after (ok (lock, it')) it key ts iso = value_from (lock_ts lock ts key iso) key it'

-- getValue
unfoldable pub value_of : Iter → Bytes → ℕ → IsolationLevel → Iter × Result (Option Bytes)
unfolding value_after lock_decode
value_of it key ts iso = value_after (lock_decode key it) it key ts iso

-- getTxnCommitInfo
unfoldable pub txn_commit_info : Bytes → ℕ → List Item → Result (Option MvccValue)
txn_commit_info expect_key start_ts [] = ok none
txn_commit_info expect_key start_ts (x ∷ rest) =
    let more = txn_commit_info expect_key start_ts rest in
    do
      r ← value_at expect_key x
      elim r [ none ↦ ok none | some v ↦ (if v.start_ts == start_ts then ok (some v) else more) ]

-- Pair
pub record Pair : Type 0 where
  pub key : Bytes
  pub value : Option Bytes
  pub error : Option Error

module _ (e : Engine) where
  -- The iterator that an operation on one key makes, at the key's lock
  abbrev pub key_iter : e.Db → Bytes → Iter
  key_iter db key = e.iterate db (record { start = some (mvcc_encode key lock_ver); limit = none })

  -- MVCCLevelDB.Get and its getValue
  unfoldable pub get : e.Db → Bytes → ℕ → IsolationLevel → Result (Option Bytes)
  unfolding value_of
  get db key start_ts iso = (value_of (key_iter db key) key start_ts iso).1

  -- MVCCLevelDB.BatchGet
  unfoldable pub batch_get : e.Db → List Bytes → ℕ → IsolationLevel → List Pair
  unfolding get
  batch_get db [] start_ts iso = []
  batch_get db (k ∷ ks) start_ts iso =
      let rest = batch_get db ks start_ts iso in
      elim (get db k start_ts iso) [
        | ok none ↦ rest
        | ok (some v) ↦ record { key = k; value = some v; error = none } ∷ rest
        | err x ↦ record { key = k; value = none; error = some x } ∷ rest
      ]

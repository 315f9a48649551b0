-- ===== src/Mvcc/Scan.antt =====
-- Scan and ReverseScan of MVCCLevelDB, and its scan iterator.
use mock_tikv.Prelude.{
  ℕ, zero, suc, ◌+◌, not, Option, none, some, List, [], ◌∷◌, ◌++◌, Bytes, length, ltb, ◌==◌,
  if◌then◌else◌, is_empty,
}
use mathlib.Core.List.{reverse}
use mock_tikv.Errors.{Error, Result, ok, err, ◌>>=◌}
use mock_tikv.Bytes.{equal, less}
use mock_tikv.Key.{mvcc_encode, mvcc_decode, lock_ver, new_mvcc_key}
use mock_tikv.Marshal.Partial.{partial_lock, partial_value}
use mock_tikv.Marshal.{MvccLock, MvccValue, unmarshal_lock, unmarshal_value}
use mock_tikv.Entry.{IsolationLevel, Entry}
use mock_tikv.Entry as Entry
use mock_tikv.Engine.{Item, Iter, Engine}
use mock_tikv.Mvcc.{value_of, skip_decode, Pair}

-- The bound that newScanIterator makes of a key
abbrev pub scan_bound : Bytes → Option Bytes
scan_bound key = if is_empty key then none else some (mvcc_encode key lock_ver)

-- The first key that a scan looks at: that of the first item, if no start key is given.
unfoldable pub scan_start : Bytes → Iter → Result (Iter × Bytes)
scan_start start_key ([], fault) = ok (([], fault), start_key)
scan_start start_key (x ∷ rest, fault) =
    if is_empty start_key
    then (do (key, _) ← mvcc_decode x.key; ok ((x ∷ rest, fault), key))
    else ok ((x ∷ rest, fault), start_key)

-- What one round of Scan appends
abbrev pub found_pair : Bytes → Result (Option Bytes) → List Pair
found_pair key (err x) = record { key = key; value = none; error = some x } ∷ []
found_pair key (ok none) = []
found_pair key (ok (some v)) = record { key = key; value = some v; error = none } ∷ []

-- The loop of Scan. A round but the first uses up an item at least, so two rounds more than there are
-- items are enough.
unfoldable pub scan_loop : ℕ → ℕ → ℕ → IsolationLevel → Iter → Bytes → List Pair → List Pair
unfolding value_of skip_decode
scan_loop zero limit start_ts iso it curr_key pairs = pairs
scan_loop (suc fuel) limit start_ts iso it curr_key pairs =
    let (it', r) = value_of it curr_key start_ts iso in
    let pairs' = pairs ++ found_pair curr_key r in
    if ltb (length pairs) limit
    then elim (skip_decode curr_key it') [
      | err x ↦ pairs'
      | ok s ↦
          (let next = scan_loop fuel limit start_ts iso s.2 s.1 pairs' in
            if s.0 then next else pairs')
    ]
    else pairs

-- reverseScanHelper
pub record Helper : Type 0 where
  pub curr_key : Bytes
  pub entry_lock : Option MvccLock
  pub entry_values : List MvccValue
  pub pairs : List Pair

-- The pair that finishEntry appends, if the read gave a value with bytes in it, or an error.
abbrev pub finished_pair : Bytes → Result (Option Bytes) → List Pair
finished_pair key (err x) = record { key = key; value = none; error = some x } ∷ []
finished_pair key (ok none) = []
finished_pair key (ok (some [])) = []
finished_pair key (ok (some (b ∷ bs))) =
    record { key = key; value = some (b ∷ bs); error = none } ∷ []

-- reverseScanHelper.finishEntry
unfoldable pub finish_entry : ℕ → IsolationLevel → Helper → Helper
finish_entry start_ts iso h =
    let entry : Entry = record {
      key = new_mvcc_key h.curr_key;
      values = reverse h.entry_values;
      lock = h.entry_lock;
    } in
    record {
      curr_key = h.curr_key;
      entry_lock = none;
      entry_values = [];
      pairs = h.pairs ++ finished_pair h.curr_key (Entry.get entry start_ts iso);
    }

-- The helper at the next item: the entry before is finished when a new key begins.
unfoldable pub enter_key : ℕ → IsolationLevel → Bytes → Helper → Helper
unfolding finish_entry
enter_key start_ts iso key h =
    if not (equal key h.curr_key)
    then record (finish_entry start_ts iso h) { curr_key = key }
    else h

abbrev failure {ℓ} : {A : Type ℓ} → Result A → Option Error
failure (err x) = some x
failure (ok a) = none

-- The lock or the value of an item, put into the entry, and the error of its UnmarshalBinary. What was
-- read before the error is in the entry all the same.
unfoldable pub add_item : ℕ → Bytes → Helper → Helper × Option Error
unfolding partial_lock partial_value
add_item ver payload h =
    if ver == lock_ver
    then (record h { entry_lock = some (partial_lock payload) }, failure (unmarshal_lock payload))
    else (
      record h { entry_values = h.entry_values ++ partial_value payload ∷ [] },
      failure (unmarshal_value payload),
    )

-- The loop of ReverseScan, over the items from the last one back.
unfoldable pub reverse_loop : Bytes → ℕ → ℕ → IsolationLevel → List Item → Helper → Helper
unfolding enter_key add_item
reverse_loop start_key limit start_ts iso [] h = h
reverse_loop start_key limit start_ts iso (x ∷ rest) h =
    if ltb (length h.pairs) limit
    then elim (mvcc_decode x.key) [
      | err e ↦ h
      | ok kv ↦
          (if less kv.0 start_key
            then h
            else (let added = add_item kv.1 x.value (enter_key start_ts iso kv.0 h) in
                let more = reverse_loop start_key limit start_ts iso rest added.0 in
                elim added.1 [ some e ↦ added.0 | none ↦ more ]))
    ]
    else h

-- The key of the last item, or nil if that does not decode
unfoldable pub last_key : List Item → Bytes
last_key [] = []
last_key (x ∷ rest) = elim (mvcc_decode x.key) [ err e ↦ [] | ok kv ↦ kv.0 ]

module _ (e : Engine) where
  -- newScanIterator: the iterator, and the key to begin with.
  unfoldable pub new_scan_iterator : e.Db → Bytes → Bytes → Result (Iter × Bytes)
  unfolding scan_start
  new_scan_iterator db start_key end_key =
      scan_start start_key
        (e.iterate db (record { start = scan_bound start_key; limit = scan_bound end_key }))

  -- MVCCLevelDB.Scan. If newScanIterator fails, the source panics (`none`): it returns a nil iterator,
  -- and `defer iter.Release()` stands before the test of the error.
  unfoldable pub scan : e.Db → Bytes → Bytes → ℕ → ℕ → IsolationLevel → Option (List Pair)
  unfolding new_scan_iterator scan_loop
  scan db start_key end_key limit start_ts iso = elim (new_scan_iterator db start_key end_key) [
    | err x ↦ none
    | ok s ↦ some (scan_loop (length s.0.0 + 2) limit start_ts iso s.0 s.1 [])
  ]

  -- MVCCLevelDB.ReverseScan
  unfoldable pub reverse_scan : e.Db → Bytes → Bytes → ℕ → ℕ → IsolationLevel → List Pair
  unfolding reverse_loop finish_entry last_key
  reverse_scan db start_key end_key limit start_ts iso =
      let items = reverse (e.iterate db (record { start = none; limit = scan_bound end_key })).0 in
      let h =
        reverse_loop start_key limit start_ts iso items (record {
          curr_key = last_key items;
          entry_lock = none;
          entry_values = [];
          pairs = [];
        }) in
      if ltb (length h.pairs) limit then (finish_entry start_ts iso h).pairs else h.pairs

-- ===== src/Mvcc/Raw.antt =====
-- The raw operations of MVCCLevelDB, and DeleteRange. An error of the engine is logged by them and
-- goes no further, but for doRawDeleteRange, which returns it.
pub mod Laws
use mock_tikv.Prelude.{
  ℕ, zero, suc, not, Option, none, some, List, [], ◌∷◌, Bytes, ◌&&◌, if◌then◌else◌, is_empty,
}
use mock_tikv.Errors.{Result, ok, err}
use mock_tikv.Bytes.{less}
use mock_tikv.Codec.{encode_bytes}
use mock_tikv.Engine.{Item, Batch, put, delete, Engine}
use mock_tikv.Mvcc.{Pair}
use mock_tikv.Mvcc.Write.{written}

-- The batch of RawBatchPut. `none` is the panic on a value that is missing.
unfoldable pub put_all : List Bytes → List Bytes → Option Batch
put_all [] values = some []
put_all (k ∷ ks) [] = none
put_all (k ∷ ks) (v ∷ vs) = elim (put_all ks vs) [ none ↦ none | some ops ↦ some (put k v ∷ ops) ]

-- The loop of RawScan
unfoldable pub raw_scan_loop : Bytes → ℕ → List Item → List Pair
raw_scan_loop end_key zero items = []
raw_scan_loop end_key (suc limit) [] = []
raw_scan_loop end_key (suc limit) (x ∷ rest) =
    let more = raw_scan_loop end_key limit rest in
    if not (is_empty end_key) && not (less x.key end_key)
    then []
    else record { key = x.key; value = some x.value; error = none } ∷ more

abbrev pub delete_all : List Item → Batch
delete_all [] = []
delete_all (x ∷ rest) = delete x.key ∷ delete_all rest

abbrev pub delete_keys : List Bytes → Batch
delete_keys [] = []
delete_keys (k ∷ ks) = delete k ∷ delete_keys ks

module _ (e : Engine) where
  -- RawPut. A nil value is stored as the empty one, which it equals here.
  unfoldable pub raw_put : e.Db → Bytes → Bytes → e.Db
  raw_put db key value = (e.write db (put key value ∷ [])).0

  -- RawBatchPut
  unfoldable pub raw_batch_put : e.Db → List Bytes → List Bytes → Option e.Db
  unfolding put_all
  raw_batch_put db keys values = elim (put_all keys values) [
    | none ↦ none
    | some batch ↦ some (e.write db batch).0
  ]

  -- RawGet: nil if there is no such key, or on an error.
  unfoldable pub raw_get : e.Db → Bytes → Option Bytes
  raw_get db key = elim (e.get_key db key) [ ok v ↦ v | err x ↦ none ]

  -- RawBatchGet
  unfoldable pub raw_batch_get : e.Db → List Bytes → List Pair
  raw_batch_get db [] = []
  raw_batch_get db (k ∷ ks) =
      let rest = raw_batch_get db ks in
      elim (e.get_key db k) [
        | ok none ↦ rest
        | ok (some v) ↦ record { key = k; value = some v; error = none } ∷ rest
        | err x ↦ record { key = k; value = none; error = some x } ∷ rest
      ]

  -- RawDelete
  unfoldable pub raw_delete : e.Db → Bytes → e.Db
  raw_delete db key = (e.write db (delete key ∷ [])).0

  -- RawBatchDelete
  unfoldable pub raw_batch_delete : e.Db → List Bytes → e.Db
  raw_batch_delete db keys = (e.write db (delete_keys keys)).0

  -- RawScan, whose iterator stops at a fault of the engine. A nil start is below every key, as the
  -- empty one is.
  unfoldable pub raw_scan : e.Db → Bytes → Bytes → ℕ → List Pair
  unfolding raw_scan_loop
  raw_scan db start_key end_key limit =
      raw_scan_loop end_key limit (e.iterate db (record { start = some start_key; limit = none })).0

  -- doRawDeleteRange. A nil limit is `none`.
  unfoldable pub do_raw_delete_range : e.Db → Bytes → Option Bytes → e.Db × Result (Unit {0})
  do_raw_delete_range db start_key end_key = written e (
      e.write db (delete_all (e.iterate db (record { start = some start_key; limit = end_key })).0))

  -- RawDeleteRange
  unfoldable pub raw_delete_range : e.Db → Bytes → Option Bytes → e.Db
  unfolding do_raw_delete_range
  raw_delete_range db start_key end_key = (do_raw_delete_range db start_key end_key).0

  -- MVCCLevelDB.DeleteRange
  unfoldable pub delete_range : e.Db → Bytes → Bytes → e.Db × Result (Unit {0})
  unfolding do_raw_delete_range
  delete_range db start_key end_key =
      do_raw_delete_range db (encode_bytes [] start_key) (some (encode_bytes [] end_key))

-- ===== src/Engine.antt =====
-- The storage engine under server/mvcc_leveldb.go, the package goleveldb: a parameter of the model.
-- `Engine` is what the code calls of it, and `EngineLaws` what its documentation says of a database
-- in memory, which is the kind that `NewMVCCLevelDB("")` opens.
pub mod Sorted
pub mod Memory
use mock_tikv.Prelude.{
  ℕ, Ordering, ◌≡◌, Bool, true, false, not, Option, none, some, List, [], ◌∷◌, Bytes, ◌&&◌,
  if◌then◌else◌,
}
use mock_tikv.Errors.{Error, Result, ok}
use mock_tikv.Bytes.{cmp, less, less_eq, equal}

pub record Item : Type 0 where
  pub key : Bytes
  pub value : Bytes

-- util.Range: a nil bound is `none`. The start is in the range and the limit is not.
pub record Range : Type 0 where
  pub start : Option Bytes
  pub limit : Option Bytes

-- An iterator over a snapshot: the items from the current position on, and the error that it ends
-- with, which `Error` shows once they are used up. The wrapper `Iterator` of the source calls `Next`
-- when it is made, so it stands on the first item, and `Valid` says that an item is there.
abbrev pub Iter : Type 0
Iter = List Item × Option Error

-- leveldb.Batch: the operations in the order in which they were added
pub data BatchOp : Type 0 where
  put : Bytes → Bytes → BatchOp
  delete : Bytes → BatchOp

abbrev pub Batch : Type 0
Batch = List BatchOp

-- leveldb.DB. `get_key` gives `ok none` for ErrNotFound; a write gives its error with the state.
pub record Engine : Type 1 where
  pub Db : Type 0
  pub iterate : Db → Range → Iter
  pub get_key : Db → Bytes → Result (Option Bytes)
  pub write : Db → Batch → Db × Option Error

abbrev pub above : Option Bytes → Bytes → Bool
above none k = true
above (some start) k = less_eq start k

abbrev pub below : Option Bytes → Bytes → Bool
below none k = true
below (some limit) k = less k limit

unfoldable pub in_range : Range → List Item → List Item
in_range r [] = []
in_range r (x ∷ xs) =
    if above r.start x.key && below r.limit x.key then x ∷ in_range r xs else in_range r xs

unfoldable pub lookup : Bytes → List Item → Option Bytes
lookup k [] = none
lookup k (x ∷ xs) = if equal x.key k then some x.value else lookup k xs

-- The list of all items, in order, after an operation.
unfoldable pub put_item : Bytes → Bytes → List Item → List Item
put_item k v [] = record { key = k; value = v } ∷ []
put_item k v (x ∷ xs) =
    let rest = put_item k v xs in
    elim (cmp k x.key) [
      | Ordering.lt ↦ record { key = k; value = v } ∷ x ∷ xs
      | Ordering.eq ↦ record { key = k; value = v } ∷ xs
      | Ordering.gt ↦ x ∷ rest
    ]

unfoldable pub delete_item : Bytes → List Item → List Item
delete_item k [] = []
delete_item k (x ∷ xs) = if equal x.key k then xs else x ∷ delete_item k xs

unfoldable pub apply_op : BatchOp → List Item → List Item
unfolding put_item delete_item
apply_op (put k v) items = put_item k v items
apply_op (delete k) items = delete_item k items

unfoldable pub apply_batch : Batch → List Item → List Item
unfolding apply_op
apply_batch [] items = items
apply_batch (op ∷ ops) items = apply_batch ops (apply_op op items)

-- Keys go strictly upwards.
abbrev pub AllAbove : Bytes → List Item → Type 0
AllAbove k [] = Unit
AllAbove k (x ∷ xs) = (cmp k x.key ≡ Ordering.lt) × AllAbove k xs

abbrev pub IsSorted : List Item → Type 0
IsSorted [] = Unit
IsSorted (x ∷ xs) = AllAbove x.key xs × IsSorted xs

abbrev pub whole : Range
whole = record { start = none; limit = none }

module _ (e : Engine) where
  abbrev pub contents : e.Db → List Item
  contents db = (e.iterate db whole).0

  -- A database in memory: its items are sorted by `bytes.Compare`, an iterator shows those in its
  -- range, a lookup finds the item of its key, a batch is applied in order, and nothing fails.
  pub record EngineLaws : Type 0 where
    pub sorted : (db : e.Db) → IsSorted (contents db)
    pub iterate_lem : (db : e.Db) (r : Range) → e.iterate db r ≡ (in_range r (contents db), none)
    pub get_key_lem : (db : e.Db) (k : Bytes) → e.get_key db k ≡ ok (lookup k (contents db))
    pub write_contents :
        (db : e.Db) (b : Batch) → contents (e.write db b).0 ≡ apply_batch b (contents db)
    pub write_ok : (db : e.Db) (b : Batch) → (e.write db b).1 ≡ none

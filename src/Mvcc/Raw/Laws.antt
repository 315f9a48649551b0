-- ===== src/Mvcc/Raw/Laws.antt =====
-- The raw operations of server/mvcc_leveldb.go work on a map from keys to values.
use mock_tikv.Prelude.{
  ◌≡◌, refl, sym, ap, ◌∙◌, inl, inr, Bool, false, Option, none, some, List, [], ◌∷◌, Bytes, ◌&&◌,
  if◌then◌else◌, arith, Bool-cases,
}
use mock_tikv.Errors.{Error}
use mock_tikv.Mvcc.Write.{written}
use mock_tikv.Bytes.{cmp, equal, less_eq}
use mock_tikv.Bytes.Order.{cmp-eq, cmp_self, equal_iff}
use mock_tikv.Engine.{
  Item, Iter, Batch, put, delete, Engine, EngineLaws, contents, lookup, put_item, delete_item,
  apply_op, apply_batch, in_range, above, below, AllAbove, IsSorted,
}
use mock_tikv.Engine.Sorted.{delete_item-IsSorted}
use mock_tikv.Mvcc.Cells.Effect.{mem_key}
use mock_tikv.Mvcc.Raw.{
  raw_put, raw_get, raw_delete, raw_batch_delete, raw_delete_range, do_raw_delete_range, delete_all,
  delete_keys,
}

pub lookup-put_item :
    (j k v : Bytes) (xs : List Item)
    → lookup j (put_item k v xs) ≡ (if equal k j then some v else lookup j xs)
unfolding lookup put_item
lookup-put_item j k v [] = refl
lookup-put_item j k v (x ∷ xs) =
    ground (
      arith,
      lookup-put_item j k v xs,
      cmp-eq k x.key,
      cmp_self k,
      equal_iff k j,
      equal_iff x.key j,
    )

lookup_above : (k : Bytes) (xs : List Item) → AllAbove k xs → lookup k xs ≡ none
unfolding lookup
lookup_above k [] h = refl
lookup_above k (x ∷ xs) (h, hs) = elim (Bool-cases (equal x.key k)) [
  | inl t ↦
      let same : x.key ≡ k = (equal_iff x.key k).0 t in cc (h, cmp_self k, ap (λ y. cmp k y) same)
  | inr u ↦ rw u (lookup_above k xs hs)
]

pub lookup-delete_item :
    (j k : Bytes) (xs : List Item)
    → IsSorted xs
    → lookup j (delete_item k xs) ≡ (if equal k j then none else lookup j xs)
unfolding lookup delete_item
lookup-delete_item j k [] s = ground arith
lookup-delete_item j k (x ∷ xs) (a, s) = ground (
  arith,
  lookup-delete_item j k xs s,
  equal_iff k j,
  equal_iff x.key j,
  equal_iff x.key k,
  lookup_above x.key xs a,
)

lookup-delete_keys :
    (j : Bytes) (ks : List Bytes) (xs : List Item)
    → IsSorted xs
    → lookup j (apply_batch (delete_keys ks) xs) ≡ (if mem_key j ks then none else lookup j xs)
unfolding apply_batch apply_op
lookup-delete_keys j [] xs s = refl
lookup-delete_keys j (k ∷ ks) xs s =
    lookup-delete_keys j ks (delete_item k xs) (delete_item-IsSorted k xs s)
    ∙ ground (arith, lookup-delete_item j k xs s)

-- The keys of items
abbrev item_keys : List Item → List Bytes
item_keys [] = []
item_keys (x ∷ xs) = x.key ∷ item_keys xs

delete_all-item_keys : (xs : List Item) → delete_all xs ≡ delete_keys (item_keys xs)
delete_all-item_keys [] = refl
delete_all-item_keys (x ∷ xs) = ap (λ b. delete x.key ∷ b) (delete_all-item_keys xs)

-- Whether a key is in a range
abbrev pub within : Bytes → Option Bytes → Bytes → Bool
within start limit k = above (some start) k && below limit k

mem_key-in_range :
    (j start : Bytes) (limit : Option Bytes) (xs : List Item)
    → mem_key j (item_keys (in_range (record { start = some start; limit = limit }) xs))
      ≡ (within start limit j && mem_key j (item_keys xs))
unfolding in_range
mem_key-in_range j start limit [] = ground arith
mem_key-in_range j start limit (x ∷ xs) = elim (Bool-cases (equal x.key j)) [
  | inl t ↦
      let same : x.key ≡ j = (equal_iff x.key j).0 t in
      ground (
        arith,
        t,
        ap (below limit) same,
        ap (less_eq start) same,
        mem_key-in_range j start limit xs,
      )
  | inr u ↦ ground (arith, u, mem_key-in_range j start limit xs)
]

lookup_no_mem : (j : Bytes) (xs : List Item) → mem_key j (item_keys xs) ≡ false → lookup j xs ≡ none
unfolding lookup
lookup_no_mem j [] h = refl
lookup_no_mem j (x ∷ xs) h = ground (arith, h, lookup_no_mem j xs)

lookup-delete_all :
    (j start : Bytes) (limit : Option Bytes) (xs : List Item)
    → IsSorted xs
    → lookup j
        (apply_batch (delete_all (in_range (record { start = some start; limit = limit }) xs)) xs)
      ≡ (if within start limit j then none else lookup j xs)
lookup-delete_all j start limit xs s =
    let inside : List Item = in_range (record { start = some start; limit = limit }) xs in
    ap (λ b. lookup j (apply_batch b xs)) (delete_all-item_keys inside)
    ∙ lookup-delete_keys j (item_keys inside) xs s
    ∙ ground (arith, mem_key-in_range j start limit xs, lookup_no_mem j xs)

module _ (e : Engine) (laws : EngineLaws e) where
  raw_get-lookup : (db : e.Db) (k : Bytes) → raw_get e db k ≡ lookup k (contents e db)
  unfolding raw_get
  raw_get-lookup db k = rw (laws.get_key_lem db k, raw_get) refl

  raw_get-write :
      (db : e.Db) (b : Batch) (j : Bytes)
      → raw_get e (e.write db b).0 j ≡ lookup j (apply_batch b (contents e db))
  raw_get-write db b j =
      raw_get-lookup (e.write db b).0 j ∙ ap (λ xs. lookup j xs) (laws.write_contents db b)

  written-state : (w : e.Db × Option Error) → (written e w).0 ≡ w.0
  written-state (db, none) = refl
  written-state (db, some x) = refl

  raw_get-raw_delete_range :
      (db : e.Db) (start : Bytes) (limit : Option Bytes) (j : Bytes)
      → raw_get e (raw_delete_range e db start limit) j
        ≡ (if within start limit j then none else raw_get e db j)
  unfolding raw_delete_range do_raw_delete_range
  raw_get-raw_delete_range db start limit j =
      ap (λ d. raw_get e d j) (written-state _)
      ∙ raw_get-write db _ j
      ∙ ap (λ (it : Iter). lookup j (apply_batch (delete_all it.0) (contents e db)))
          (laws.iterate_lem db (record { start = some start; limit = limit }))
      ∙ lookup-delete_all j start limit (contents e db) (laws.sorted db)
      ∙ ap (λ o. if within start limit j then none else o) (sym (raw_get-lookup db j))

  -- RawGet after a write: RawPut sets its key, RawDelete and RawBatchDelete remove theirs,
  -- RawDeleteRange removes the keys from its start key on that are below its end key, if it has
  -- one, and each leaves every other key as it was. The engine keeps its laws.
  pub raw_get-writes :
      (db : e.Db) (k v j : Bytes) (ks : List Bytes) (start : Bytes) (limit : Option Bytes)
      → (raw_get e (raw_put e db k v) j ≡ (if equal k j then some v else raw_get e db j))
        × (raw_get e (raw_delete e db k) j ≡ (if equal k j then none else raw_get e db j))
        × (raw_get e (raw_batch_delete e db ks) j ≡ (if mem_key j ks then none else raw_get e db j))
        × (raw_get e (raw_delete_range e db start limit) j
            ≡ (if within start limit j then none else raw_get e db j))
  unfolding raw_put raw_delete raw_batch_delete apply_batch apply_op
  raw_get-writes db k v j ks start limit = (
    raw_get-write db (put k v ∷ []) j
        ∙ lookup-put_item j k v (contents e db)
        ∙ ap (λ o. if equal k j then some v else o) (sym (raw_get-lookup db j)),
    raw_get-write db (delete k ∷ []) j
        ∙ lookup-delete_item j k (contents e db) (laws.sorted db)
        ∙ ap (λ o. if equal k j then none else o) (sym (raw_get-lookup db j)),
    raw_get-write db (delete_keys ks) j
        ∙ lookup-delete_keys j ks (contents e db) (laws.sorted db)
        ∙ ap (λ o. if mem_key j ks then none else o) (sym (raw_get-lookup db j)),
    raw_get-raw_delete_range db start limit j,
  )

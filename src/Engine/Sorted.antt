-- ===== src/Engine/Sorted.antt =====
-- A batch keeps the order of the items.
use mock_tikv.Prelude.{Ordering, ◌≡◌, refl, ap, ◌∙◌, List, [], ◌∷◌, Bytes, Bool-cases, inl, inr}
use mock_tikv.Bytes.{cmp, equal}
use mock_tikv.Bytes.Order.{cmp_trans, cmp-eq, cmp-swap, swap}
use mock_tikv.Engine.{
  Item, put, delete, Batch, put_item, delete_item, apply_batch, AllAbove, IsSorted, in_range, whole,
}

above_trans : (k j : Bytes) (xs : List Item) → cmp k j ≡ Ordering.lt → AllAbove j xs → AllAbove k xs
above_trans k j [] h a = tt
above_trans k j (x ∷ xs) h a = (cmp_trans k j x.key h a.0, above_trans k j xs h a.1)

AllAbove-put_item :
    (j k v : Bytes) (xs : List Item)
    → cmp j k ≡ Ordering.lt
    → AllAbove j xs
    → AllAbove j (put_item k v xs)
unfolding put_item
AllAbove-put_item j k v [] h a = (h, tt)
AllAbove-put_item j k v (x ∷ xs) h a = go (cmp k x.key) refl (AllAbove-put_item j k v xs h a.1)
  where
    go :
        (o : Ordering)
        → cmp k x.key ≡ o
        → AllAbove j (put_item k v xs)
        → AllAbove j (put_item k v (x ∷ xs))
    go Ordering.lt e r = rw (e, put_item) (h, a)
    go Ordering.eq e r = rw (e, put_item) (h, a.1)
    go Ordering.gt e r = rw (e, put_item) (a.0, r)

pub put_item-IsSorted : (k v : Bytes) (xs : List Item) → IsSorted xs → IsSorted (put_item k v xs)
unfolding put_item
put_item-IsSorted k v [] s = (tt, tt)
put_item-IsSorted k v (x ∷ xs) s = go (cmp k x.key) refl (put_item-IsSorted k v xs s.1)
  where
    go :
        (o : Ordering)
        → cmp k x.key ≡ o
        → IsSorted (put_item k v xs)
        → IsSorted (put_item k v (x ∷ xs))
    go Ordering.lt e r = rw (e, put_item) ((e, above_trans k x.key xs e s.0), s)
    go Ordering.eq e r = rw (e, put_item) (rw (cmp-eq k x.key e) s.0, s.1)
    go Ordering.gt e r =
        let below : cmp x.key k ≡ Ordering.lt = cmp-swap k x.key ∙ ap swap e in
        rw (e, put_item) (AllAbove-put_item x.key k v xs below s.0, r)

AllAbove-delete_item :
    (j k : Bytes) (xs : List Item) → AllAbove j xs → AllAbove j (delete_item k xs)
unfolding delete_item
AllAbove-delete_item j k [] a = tt
AllAbove-delete_item j k (x ∷ xs) a = elim (Bool-cases (equal x.key k)) [
  | inl t ↦ rw t a.1
  | inr f ↦ rw f (a.0, AllAbove-delete_item j k xs a.1)
]

pub delete_item-IsSorted : (k : Bytes) (xs : List Item) → IsSorted xs → IsSorted (delete_item k xs)
unfolding delete_item
delete_item-IsSorted k [] s = tt
delete_item-IsSorted k (x ∷ xs) s = elim (Bool-cases (equal x.key k)) [
  | inl t ↦ rw t s.1
  | inr f ↦ rw f (AllAbove-delete_item x.key k xs s.0, delete_item-IsSorted k xs s.1)
]

pub apply_batch-IsSorted : (b : Batch) (xs : List Item) → IsSorted xs → IsSorted (apply_batch b xs)
unfolding apply_batch
apply_batch-IsSorted [] xs s = s
apply_batch-IsSorted (put k v ∷ b) xs s =
    apply_batch-IsSorted b (put_item k v xs) (put_item-IsSorted k v xs s)
apply_batch-IsSorted (delete k ∷ b) xs s =
    apply_batch-IsSorted b (delete_item k xs) (delete_item-IsSorted k xs s)

pub in_range-whole : (xs : List Item) → in_range whole xs ≡ xs
unfolding in_range
in_range-whole [] = refl
in_range-whole (x ∷ xs) = ap (λ r. x ∷ r) (in_range-whole xs)

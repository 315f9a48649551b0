-- ===== src/Cluster/Split.antt =====
-- A split leaves each key in as many regions as before, so the regions stay a partition of the keys.
use mock_tikv.Prelude.{
  ℕ, zero, suc, ◌+◌, ◌≡◌, ◌⊎◌, Ordering, inl, inr, refl, sym, ap, ◌∙◌, Bool, true, false, Option,
  none, some, List, [], ◌∷◌, ◌++◌, Bytes, get_elem?, ◌||◌, if◌then◌else◌, is_empty, arith,
  Bool-cases,
}
use mock_tikv.Bytes.{cmp, less, less_eq}
use mock_tikv.Bytes.Order.{cmp_trans, cmp-eq, cmp-swap}
use mock_tikv.Key.{region_contains}
use mock_tikv.Cluster.{
  Peer, Region, Cluster, bytes_of, contains, leader_peer, find_by_key, lookup_id, set_at,
  split_peers, split_into, left_of, right_of, split_at, origin_at, at_place, split_raw,
}

abbrev pub count : Region → Bytes → ℕ
count r key = if contains r key then 1 else 0

-- In how many regions of a list a key is
unfoldable pub holders : List Region → Bytes → ℕ
unfolding contains
holders [] key = 0
holders (r ∷ rs) key = count r key + holders rs key

-- Each key is in one region.
abbrev pub IsPartition : List Region → Type 0
IsPartition regions = (key : Bytes) → holders regions key ≡ 1

-- A key strictly inside a region
abbrev pub Inside : Region → Bytes → Type 0
Inside r split_key =
    (cmp r.start_key split_key ≡ Ordering.lt)
    × ((bytes_of r.end_key ≡ []) ⊎ (cmp split_key (bytes_of r.end_key) ≡ Ordering.lt))

not_empty_above : (a b : Bytes) → cmp a b ≡ Ordering.lt → is_empty b ≡ false
unfolding cmp
not_empty_above [] [] h = cc h
not_empty_above (x ∷ a) [] h = cc h
not_empty_above a (x ∷ b) h = refl

abbrev pub one_if : Bool → ℕ
one_if b = if b then 1 else 0

below_end :
    (s b key : Bytes)
    → cmp key s ≡ Ordering.lt
    → (b ≡ []) ⊎ (cmp s b ≡ Ordering.lt)
    → less key b || is_empty b ≡ true
unfolding less
below_end s b key o (inl e) = rw e (ground (arith, e))
below_end s b key o (inr k) = ground (arith, cmp_trans key s b o k)

-- The two halves of a range
pub halves :
    (a s b key : Bytes)
    → cmp a s ≡ Ordering.lt
    → (b ≡ []) ⊎ (cmp s b ≡ Ordering.lt)
    → one_if (region_contains a s key) + one_if (region_contains s b key)
      ≡ one_if (region_contains a b key)
unfolding region_contains less less_eq
halves a s b key h k = go (cmp key s) refl
  where
    go :
        (o : Ordering)
        → cmp key s ≡ o
        → one_if (region_contains a s key) + one_if (region_contains s b key)
          ≡ one_if (region_contains a b key)
    go Ordering.lt o =
        ground (arith, o, cmp-swap key s, below_end s b key o k, not_empty_above a s h)
    go Ordering.eq o = ground (arith, o, cmp-swap key s, cmp-eq key s o, h, not_empty_above a s h)
    go Ordering.gt o = ground (arith, o, cmp-swap key s, cmp_trans a s key h, not_empty_above a s h)

halves-count :
    (origin : Region) (new_region_id : ℕ) (split_key : Bytes) (peers : List Peer) (leader : ℕ)
    (key : Bytes)
    → Inside origin split_key
    → count (left_of origin split_key) key
        + count (right_of origin new_region_id split_key peers leader) key
      ≡ count origin key
unfolding contains
halves-count origin new_region_id split_key peers leader key (h, k) =
    halves origin.start_key split_key (bytes_of origin.end_key) key h k

holders-append :
    (a b : List Region) (key : Bytes) → holders (a ++ b) key ≡ holders a key + holders b key
unfolding holders
holders-append [] b key = omega arith
holders-append (r ∷ a) b key = omega (arith, holders-append a b key)

holders-set_at :
    (regions : List Region) (place : ℕ) (r new : Region) (key : Bytes)
    → get_elem? regions place ≡ some r
    → holders (set_at regions place new) key + count r key ≡ holders regions key + count new key
unfolding holders set_at
holders-set_at [] place r new key h = cc h
holders-set_at (x ∷ xs) zero r new key h = let same : x ≡ r = cc h in rw same (omega arith)
holders-set_at (x ∷ xs) (suc place) r new key h = omega (arith, holders-set_at xs place r new key h)

split_list :
    (regions : List Region) (place : ℕ) (origin : Region) (new_region_id : ℕ) (split_key : Bytes)
    (peers : List Peer) (leader : ℕ) (key : Bytes)
    → get_elem? regions place ≡ some origin
    → Inside origin split_key
    → holders
        (set_at regions place (left_of origin split_key)
          ++ right_of origin new_region_id split_key peers leader ∷ [])
        key
      ≡ holders regions key
split_list regions place origin new_region_id split_key peers leader key h i =
    let left : Region = left_of origin split_key in
    let right : Region = right_of origin new_region_id split_key peers leader in
    let last : holders (right ∷ []) key ≡ count right key = unfold holders in omega arith in
    omega (
      arith,
      last,
      holders-append (set_at regions place left) (right ∷ []) key,
      holders-set_at regions place origin left key h,
      halves-count origin new_region_id split_key peers leader key i,
    )

split_at-holders :
    (c : Cluster) (place : ℕ) (origin : Region) (new_region_id : ℕ) (split_key : Bytes)
    (peers : Option (List Peer)) (leader : ℕ) (c' : Cluster) (left right : Region) (key : Bytes)
    → get_elem? c.regions place ≡ some origin
    → Inside origin split_key
    → split_at c place origin new_region_id split_key peers leader ≡ split_into c' left right
    → holders c'.regions key ≡ holders c.regions key
split_at-holders c place origin new_region_id split_key none leader c' left right key h i q = cc q
split_at-holders c place origin new_region_id split_key (some peers) leader c' left right key h i
      q =
    let regions : c'.regions
        ≡ set_at c.regions place (left_of origin split_key)
          ++ right_of origin new_region_id split_key peers leader ∷ [] =
      cc q in
    rw regions (split_list c.regions place origin new_region_id split_key peers leader key h i)

-- A SplitRaw that succeeds, at a key strictly inside the region that it splits, keeps the regions
-- a partition: if each key was in one region before, it is in one region afterwards.
pub split_raw-IsPartition :
    (c c' : Cluster) (old_region_id new_region_id : ℕ) (split_key : Bytes) (new_peer_ids : List ℕ)
    (leader place : ℕ) (origin left right : Region)
    → lookup_id c.region_by_id old_region_id ≡ some place
    → get_elem? c.regions place ≡ some origin
    → Inside origin split_key
    → split_raw c old_region_id new_region_id split_key new_peer_ids leader
      ≡ split_into c' left right
    → IsPartition c.regions
    → IsPartition c'.regions
unfolding split_raw
split_raw-IsPartition c c' old_region_id new_region_id split_key new_peer_ids leader place origin
      left right l h i q p key =
    let there : origin_at c (lookup_id c.region_by_id old_region_id) ≡ some (place, origin) =
      ap (origin_at c) l ∙ ap (at_place place) h in
    split_at-holders c place origin new_region_id split_key (split_peers origin.peers new_peer_ids)
      leader c' left right key h i (rw there at q)
    ∙ p key

none_holds : (key : Bytes) → holders [] key ≡ 0
unfolding holders
none_holds key = refl

passed_over :
    (x : Region) (xs : List Region) (key : Bytes)
    → contains x key ≡ false
    → (find_by_key (x ∷ xs) key ≡ find_by_key xs key) × (holders (x ∷ xs) key ≡ holders xs key)
unfolding find_by_key holders
passed_over x xs key u = (rw u refl, rw u (omega arith))

-- A key that is in one region of the list is found by getRegionByKey, in a region that contains
-- it.
pub find_by_key-holders :
    (regions : List Region) (key : Bytes)
    → holders regions key ≡ 1
    → (r : Region) × (find_by_key regions key ≡ some (r, leader_peer r)) × (contains r key ≡ true)
find_by_key-holders [] key h = absurd (omega (arith, none_holds key))
find_by_key-holders (x ∷ xs) key h = elim (Bool-cases (contains x key)) [
  | inl t ↦ (x, unfold find_by_key in rw t refl, t)
  | inr u ↦
      let (found', held) = passed_over x xs key u in
      let (r, found, holds) = find_by_key-holders xs key (sym held ∙ h) in
      (r, found' ∙ found, holds)
]

-- ===== src/Cluster/Validate/Partition.antt =====
-- Regions that validateRegion accepts are a partition of the keys, if the last one alone is open.
use mock_tikv.Prelude.{
  Option, none, suc, length, ◌+◌, ◌≡◌, Ordering, inl, inr, refl, ap, ◌∙◌, Bool, true, false, not,
  some, List, [], ◌∷◌, Bytes, if◌then◌else◌, is_empty, arith, Bool-cases, Option-cases,
}
use mock_tikv.Bytes.{cmp, equal, less, less_eq}
use mock_tikv.Bytes.Order.{equal_iff}
use mock_tikv.Key.{region_contains}
use mock_tikv.Cluster.{Region, bytes_of, contains}
use mock_tikv.Cluster.Split.{count, holders, IsPartition, halves, one_if}
use mock_tikv.Cluster.Validate.{
  Checked, valid, first_start_not_empty, start_is_not_last_end, start_not_below_end,
  last_end_not_empty, before, out_of_order, with_end, checked, validate_from, validate_region,
}

-- Every region but the last has an end.
abbrev pub Closed : List Region → Type 0
Closed [] = Unit
Closed (r ∷ []) = Unit
Closed (r ∷ s ∷ rs) = (is_empty (bytes_of r.end_key) ≡ false) × Closed (s ∷ rs)

before-valid :
    (r : Region) (rest : Checked) (out : List Region)
    → before r rest ≡ valid out
    → (rs : List Region) × (rest ≡ valid rs) × (out ≡ r ∷ rs)
before-valid r (valid rs) out h = (rs, refl, cc h)
before-valid r first_start_not_empty out h = cc h
before-valid r start_is_not_last_end out h = cc h
before-valid r start_not_below_end out h = cc h
before-valid r last_end_not_empty out h = cc h

checked-valid :
    (r : Region) (rest : Checked) (out : List Region)
    → checked r rest ≡ valid out
    → (out_of_order r ≡ false) × ((rs : List Region) × (rest ≡ valid rs) × (out ≡ r ∷ rs))
checked-valid r rest out h = elim (Bool-cases (out_of_order r)) [
  | inl t ↦ cc (rw t at h)
  | inr u ↦ (u, before-valid r rest out (rw u at h))
]

in_order :
    (r : Region) (e : Bytes)
    → bytes_of r.end_key ≡ e
    → out_of_order r ≡ false
    → is_empty r.start_key ≡ false
    → is_empty e ≡ false
    → cmp r.start_key e ≡ Ordering.lt
unfolding less
in_order r e q h s n = ground (arith, h, s, n, q)

empty_below : (a e : Bytes) → is_empty a ≡ true → is_empty e ≡ false → cmp a e ≡ Ordering.lt
unfolding cmp
empty_below [] [] h n = cc n
empty_below [] (x ∷ e) h n = refl
empty_below (x ∷ a) e h n = cc h

-- A region whose end is where a last region begins
link :
    (r : Region) (e key : Bytes)
    → bytes_of r.end_key ≡ e
    → cmp r.start_key e ≡ Ordering.lt
    → count r key + one_if (region_contains e [] key) ≡ one_if (region_contains r.start_key [] key)
unfolding contains
link r e key q h = rw q (halves r.start_key e [] key h (inl refl))

more :
    (r : Region) (rs : List Region) (key : Bytes)
    → holders (r ∷ rs) key ≡ count r key + holders rs key
unfolding holders
more r rs key = refl

pub empty_eq : (b : Bytes) → is_empty b ≡ true → b ≡ []
empty_eq [] h = refl
empty_eq (x ∷ b) h = cc h

open_count :
    (r : Region) (key : Bytes)
    → bytes_of r.end_key ≡ []
    → holders (r ∷ []) key ≡ one_if (region_contains r.start_key [] key)
unfolding holders contains
open_count r key q = rw q (omega arith)

-- A last region, which is open
last_open :
    (r : Region) (rs : List Region) (key : Bytes)
    → validate_from r.end_key [] ≡ valid rs
    → holders (r ∷ rs) key ≡ one_if (region_contains r.start_key [] key)
unfolding validate_from
last_open r rs key h = elim (Bool-cases (is_empty (bytes_of r.end_key))) [
  | inl t ↦
      let q : [] ≡ rs = cc (rw t at h) in
      rw (← q) (open_count r key (empty_eq (bytes_of r.end_key) t))
  | inr u ↦ cc (rw u at h)
]

-- Regions that begin at a key and of which the last alone is open hold each key from there on once.
chain :
    (regions : List Region) (s : Bytes) (out : List Region) (key : Bytes)
    → is_empty s ≡ false
    → validate_from (some s) regions ≡ valid out
    → Closed regions
    → holders out key ≡ one_if (region_contains s [] key)
unfolding validate_from
chain [] s out key n h d = cc (rw n at h)
chain (r ∷ rs) s out key n h d = elim (Bool-cases (equal r.start_key s)) [
  | inr u ↦ cc (rw u at h)
  | inl t ↦
      let same : r.start_key ≡ s = (equal_iff r.start_key s).0 t in
      let (o, (rs', hr, ho)) = checked-valid r (validate_from r.end_key rs) out (rw t at h) in
      rw (ho, ← same) (go rs rs' hr d o (rw (← same) at n) (λ e ne. chain rs e rs' key ne))
]
  where
    go :
        (rest rs' : List Region)
        → validate_from r.end_key rest ≡ valid rs'
        → Closed (r ∷ rest)
        → out_of_order r ≡ false
        → is_empty r.start_key ≡ false
        → ((e : Bytes)
            → is_empty e ≡ false
            → validate_from (some e) rest ≡ valid rs'
            → Closed rest
            → holders rs' key ≡ one_if (region_contains e [] key))
        → holders (r ∷ rs') key ≡ one_if (region_contains r.start_key [] key)
    go [] rs' hr d o ns ih = last_open r rs' key hr
    go (r2 ∷ rest) rs' hr d o ns ih = elim (Option-cases r.end_key) [
      | inl q ↦ cc (d.0, ap bytes_of q)
      | inr (e, q) ↦
          let ends : bytes_of r.end_key ≡ e = ap bytes_of q in
          let ne : is_empty e ≡ false = rw ends at d.0 in
          more r rs' key
          ∙ ap (λ m. count r key + m) (ih e ne (rw q at hr) d.1)
          ∙ link r e key ends (in_order r e ends o ns ne)
    ]

every_key : (key : Bytes) → one_if (region_contains [] [] key) ≡ 1
unfolding region_contains less_eq cmp
every_key [] = refl
every_key (x ∷ key) = refl

-- A test that was passed
passes :
    (b : Bool) (failed rest : Checked) (out : List Region)
    → b ≡ true
    → (if not b then failed else rest) ≡ valid out
    → rest ≡ valid out
passes true failed rest out t h = h
passes false failed rest out t h = cc t

first_region :
    (r : Region) (rest rs : List Region) (key : Bytes)
    → is_empty r.start_key ≡ true
    → validate_from (some (bytes_of r.end_key)) rest ≡ valid rs
    → Closed (r ∷ rest)
    → holders (with_end r ∷ rs) key ≡ one_if (region_contains r.start_key [] key)
first_region r [] rs key n h d = last_open (with_end r) rs key h
first_region r (r2 ∷ rest) rs key n h d =
    more (with_end r) rs key
    ∙ ap (λ m. count (with_end r) key + m) (chain (r2 ∷ rest) (bytes_of r.end_key) rs key d.0 h d.1)
    ∙ link (with_end r) (bytes_of r.end_key) key refl
        (empty_below r.start_key (bytes_of r.end_key) n d.0)

-- The regions that validateRegion accepts, of which there is one at least and the last alone has
-- an empty end key, are a partition: each key is in one of them.
pub validate_region-IsPartition :
    (r : Region) (rest out : List Region)
    → validate_region (r ∷ rest) ≡ valid out
    → Closed (r ∷ rest)
    → IsPartition out
unfolding validate_from
validate_region-IsPartition r rest out h d key = elim (Bool-cases (is_empty r.start_key)) [
  | inr u ↦ cc (rw u at h)
  | inl t ↦
      let (o, (rs, hr, ho)) =
        checked-valid (with_end r) (validate_from (some (bytes_of r.end_key)) rest) out
          (passes (is_empty r.start_key) first_start_not_empty _ out t h) in
      rw ho (first_region r rest rs key t hr d ∙ rw (empty_eq r.start_key t) (every_key key))
]

-- validateRegion neither drops nor adds a region.
pub length-validate_from :
    (last : Option Bytes) (regions out : List Region)
    → validate_from last regions ≡ valid out
    → length out ≡ length regions
unfolding validate_from
length-validate_from last [] out h = elim (Bool-cases (is_empty (bytes_of last))) [
  | inl t ↦ let none_left : [] ≡ out = cc (rw t at h) in rw (← none_left) refl
  | inr u ↦ cc (rw u at h)
]
length-validate_from none (r ∷ rs) out h = elim (Bool-cases (is_empty r.start_key)) [
  | inr u ↦ cc (rw u at h)
  | inl t ↦
      let (o, (rs', hr, ho)) =
        checked-valid (with_end r) (validate_from (some (bytes_of r.end_key)) rs) out
          (passes (is_empty r.start_key) first_start_not_empty _ out t h) in
      rw ho (ap suc (length-validate_from (some (bytes_of r.end_key)) rs rs' hr))
]
length-validate_from (some last) (r ∷ rs) out h = elim (Bool-cases (equal r.start_key last)) [
  | inr u ↦ cc (rw u at h)
  | inl t ↦
      let (o, (rs', hr, ho)) = checked-valid r (validate_from r.end_key rs) out (rw t at h) in
      rw ho (ap suc (length-validate_from r.end_key rs rs' hr))
]

-- ===== src/Admin/Numbered.antt =====
-- The ids that doCreateCluster gives to the regions: `regionByID` leads from each to its region.
use mock_tikv.Prelude.{
  false, ℕ, suc, ◌+◌, ◌^◌, ◌≡◌, ◌≤◌, ◌<◌, refl, ap, ◌∙◌, List, [], ◌∷◌, Bytes, length, ◌==◌, arith,
}
use mock_tikv.Cluster.{Region, lookup_id, contains}
use mock_tikv.Cluster.Split.{holders, count}
use mock_tikv.Cluster.Placed.{Placed, IdsUpTo, lookup_new, other_id}
use mock_tikv.Server.{alloc_id}
use mock_tikv.Admin.Create.{number_regions}

pub number_regions-counter :
    (place counter : ℕ) (places : List (ℕ × ℕ)) (rs : List Region)
    → counter + length rs < 2 ^ 64
    → (number_regions place counter places rs).2 ≡ counter + length rs
unfolding number_regions
number_regions-counter place counter places [] h = omega arith
number_regions-counter place counter places (r ∷ rs) h = omega (
  arith,
  h,
  number_regions-counter (suc place) (alloc_id counter) ((alloc_id counter, place) ∷ places) rs
      (omega (arith, h)),
)

-- The ids given out before keep their places.
number_regions-lookup :
    (place counter : ℕ) (places : List (ℕ × ℕ)) (rs : List Region) (id : ℕ)
    → counter + length rs < 2 ^ 64
    → id ≤ counter
    → lookup_id (number_regions place counter places rs).1 id ≡ lookup_id places id
unfolding number_regions lookup_id
number_regions-lookup place counter places [] id h i = refl
number_regions-lookup place counter places (r ∷ rs) id h i =
    let new_id : ℕ = alloc_id counter in
    let other : (new_id == id) ≡ false = other_id id new_id (omega (arith, h, i)) in
    number_regions-lookup (suc place) new_id ((new_id, place) ∷ places) rs id (omega (arith, h))
      (omega (arith, h, i))
    ∙ rw other refl

pub number_regions-Placed :
    (place counter : ℕ) (places : List (ℕ × ℕ)) (rs : List Region)
    → counter + length rs < 2 ^ 64
    → Placed
        (number_regions place counter places rs).1
        place
        (number_regions place counter places rs).0
unfolding number_regions
number_regions-Placed place counter places [] h = tt
number_regions-Placed place counter places (r ∷ rs) h =
    let new_id : ℕ = alloc_id counter in
    let places' : List (ℕ × ℕ) = (new_id, place) ∷ places in
    let room : new_id + length rs < 2 ^ 64 = omega (arith, h) in
    (
      number_regions-lookup (suc place) new_id places' rs new_id room (omega arith)
          ∙ lookup_new places new_id place,
      number_regions-Placed (suc place) new_id places' rs room,
    )

pub number_regions-IdsUpTo :
    (place counter bound : ℕ) (places : List (ℕ × ℕ)) (rs : List Region)
    → counter + length rs < 2 ^ 64
    → counter + length rs ≤ bound
    → IdsUpTo bound (number_regions place counter places rs).0
unfolding number_regions
number_regions-IdsUpTo place counter bound places [] h b = tt
number_regions-IdsUpTo place counter bound places (r ∷ rs) h b =
    let new_id : ℕ = alloc_id counter in
    (
      omega (arith, h, b),
      number_regions-IdsUpTo (suc place) new_id bound ((new_id, place) ∷ places) rs
          (omega (arith, h)) (omega (arith, h, b)),
    )

pub number_regions-holders :
    (place counter : ℕ) (places : List (ℕ × ℕ)) (rs : List Region) (key : Bytes)
    → holders (number_regions place counter places rs).0 key ≡ holders rs key
unfolding number_regions holders contains
number_regions-holders place counter places [] key = refl
number_regions-holders place counter places (r ∷ rs) key =
    ap (λ n. count r key + n)
      (number_regions-holders (suc place) (alloc_id counter) ((alloc_id counter, place) ∷ places) rs
        key)

pub length-number_regions :
    (place counter : ℕ) (places : List (ℕ × ℕ)) (rs : List Region)
    → length (number_regions place counter places rs).0 ≡ length rs
unfolding number_regions
length-number_regions place counter places [] = refl
length-number_regions place counter places (r ∷ rs) =
    ap suc
      (length-number_regions (suc place) (alloc_id counter) ((alloc_id counter, place) ∷ places) rs)

-- ===== src/Admin/Initial.antt =====
-- What initRegions leaves: regions with the ids and keys that they had, each led by one peer.
use mock_tikv.Prelude.{
  ℕ, suc, ◌+◌, ◌*◌, ◌%◌, ◌^◌, ◌≡◌, ◌≤◌, ◌<◌, inl, inr, refl, ap, Option, none, some, List, [], ◌∷◌,
  Bytes, get_elem?, length, All, arith, Option-cases,
}
use mock_tikv.Cluster.{Region, contains}
use mock_tikv.Cluster.Split.{holders}
use mock_tikv.Cluster.Placed.{Placed, IdsUpTo}
use mock_tikv.Server.{alloc_id}
use mock_tikv.Store.{StoreInstance}
use mock_tikv.Store.Sound.{IsLed}
use mock_tikv.Admin.Create.{init_region, init_before, init_regions}

-- The regions before and after
abbrev pub IsInitial : List Region → List Region → Type 0
IsInitial [] [] = Unit
IsInitial [] (o ∷ os) = ⊥
IsInitial (r ∷ rs) [] = ⊥
IsInitial (r ∷ rs) (o ∷ os) =
    (o.id ≡ r.id)
    × (o.start_key ≡ r.start_key)
    × (o.end_key ≡ r.end_key)
    × IsLed o
    × IsInitial rs os

init_before_inv :
    (r : Region) (rest : Option (List Region × ℕ)) (out : List Region) (after : ℕ)
    → ◌≡◌ {A = Option (List Region × ℕ)} (init_before r rest) (some (out, after))
    → (os : List Region) × (◌≡◌ {A = Option (List Region × ℕ)} rest (some (os, after)))
      × (out ≡ r ∷ os)
init_before_inv r none out after h = cc h
init_before_inv r (some (os, n)) out after h =
    let same : n ≡ after = cc h in (os, ap (λ m. some (os, m)) same, cc h)

-- A region that init has made, with the ids that it has taken
pub init_region-IsLed :
    (r : Region) (counter : ℕ) (store : StoreInstance) → IsLed (init_region r counter store).0
unfolding init_region
init_region-IsLed r counter store =
    (record { id = alloc_id (alloc_id (alloc_id counter)); store_id = store.id }, refl, refl)

init_region-counter :
    (r : Region) (counter : ℕ) (store : StoreInstance)
    → counter + 3 < 2 ^ 64
    → (init_region r counter store).1 ≡ counter + 3
unfolding init_region
init_region-counter r counter store h = omega (arith, h)

pub init_regions-IsInitial :
    (i counter : ℕ) (stores : List StoreInstance) (rs out : List Region) (after : ℕ)
    → counter + 3 * length rs < 2 ^ 64
    → ◌≡◌ {A = Option (List Region × ℕ)} (init_regions i counter stores rs) (some (out, after))
    → IsInitial rs out × (counter ≤ after)
unfolding init_regions init_region
init_regions-IsInitial i counter stores [] out after room h =
    (rw (out_eq h) tt, omega (arith, after_eq h))
  where
    out_eq : ◌≡◌ {A = Option (List Region × ℕ)} (some ([], counter)) (some (out, after)) → out ≡ []
    out_eq q = cc q

    after_eq :
        ◌≡◌ {A = Option (List Region × ℕ)} (some ([], counter)) (some (out, after))
        → after ≡ counter
    after_eq q = cc q
init_regions-IsInitial i counter stores (r ∷ rs) out after room h =
    elim (Option-cases (get_elem? stores (i % length stores))) [
      | inl q ↦ cc (rw (q, init_regions) at h)
      | inr (store, q) ↦
          let (os, rest, cons) =
            init_before_inv (init_region r counter store).0
              (init_regions (suc i) (init_region r counter store).1 stores rs) out after
              (rw (q, init_regions) at h) in
          let count : (init_region r counter store).1 ≡ counter + 3 =
            init_region-counter r counter store (omega (arith, room)) in
          let (init, above) =
            init_regions-IsInitial (suc i) (init_region r counter store).1 stores rs os after
              (omega (arith, room, count)) rest in
          (
            rw cons (refl, refl, refl, init_region-IsLed r counter store, init),
            omega (arith, above, count),
          )
    ]

pub IsInitial-Placed :
    (places : List (ℕ × ℕ)) (n : ℕ) (rs out : List Region)
    → IsInitial rs out
    → Placed places n rs
    → Placed places n out
IsInitial-Placed places n [] [] h p = tt
IsInitial-Placed places n [] (o ∷ os) h p = absurd h
IsInitial-Placed places n (r ∷ rs) [] h p = absurd h
IsInitial-Placed places n (r ∷ rs) (o ∷ os) (i, s, e, l, h) (p, ps) =
    (rw i p, IsInitial-Placed places (suc n) rs os h ps)

pub IsInitial-IdsUpTo :
    (low high : ℕ) (rs out : List Region)
    → low ≤ high
    → IsInitial rs out
    → IdsUpTo low rs
    → IdsUpTo high out
IsInitial-IdsUpTo low high [] [] b h p = tt
IsInitial-IdsUpTo low high [] (o ∷ os) b h p = absurd h
IsInitial-IdsUpTo low high (r ∷ rs) [] b h p = absurd h
IsInitial-IdsUpTo low high (r ∷ rs) (o ∷ os) b (i, s, e, l, h) (p, ps) =
    (omega (arith, i, p, b), IsInitial-IdsUpTo low high rs os b h ps)

pub IsInitial-IsLed : (rs out : List Region) → IsInitial rs out → All IsLed out
IsInitial-IsLed [] [] h = tt
IsInitial-IsLed [] (o ∷ os) h = absurd h
IsInitial-IsLed (r ∷ rs) [] h = absurd h
IsInitial-IsLed (r ∷ rs) (o ∷ os) (i, s, e, l, h) = (l, IsInitial-IsLed rs os h)

pub IsInitial-holders :
    (rs out : List Region) (key : Bytes) → IsInitial rs out → holders out key ≡ holders rs key
unfolding holders contains
IsInitial-holders [] [] key h = refl
IsInitial-holders [] (o ∷ os) key h = absurd h
IsInitial-holders (r ∷ rs) [] key h = absurd h
IsInitial-holders (r ∷ rs) (o ∷ os) key (i, s, e, l, h) =
    rw (s, e, IsInitial-holders rs os key h) refl

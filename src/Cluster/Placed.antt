-- ===== src/Cluster/Placed.antt =====
-- The map `regionByID` agrees with the list of regions: each region is found under its id.
use mock_tikv.Prelude.{
  ℕ, zero, suc, ◌+◌, ◌≡◌, ◌≤◌, ◌<◌, inl, inr, refl, sym, ap, ◌∙◌, true, false, Option, some, List,
  [], ◌∷◌, ◌++◌, Bytes, get_elem?, length, All, ◌==◌, arith, Bool-cases,
}
use mock_tikv.Cluster.{
  Peer, Region, contains, leader_peer, find_by_key, find_by_id, lookup_id, set_at,
}

-- The ids of the regions lead to their places, which begin at a number.
abbrev pub Placed : List (ℕ × ℕ) → ℕ → List Region → Type 0
Placed places n [] = Unit
Placed places n (r ∷ rs) = (lookup_id places r.id ≡ some n) × Placed places (suc n) rs

-- Ids that have been given out
abbrev pub IdsUpTo : ℕ → List Region → Type 0
IdsUpTo bound = All (λ r. r.id ≤ bound)

pub Placed-at :
    (places : List (ℕ × ℕ)) (n : ℕ) (regions : List Region) (place : ℕ) (r : Region)
    → get_elem? regions place ≡ some r
    → Placed places n regions
    → lookup_id places r.id ≡ some (n + place)
Placed-at places n [] place r h p = cc h
Placed-at places n (x ∷ xs) zero r h (p, ps) =
    let same : x ≡ r = cc h in rw (← same) (p ∙ ap some (omega arith))
Placed-at places n (x ∷ xs) (suc place) r h (p, ps) =
    Placed-at places (suc n) xs place r h ps ∙ ap some (omega arith)

pub Placed-set_at :
    (places : List (ℕ × ℕ)) (n : ℕ) (regions : List Region) (place : ℕ) (r new : Region)
    → get_elem? regions place ≡ some r
    → new.id ≡ r.id
    → Placed places n regions
    → Placed places n (set_at regions place new)
unfolding set_at
Placed-set_at places n [] place r new h i p = tt
Placed-set_at places n (x ∷ xs) zero r new h i (p, ps) =
    let same : x ≡ r = cc h in (rw i (rw (← same) p), ps)
Placed-set_at places n (x ∷ xs) (suc place) r new h i (p, ps) =
    (p, Placed-set_at places (suc n) xs place r new h i ps)

pub Placed-append :
    (places : List (ℕ × ℕ)) (n : ℕ) (regions : List Region) (r : Region)
    → lookup_id places r.id ≡ some (n + length regions)
    → Placed places n regions
    → Placed places n (regions ++ r ∷ [])
Placed-append places n [] r h p = (h ∙ ap some (omega arith), tt)
Placed-append places n (x ∷ xs) r h (p, ps) =
    (p, Placed-append places (suc n) xs r (h ∙ ap some (omega arith)) ps)

pub other_id : (a b : ℕ) → a < b → (b == a) ≡ false
other_id a b h = ground arith

-- A new id does not hide those given out before.
pub Placed-new_id :
    (places : List (ℕ × ℕ)) (n : ℕ) (regions : List Region) (bound new_id place : ℕ)
    → bound < new_id
    → IdsUpTo bound regions
    → Placed places n regions
    → Placed ((new_id, place) ∷ places) n regions
unfolding lookup_id
Placed-new_id places n [] bound new_id place h b p = tt
Placed-new_id places n (x ∷ xs) bound new_id place h (b, bs) (p, ps) = (
  rw (other_id x.id new_id (omega (arith, b, h))) p,
  Placed-new_id places (suc n) xs bound new_id place h bs ps,
)

pub All-set_at {κ} :
    (P : Region → Type κ) (regions : List Region) (place : ℕ) (new : Region)
    → P new
    → All P regions
    → All P (set_at regions place new)
unfolding set_at
All-set_at P [] place new h a = tt
All-set_at P (x ∷ xs) zero new h (p, ps) = (h, ps)
All-set_at P (x ∷ xs) (suc place) new h (p, ps) = (p, All-set_at P xs place new h ps)

pub All-get_elem? {κ} :
    (P : Region → Type κ) (regions : List Region) (place : ℕ) (r : Region)
    → get_elem? regions place ≡ some r
    → All P regions
    → P r
All-get_elem? P [] place r h a = cc h
All-get_elem? P (x ∷ xs) zero r h (p, ps) = let same : x ≡ r = cc h in rw (← same) p
All-get_elem? P (x ∷ xs) (suc place) r h (p, ps) = All-get_elem? P xs place r h ps

pub length-set_at :
    (regions : List Region) (place : ℕ) (new : Region)
    → length (set_at regions place new) ≡ length regions
unfolding set_at
length-set_at [] place new = refl
length-set_at (x ∷ xs) zero new = refl
length-set_at (x ∷ xs) (suc place) new = ap suc (length-set_at xs place new)

-- What getRegionByKey finds has a place in the list and contains the key.
pub find_by_key-place :
    (regions : List Region) (key : Bytes) (r : Region) (leader : Option Peer)
    → find_by_key regions key ≡ some (r, leader)
    → (contains r key ≡ true)
      × (leader ≡ leader_peer r)
      × ((place : ℕ) × (get_elem? regions place ≡ some r))
unfolding find_by_key
find_by_key-place [] key r leader h = cc h
find_by_key-place (x ∷ xs) key r leader h = elim (Bool-cases (contains x key)) [
  | inl t ↦ found (rw t at h) t
  | inr u ↦
      let (c, l, (place, at)) = find_by_key-place xs key r leader (rw u at h) in
      (c, l, (suc place, at))
]
  where
    found :
        ◌≡◌ {A = Option (Region × Option Peer)} (some (x, leader_peer x)) (some (r, leader))
        → contains x key ≡ true
        → (contains r key ≡ true)
          × (leader ≡ leader_peer r)
          × ((place : ℕ) × (get_elem? (x ∷ xs) place ≡ some r))
    found q t =
        let same : x ≡ r = cc q in
        let leads : leader_peer x ≡ leader = cc q in
        (rw (← same) t, rw (← same) (sym leads), (0, ap some same))

not_here :
    (a b n m : ℕ) (places : List (ℕ × ℕ))
    → lookup_id places a ≡ some n
    → lookup_id places b ≡ some (suc n + m)
    → (a == b) ≡ false
not_here a b n m places p q = elim (Bool-cases (a == b)) [
  | inl t ↦
      let same : a ≡ b = ground (arith, t) in
      let n_eq : n ≡ suc n + m = cc (rw same at p, q) in absurd (omega (arith, n_eq))
  | inr u ↦ u
]

self_eq : (a : ℕ) → (a == a) ≡ true
self_eq a = ground arith

-- getRegionByID finds each region under its id.
pub find_by_id-Placed :
    (places : List (ℕ × ℕ)) (n : ℕ) (regions : List Region) (place : ℕ) (r : Region)
    → get_elem? regions place ≡ some r
    → Placed places n regions
    → find_by_id regions r.id ≡ some (r, leader_peer r)
unfolding find_by_id
find_by_id-Placed places n [] place r h p = cc h
find_by_id-Placed places n (x ∷ xs) zero r h p =
    let same : x ≡ r = cc h in rw same (rw (self_eq r.id) refl)
find_by_id-Placed places n (x ∷ xs) (suc place) r h (p, ps) =
    rw (not_here x.id r.id n place places p (Placed-at places (suc n) xs place r h ps))
      (find_by_id-Placed places (suc n) xs place r h ps)

pub lookup_new :
    (places : List (ℕ × ℕ)) (new_id place : ℕ)
    → lookup_id ((new_id, place) ∷ places) new_id ≡ some place
unfolding lookup_id
lookup_new places new_id place = rw (self_eq new_id) refl

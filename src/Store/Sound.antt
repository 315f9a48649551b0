-- ===== src/Store/Sound.antt =====
-- What a cluster in service keeps: its regions are a partition of the keys, found under ids that have
-- been given out, and each has one peer, which leads it. SplitRegion keeps it.
use mock_tikv.Prelude.{
  ℕ, ◌+◌, ◌^◌, ◌≡◌, ◌≤◌, ◌<◌, inl, inr, refl, ap, ◌∙◌, true, false, Option, none, some, List, [],
  ◌∷◌, ◌++◌, Bytes, get_elem?, length, All, All-append, is_empty, arith, Bool-cases,
}
use mock_tikv.Bytes.{equal, less, less_eq}
use mock_tikv.Key.{region_contains}
use mock_tikv.Cluster.{
  Peer, Region, Cluster, bytes_of, contains, find_by_key, lookup_id, set_at, split_peers,
  split_into, left_of, right_of, origin_at, at_place, split_raw,
}
use mock_tikv.Cluster.Split.{Inside, IsPartition, split_raw-IsPartition}
use mock_tikv.Cluster.Validate.Partition.{empty_eq}
use mock_tikv.Cluster.Placed.{
  Placed, IdsUpTo, Placed-at, Placed-set_at, Placed-append, Placed-new_id, All-set_at,
  All-get_elem?, length-set_at, lookup_new, find_by_key-place,
}
use mock_tikv.Server.{alloc_id, alloc_ids}
use mock_tikv.Store.{State}
use mock_tikv.Store.Split.{split_with, split_found}

-- A region of one peer, its leader
abbrev pub IsLed : Region → Type 0
IsLed r = (p : Peer) × (r.peers ≡ p ∷ []) × (r.leader ≡ p.id)

pub record IsSound {Db : Type 0} (st : State Db) : Type 0 where
  pub partition : IsPartition st.cluster.regions
  pub placed : Placed st.cluster.region_by_id 0 st.cluster.regions
  pub given_out : IdsUpTo st.id_alloc st.cluster.regions
  pub led : All IsLed st.cluster.regions

-- A region whose key is not its start has the key inside.
pub contains-Inside :
    (r : Region) (key : Bytes)
    → contains r key ≡ true
    → equal r.start_key key ≡ false
    → Inside r key
unfolding contains region_contains less less_eq equal
contains-Inside r key h n = (
  ground (arith, h, n),
  elim (Bool-cases (is_empty (bytes_of r.end_key))) [
    | inl t ↦ inl (empty_eq (bytes_of r.end_key) t)
    | inr u ↦ inr (ground (arith, h, u))
  ],
)

abbrev pub new_region : Region → ℕ → ℕ → Peer → Bytes → Region
new_region origin new_id new_peer p key =
    right_of origin new_id key (record { id = new_peer; store_id = p.store_id } ∷ []) new_peer

-- The cluster behind the split of a region with one peer
abbrev pub split_cluster : Cluster → ℕ → ℕ → ℕ → Region → Peer → Bytes → Cluster
split_cluster c place new_id new_peer origin p key = record c {
  regions =
      set_at c.regions place (left_of origin key) ++ new_region origin new_id new_peer p key ∷ [];
  region_by_id = (new_id, length c.regions) ∷ c.region_by_id;
}

-- A split of a region with one peer, at a place of the list
split_one_peer :
    (c : Cluster) (place new_id new_peer : ℕ) (origin : Region) (p : Peer) (key : Bytes)
    → lookup_id c.region_by_id origin.id ≡ some place
    → get_elem? c.regions place ≡ some origin
    → origin.peers ≡ p ∷ []
    → split_raw c origin.id new_id key (new_peer ∷ []) new_peer
      ≡ split_into
          (split_cluster c place new_id new_peer origin p key)
          (left_of origin key)
          (new_region origin new_id new_peer p key)
unfolding split_raw split_peers
split_one_peer c place new_id new_peer origin p key l h q =
    let there : origin_at c (lookup_id c.region_by_id origin.id) ≡ some (place, origin) =
      ap (origin_at c) l ∙ ap (at_place place) h in
    rw there (rw q refl)

IdsUpTo-mono : (a b : ℕ) (regions : List Region) → a ≤ b → IdsUpTo a regions → IdsUpTo b regions
IdsUpTo-mono a b [] h i = tt
IdsUpTo-mono a b (x ∷ xs) h (i, is) = (omega (arith, i, h), IdsUpTo-mono a b xs h is)

left-IsLed : (origin : Region) (key : Bytes) → IsLed origin → IsLed (left_of origin key)
left-IsLed origin key (p, q, l) = (p, q, l)

-- The two ids that a split of a region with one peer takes
two_ids :
    (id_alloc : ℕ)
    → id_alloc + 2 < 2 ^ 64
    → (alloc_id id_alloc ≡ id_alloc + 1) × (alloc_id (alloc_id id_alloc) ≡ id_alloc + 2)
two_ids id_alloc h = (omega (arith, h), omega (arith, h))

-- The state behind a split of a region with one peer
split_cluster-IsSound :
    {Db : Type 0} (st : State Db) (place new_id new_peer : ℕ) (origin : Region) (p : Peer)
    (key : Bytes)
    → IsSound st
    → st.id_alloc < new_id
    → new_id ≤ new_peer
    → get_elem? st.cluster.regions place ≡ some origin
    → origin.peers ≡ p ∷ []
    → Inside origin key
    → IsSound (record st {
      cluster = split_cluster st.cluster place new_id new_peer origin p key;
      id_alloc = new_peer;
    })
unfolding lookup_id
split_cluster-IsSound st place new_id new_peer origin p key sound fresh above h q i =
    let c : Cluster = st.cluster in
    let l : lookup_id c.region_by_id origin.id ≡ some place =
      Placed-at c.region_by_id 0 c.regions place origin h sound.placed ∙ ap some (omega arith) in
    let new : Region = new_region origin new_id new_peer p key in
    record {
      partition =
          split_raw-IsPartition c (split_cluster c place new_id new_peer origin p key) origin.id
            new_id key (new_peer ∷ []) new_peer place origin (left_of origin key) new l h i
            (split_one_peer c place new_id new_peer origin p key l h q) sound.partition;
      placed =
          Placed-append ((new_id, length c.regions) ∷ c.region_by_id) 0
            (set_at c.regions place (left_of origin key)) new
            (lookup_new c.region_by_id new_id (length c.regions)
              ∙ ap some (omega (arith, length-set_at c.regions place (left_of origin key))))
            (Placed-set_at ((new_id, length c.regions) ∷ c.region_by_id) 0 c.regions place origin
              (left_of origin key) h refl
              (Placed-new_id c.region_by_id 0 c.regions st.id_alloc new_id (length c.regions) fresh
                sound.given_out sound.placed));
      given_out =
          All-append (λ r. r.id ≤ new_peer) (set_at c.regions place (left_of origin key)) (new ∷ [])
            (All-set_at (λ r. r.id ≤ new_peer) c.regions place (left_of origin key)
              (All-get_elem? (λ r. r.id ≤ new_peer) c.regions place origin h
                (IdsUpTo-mono st.id_alloc new_peer c.regions (omega (arith, fresh, above))
                  sound.given_out))
              (IdsUpTo-mono st.id_alloc new_peer c.regions (omega (arith, fresh, above))
                sound.given_out))
            (above, tt);
      led =
          All-append IsLed (set_at c.regions place (left_of origin key)) (new ∷ [])
            (All-set_at IsLed c.regions place (left_of origin key)
              (left-IsLed origin key (All-get_elem? IsLed c.regions place origin h sound.led))
              sound.led)
            ((record { id = new_peer; store_id = p.store_id }, refl, refl), tt);
    }

split_with-IsSound :
    {Db : Type 0} (st : State Db) (place : ℕ) (origin : Region) (p : Peer) (key : Bytes)
    → IsSound st
    → st.id_alloc + 2 < 2 ^ 64
    → get_elem? st.cluster.regions place ≡ some origin
    → origin.peers ≡ p ∷ []
    → Inside origin key
    → IsSound
        (split_with st origin key
          (alloc_id st.id_alloc)
          (alloc_ids (length origin.peers) (alloc_id st.id_alloc))).0
unfolding split_with alloc_ids
split_with-IsSound st place origin p key sound room h q i =
    let (one, two) = two_ids st.id_alloc room in
    let l : lookup_id st.cluster.region_by_id origin.id ≡ some place =
      Placed-at st.cluster.region_by_id 0 st.cluster.regions place origin h sound.placed
      ∙ ap some (omega arith) in
    rw q (
      rw
        (split_one_peer st.cluster place (alloc_id st.id_alloc) (alloc_id (alloc_id st.id_alloc))
          origin p key l h q)
        (split_cluster-IsSound st place (alloc_id st.id_alloc) (alloc_id (alloc_id st.id_alloc))
          origin p key sound (omega (arith, one)) (omega (arith, one, two)) h q i))

pub split_found-IsSound :
    {Db : Type 0} (st : State Db) (key : Bytes) (found : Option (Region × Option Peer))
    → find_by_key st.cluster.regions key ≡ found
    → IsSound st
    → st.id_alloc + 2 < 2 ^ 64
    → IsSound (split_found st key found).0
unfolding split_found
split_found-IsSound st key none h sound room = elim (Bool-cases (is_empty key)) [
  | inl t ↦ rw t sound
  | inr u ↦
      let (one, two) = two_ids st.id_alloc room in
      rw u (record {
        partition = sound.partition;
        placed = sound.placed;
        given_out =
            IdsUpTo-mono st.id_alloc (alloc_id st.id_alloc) st.cluster.regions (omega (arith, one))
              sound.given_out;
        led = sound.led;
      })
]
split_found-IsSound st key (some (region, leader)) h sound room =
    elim (Bool-cases (equal region.start_key key)) [
      | inl t ↦ rw t sound
      | inr u ↦
          let (holds, leads, (place, at)) =
            find_by_key-place st.cluster.regions key region leader h in
          let (p, one, leader_id) =
            All-get_elem? IsLed st.cluster.regions place region at sound.led in
          rw u (
            split_with-IsSound st place region p key sound room at one
              (contains-Inside region key holds u))
    ]

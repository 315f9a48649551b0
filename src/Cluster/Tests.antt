-- ===== src/Cluster/Tests.antt =====
-- A cluster of one region for all keys, and its split.
use mock_tikv.Prelude.{none, ◌≡◌, inl, refl, some, [], ◌∷◌}
use mock_tikv.Bytes.{equal, cmp, less, less_eq}
use mock_tikv.Key.{region_contains}
use mock_tikv.Cluster.{
  Region, Cluster, contains, lookup_id, set_at, split_peers, left_of, right_of, split_into,
  split_raw,
}
use mock_tikv.Cluster.Split.{Inside, IsPartition, holders, split_raw-IsPartition}
use mock_tikv.Cluster.Validate.{validate_from, validate_region, valid}
use mock_tikv.Cluster.Validate.Partition.{validate_region-IsPartition}

abbrev all_keys : Region
all_keys = record {
  id = 4;
  start_key = [];
  end_key = some [];
  conf_ver = 1;
  version = 2;
  peers = record { id = 3; store_id = 1 } ∷ [];
  leader = 3;
}

abbrev one_region : Cluster
one_region = record {
  cluster_id = 1;
  max_peer_count = 3;
  safe_point = 0;
  regions = all_keys ∷ [];
  region_by_id = (4, 0) ∷ [];
}

one_region-IsPartition : IsPartition one_region.regions
unfolding holders contains region_contains less less_eq cmp
one_region-IsPartition [] = refl
one_region-IsPartition (x ∷ key) = refl

abbrev split_one : Cluster
split_one = record one_region {
  regions =
      left_of all_keys (109 ∷ [])
      ∷ right_of all_keys 5 (109 ∷ []) (record { id = 6; store_id = 1 } ∷ []) 6
      ∷ [];
  region_by_id = (5, 1) ∷ (4, 0) ∷ [];
}

splits :
    split_raw one_region 4 5 (109 ∷ []) (6 ∷ []) 6
    ≡ split_into split_one
        (left_of all_keys (109 ∷ []))
        (right_of all_keys 5 (109 ∷ []) (record { id = 6; store_id = 1 } ∷ []) 6)
unfolding split_raw lookup_id set_at split_peers
splits = refl

found : lookup_id one_region.region_by_id 4 ≡ some 0
unfolding lookup_id
found = refl

inside : Inside all_keys (109 ∷ [])
unfolding cmp
inside = (refl, inl refl)

split_raw-IsPartition_example : IsPartition split_one.regions
split_raw-IsPartition_example =
    split_raw-IsPartition one_region split_one 4 5 (109 ∷ []) (6 ∷ []) 6 0 all_keys
      (left_of all_keys (109 ∷ []))
      (right_of all_keys 5 (109 ∷ []) (record { id = 6; store_id = 1 } ∷ []) 6) found refl inside
      splits one_region-IsPartition

-- Three regions in a row
abbrev low : Region
low = record all_keys { end_key = some (102 ∷ []) }

abbrev middle : Region
middle = record all_keys { start_key = 102 ∷ []; end_key = some (109 ∷ []) }

abbrev high : Region
high = record all_keys { start_key = 109 ∷ []; end_key = none }

accepted : validate_region (low ∷ middle ∷ high ∷ []) ≡ valid (low ∷ middle ∷ high ∷ [])
unfolding validate_from less equal cmp
accepted = refl

validate_region-IsPartition_example : IsPartition (low ∷ middle ∷ high ∷ [])
validate_region-IsPartition_example =
    validate_region-IsPartition low (middle ∷ high ∷ []) (low ∷ middle ∷ high ∷ []) accepted
      (refl, (refl, tt))

-- Two regions for all keys are accepted as well.
overlapping : validate_region (all_keys ∷ all_keys ∷ []) ≡ valid (all_keys ∷ all_keys ∷ [])
unfolding validate_from less equal cmp
overlapping = refl

-- ===== src/Cluster/Validate.antt =====
-- validateRegion of server/cluster.go: the check of the regions that a new cluster is given. The texts
-- of its errors are left out.
pub mod Partition
use mock_tikv.Prelude.{
  Bool, true, false, not, Option, none, some, List, [], ◌∷◌, Bytes, ◌&&◌, if◌then◌else◌, is_empty,
}
use mock_tikv.Bytes.{equal, less}
use mock_tikv.Cluster.{Region, bytes_of}

-- The errors of validateRegion, in the order of the source, and the regions, as it has left them
pub data Checked : Type 0 where
  first_start_not_empty start_is_not_last_end start_not_below_end last_end_not_empty : Checked
  valid : List Region → Checked

-- The region before the others, if they are valid
abbrev pub before : Region → Checked → Checked
before r (valid rs) = valid (r ∷ rs)
before r first_start_not_empty = first_start_not_empty
before r start_is_not_last_end = start_is_not_last_end
before r start_not_below_end = start_not_below_end
before r last_end_not_empty = last_end_not_empty

-- The test of a region's own keys
abbrev pub out_of_order : Region → Bool
out_of_order r =
    not (is_empty (bytes_of r.end_key))
    && not (is_empty r.start_key)
    && not (less r.start_key (bytes_of r.end_key))

-- region.EndKey = emptyKey, if it is nil
abbrev pub with_end : Region → Region
with_end r = record r { end_key = some (bytes_of r.end_key) }

-- The end of a round, behind the tests of the start key
abbrev pub checked : Region → Checked → Checked
checked r rest = if out_of_order r then start_not_below_end else before r rest

-- The loop of validateRegion, with `lastEndKey`, which is nil before the first region, and again
-- behind a later region with a nil end key.
unfoldable pub validate_from : Option Bytes → List Region → Checked
validate_from last [] = if not (is_empty (bytes_of last)) then last_end_not_empty else valid []
validate_from none (r ∷ rs) =
    let rest = validate_from (some (bytes_of r.end_key)) rs in
    if not (is_empty r.start_key) then first_start_not_empty else checked (with_end r) rest
validate_from (some last) (r ∷ rs) =
    let rest = validate_from r.end_key rs in
    if not (equal r.start_key last) then start_is_not_last_end else checked r rest

-- validateRegion
abbrev pub validate_region : List Region → Checked
validate_region regions = validate_from none regions

-- ===== src/Marshal/Partial.antt =====
-- What UnmarshalBinary of mvccLock and mvccValue in server/mvcc.go leaves in a zero struct, whether it
-- fails or not: the fields up to the first that cannot be read.
use mock_tikv.Prelude.{◌≡◌, arith, Option, none, some, [], Bytes}
use mock_tikv.Errors.{Result, ok, err, >>=-eq-ok}
use mock_tikv.Marshal.{
  MvccLock, MvccValue, read_number, read_slice, unmarshal_lock, unmarshal_value,
}

-- marshalHelper, by what is left to read: `none` once it has an error, and then a field stays zero.
abbrev read_field :
    {A : Type 0} → A → (Bytes → Result (A × Bytes)) → Option Bytes → A × Option Bytes
read_field zero_value read none = (zero_value, none)
read_field zero_value read (some b) = elim (read b) [
  | err x ↦ (zero_value, none)
  | ok r ↦ (r.0, some r.1)
]

unfoldable pub partial_lock : Bytes → MvccLock
partial_lock payload =
    let start_ts = read_field 0 (read_number 8) (some payload) in
    let primary = read_field [] read_slice start_ts.1 in
    let value = read_field [] read_slice primary.1 in
    let op = read_field 0 (read_number 4) value.1 in
    let ttl = read_field 0 (read_number 8) op.1 in
    record {
      start_ts = start_ts.0;
      primary = primary.0;
      value = value.0;
      op = op.0;
      ttl = ttl.0;
      min_commit_ts = 0;
    }

unfoldable pub partial_value : Bytes → MvccValue
partial_value payload =
    let value_type = read_field 0 (read_number 8) (some payload) in
    let start_ts = read_field 0 (read_number 8) value_type.1 in
    let commit_ts = read_field 0 (read_number 8) start_ts.1 in
    let value = read_field [] read_slice commit_ts.1 in
    record {
      value_type = value_type.0;
      start_ts = start_ts.0;
      commit_ts = commit_ts.0;
      value = value.0;
    }

-- Where UnmarshalBinary succeeds, this is what it gives.
partial_value-unmarshal_value :
    (b : Bytes) (v : MvccValue) → unmarshal_value b ≡ ok v → partial_value b ≡ v
unfolding partial_value unmarshal_value
partial_value-unmarshal_value b v h =
    let (r1, q1, h1) = >>=-eq-ok (read_number 8 b) _ h in
    let (r2, q2, h2) = >>=-eq-ok (read_number 8 r1.1) _ h1 in
    let (r3, q3, h3) = >>=-eq-ok (read_number 8 r2.1) _ h2 in
    let (r4, q4, h4) = >>=-eq-ok (read_slice r3.1) _ h3 in ground (arith, q1, q2, q3, q4, h4)

partial_lock-unmarshal_lock :
    (b : Bytes) (l : MvccLock) → unmarshal_lock b ≡ ok l → partial_lock b ≡ l
unfolding partial_lock unmarshal_lock
partial_lock-unmarshal_lock b l h =
    let (r1, q1, h1) = >>=-eq-ok (read_number 8 b) _ h in
    let (r2, q2, h2) = >>=-eq-ok (read_slice r1.1) _ h1 in
    let (r3, q3, h3) = >>=-eq-ok (read_slice r2.1) _ h2 in
    let (r4, q4, h4) = >>=-eq-ok (read_number 4 r3.1) _ h3 in
    let (r5, q5, h5) = >>=-eq-ok (read_number 8 r4.1) _ h4 in ground (arith, q1, q2, q3, q4, q5, h5)

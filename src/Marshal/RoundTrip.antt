-- ===== src/Marshal/RoundTrip.antt =====
-- What MarshalBinary writes, UnmarshalBinary reads back.
use mock_tikv.Prelude.{
  ℕ, ◌^◌, ◌<◌, ◌≤◌, ◌≡◌, refl, false, [], ◌++◌, Bytes, arith, ltb, length, take, drop, take-append,
  drop-append, append_assoc, append-nil, length-append,
}
use mock_tikv.Errors.{ok}
use mock_tikv.Bytes.Endian.{le_bytes}
use mock_tikv.Bytes.Endian.Little.{length-le_bytes, le_value-le_bytes}
use mock_tikv.Marshal.{
  MvccLock, MvccValue, write_number, write_slice, read_number, read_slice, c10_m, marshal_lock,
  unmarshal_lock, marshal_value, unmarshal_value,
}
use mock_tikv.Marshal.Varint.{read_uvarint-put_uvarint}

split_front : (a s : Bytes) (n : ℕ) → length a ≡ n → (take n (a ++ s) ≡ a) × (drop n (a ++ s) ≡ s)
split_front a s n h = (rw h at (take-append a s), rw h at (drop-append a s))

enough : (a s : Bytes) (n : ℕ) → length a ≡ n → ltb (length (a ++ s)) n ≡ false
enough a s n h = ground (arith, length-append a s)

pub read_number-write_number :
    (n v : ℕ) (rest : Bytes) → v < 256 ^ n → read_number n (write_number n v ++ rest) ≡ ok (v, rest)
unfolding read_number write_number
read_number-write_number n v rest h =
    let l : length (le_bytes n v) ≡ n = length-le_bytes n v in
    let (t, d) = split_front (le_bytes n v) rest n l in
    rw (enough (le_bytes n v) rest n l, t, d, le_value-le_bytes n v h)

not_too_large : (n : ℕ) → n ≤ c10_m → ltb c10_m n ≡ false
not_too_large n h = ground arith

pub read_slice-write_slice :
    (slice rest : Bytes)
    → length slice ≤ c10_m
    → read_slice (write_slice slice ++ rest) ≡ ok (slice, rest)
unfolding read_slice write_slice
read_slice-write_slice slice rest h =
    let (t, d) = split_front slice rest (length slice) refl in
    rw (append_assoc, read_uvarint-put_uvarint (length slice) (slice ++ rest) (omega arith))
      (rw (not_too_large (length slice) h, enough slice rest (length slice) refl, t, d))

read_slice_end :
    (slice : Bytes) → length slice ≤ c10_m → read_slice (write_slice slice) ≡ ok (slice, [])
read_slice_end slice h = rw append-nil at (read_slice-write_slice slice [] h)

read_number_end : (n v : ℕ) → v < 256 ^ n → read_number n (write_number n v) ≡ ok (v, [])
read_number_end n v h = rw append-nil at (read_number-write_number n v [] h)

-- The sizes that the binary form has room for: words of 64 bits, an `op` of 32 bits, and slices of at
-- most 10 MiB.
pub record LockFits (l : MvccLock) : Type 0 where
  pub start_ts_fits : l.start_ts < 256 ^ 8
  pub primary_fits : length l.primary ≤ c10_m
  pub value_fits : length l.value ≤ c10_m
  pub op_fits : l.op < 256 ^ 4
  pub ttl_fits : l.ttl < 256 ^ 8

pub record ValueFits (v : MvccValue) : Type 0 where
  pub type_fits : v.value_type < 256 ^ 8
  pub start_ts_fits : v.start_ts < 256 ^ 8
  pub commit_ts_fits : v.commit_ts < 256 ^ 8
  pub value_fits : length v.value ≤ c10_m

-- A value is read back whole, if its numbers are uint64 and its bytes are 10 MiB at most.
pub unmarshal_value-marshal_value :
    (v : MvccValue) → ValueFits v → unmarshal_value (marshal_value v) ≡ ok v
unfolding unmarshal_value marshal_value
unmarshal_value-marshal_value v h = rw (
  read_number-write_number 8 v.value_type _ h.type_fits,
  read_number-write_number 8 v.start_ts _ h.start_ts_fits,
  read_number-write_number 8 v.commit_ts _ h.commit_ts_fits,
  read_slice_end v.value h.value_fits,
)

-- A lock is read back with every field but `min_commit_ts`, which comes back as 0, if its other
-- numbers fit their width and its byte strings are 10 MiB at most.
pub unmarshal_lock-marshal_lock :
    (l : MvccLock)
    → LockFits l
    → unmarshal_lock (marshal_lock l) ≡ ok (record l { min_commit_ts = 0 })
unfolding unmarshal_lock marshal_lock
unmarshal_lock-marshal_lock l h = rw (
  read_number-write_number 8 l.start_ts _ h.start_ts_fits,
  read_slice-write_slice l.primary _ h.primary_fits,
  read_slice-write_slice l.value _ h.value_fits,
  read_number-write_number 4 l.op _ h.op_fits,
  read_number_end 8 l.ttl h.ttl_fits,
)

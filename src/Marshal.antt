-- ===== src/Marshal.antt =====
-- The binary forms of locks and values: mvccLock, mvccValue and marshalHelper of server/mvcc.go.
mod Tests
pub mod Varint
pub mod RoundTrip
pub mod Partial
use mock_tikv.Prelude.{
  ℕ, zero, suc, ◌+◌, ◌*◌, ◌/◌, ◌%◌, ◌^◌, Bool, true, false, [], ◌∷◌, ◌++◌, Bytes, length, take,
  drop, ltb, leb, ◌==◌, if◌then◌else◌, ◌&&◌, ◌||◌, u64_mod,
}
use mock_tikv.Errors.{Result, ok, err, unexpected_eof, varint_overflow, too_large_slice, ◌>>=◌}
use mock_tikv.Bytes.Endian.{le_bytes, le_value}

-- mvccValueType, as the int64 that is written. Any other number may be read.
abbrev pub type_put : ℕ
type_put = 0

abbrev pub type_delete : ℕ
type_delete = 1

abbrev pub type_rollback : ℕ
type_rollback = 2

pub record MvccValue : Type 0 where
  pub value_type : ℕ
  pub start_ts : ℕ
  pub commit_ts : ℕ
  pub value : Bytes

-- `op` is the number of a kvrpcpb.Op.
pub record MvccLock : Type 0 where
  pub start_ts : ℕ
  pub primary : Bytes
  pub value : Bytes
  pub op : ℕ
  pub ttl : ℕ
  pub min_commit_ts : ℕ

-- binary.PutUvarint: seven bits a byte, low bits first. A uint64 takes at most ten rounds.
unfoldable pub put_uvarint : ℕ → ℕ → Bytes
put_uvarint zero x = x ∷ []
put_uvarint (suc fuel) x =
    let more = (x % 128 + 128) ∷ put_uvarint fuel (x / 128) in if ltb x 128 then x ∷ [] else more

-- binary.ReadUvarint, at byte `i`, with `x` read so far. A shift by 64 or more gives 0.
unfoldable pub read_uvarint : Bytes → ℕ → ℕ → Result (ℕ × Bytes)
read_uvarint [] i x = err unexpected_eof
read_uvarint (b ∷ rest) i x =
    let x' = (x + b % 128 * 2 ^ (7 * i)) % u64_mod in
    let more = read_uvarint rest (i + 1) x' in
    if ltb b 128
    then (if ltb 9 i || (i == 9 && ltb 1 b) then err varint_overflow else ok (x', rest))
    else more

-- marshalHelper.WriteNumber into a bytes.Buffer, which does not fail; `n` is the number's width.
unfoldable pub write_number : ℕ → ℕ → Bytes
write_number n v = le_bytes n v

-- marshalHelper.WriteSlice
unfoldable pub write_slice : Bytes → Bytes
write_slice slice = put_uvarint 9 (length slice) ++ slice

-- marshalHelper.ReadNumber. After an error the helper reads no more: the `do` blocks below.
unfoldable pub read_number : ℕ → Bytes → Result (ℕ × Bytes)
read_number n b =
    if ltb (length b) n then err unexpected_eof else ok (le_value (take n b), drop n b)

-- 10M
abbrev pub c10_m : ℕ
c10_m = 10 * 1024 * 1024

-- marshalHelper.ReadSlice
unfoldable pub read_slice : Bytes → Result (Bytes × Bytes)
read_slice b = do
  (sz, rest) ← read_uvarint b 0 0
  if ltb c10_m sz
      then err too_large_slice
      else if ltb (length rest) sz
      then err unexpected_eof
      else ok (take sz rest, drop sz rest)

-- mvccLock.MarshalBinary: `min_commit_ts` is not written.
unfoldable pub marshal_lock : MvccLock → Bytes
marshal_lock l =
    write_number 8 l.start_ts
    ++ (write_slice l.primary
        ++ (write_slice l.value ++ (write_number 4 l.op ++ write_number 8 l.ttl)))

-- mvccLock.UnmarshalBinary into a zero lock
unfoldable pub unmarshal_lock : Bytes → Result MvccLock
unmarshal_lock payload = do
  (start_ts, b) ← read_number 8 payload
  (primary, b) ← read_slice b
  (value, b) ← read_slice b
  (op, b) ← read_number 4 b
  (ttl, b) ← read_number 8 b
  ok (record {
    start_ts = start_ts;
    primary = primary;
    value = value;
    op = op;
    ttl = ttl;
    min_commit_ts = 0;
  })

-- mvccValue.MarshalBinary
unfoldable pub marshal_value : MvccValue → Bytes
marshal_value v =
    write_number 8 v.value_type
    ++ (write_number 8 v.start_ts ++ (write_number 8 v.commit_ts ++ write_slice v.value))

-- mvccValue.UnmarshalBinary
unfoldable pub unmarshal_value : Bytes → Result MvccValue
unmarshal_value payload = do
  (value_type, b) ← read_number 8 payload
  (start_ts, b) ← read_number 8 b
  (commit_ts, b) ← read_number 8 b
  (value, b) ← read_slice b
  ok (record { value_type = value_type; start_ts = start_ts; commit_ts = commit_ts; value = value })

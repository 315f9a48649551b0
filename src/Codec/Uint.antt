-- ===== src/Codec/Uint.antt =====
-- EncodeUintDesc and DecodeUintDesc.
use Prim.Native.Nat.{compare}
use native.Mathlib.Nat.{mod-eq_of_lt}
use mock_tikv.Prelude.{
  ℕ, ◌-◌, ◌<◌, ◌≡◌, ◌^◌, [], ◌++◌, Bytes, IsU64, IsByte, max_u64, length, take, drop, length-append,
  arith, take-append, drop-append, ltb, false, All,
}
use mock_tikv.Errors.{ok}
use mock_tikv.Bytes.{cmp}
use mock_tikv.Bytes.Endian.{be_bytes, be_value}
use mock_tikv.Bytes.Endian.Big.{length-be_bytes, be_value-be_bytes, cmp-be_bytes, be_bytes-IsByte}
use mock_tikv.Codec.{encode_uint_desc, decode_uint_desc}

take_eight : (a s : Bytes) → length a ≡ 8 → (take 8 (a ++ s) ≡ a) × (drop 8 (a ++ s) ≡ s)
take_eight a s h = (rw h at (take-append a s), rw h at (drop-append a s))

long_enough : (a s : Bytes) → length a ≡ 8 → ltb (length (a ++ s)) 8 ≡ false
long_enough a s h = ground (arith, length-append a s)

below_mod : (v : ℕ) → max_u64 - v < 256 ^ 8
below_mod v = omega arith

-- DecodeUintDesc returns the uint64 that EncodeUintDesc was given, and leaves whatever follows.
pub decode_uint_desc-encode_uint_desc :
    (v : ℕ) (rest : Bytes)
    → IsU64 v
    → decode_uint_desc (encode_uint_desc [] v ++ rest) ≡ ok (rest, v)
unfolding decode_uint_desc encode_uint_desc
decode_uint_desc-encode_uint_desc v rest h =
    let a : Bytes = be_bytes 8 (max_u64 - v) in
    let (t, d) = take_eight a rest (length-be_bytes 8 (max_u64 - v)) in
    let n : ltb (length (a ++ rest)) 8 ≡ false =
      long_enough a rest (length-be_bytes 8 (max_u64 - v)) in
    let back : max_u64 - be_value a ≡ v =
      omega (arith, be_value-be_bytes 8 (max_u64 - v), mod-eq_of_lt (below_mod v)) in
    rw (n, t, d, back)

-- Of two uint64 numbers the larger has the smaller encoding.
pub cmp-encode_uint_desc :
    (a b : ℕ)
    → IsU64 a
    → IsU64 b
    → cmp (encode_uint_desc [] a) (encode_uint_desc [] b) ≡ compare b a
unfolding encode_uint_desc
cmp-encode_uint_desc a b ha hb = rw (cmp-be_bytes 8 (max_u64 - a) (max_u64 - b)) (ground arith)

pub length-encode_uint_desc : (v : ℕ) → length (encode_uint_desc [] v) ≡ 8
unfolding encode_uint_desc
length-encode_uint_desc v = length-be_bytes 8 (max_u64 - v)

pub encode_uint_desc-IsByte : (v : ℕ) → All IsByte (encode_uint_desc [] v)
unfolding encode_uint_desc
encode_uint_desc-IsByte v = be_bytes-IsByte 8 (max_u64 - v)

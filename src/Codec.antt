-- ===== src/Codec.antt =====
-- server/codec.go: the memory-comparable encoding of byte strings, and the descending encoding of
-- uint64 numbers. Its children hold the laws.
mod Tests
pub mod Flat
pub mod Decode
pub mod Order
pub mod Uint
pub mod Reverse
use mock_tikv.Prelude.{
  ℕ, zero, suc, ◌+◌, ◌-◌, ◌*◌, ◌/◌, ◌%◌, ◌^◌, ◌≡◌, Bool, true, false, Option, none, some, List, [],
  ◌∷◌, ◌++◌, Bytes, length, take, drop, replicate, ltb, leb, ◌==◌, if◌then◌else◌, is_empty, not,
  map, max_u64,
}
use mock_tikv.Errors.{
  Result, ok, err, Error, insufficient_bytes, invalid_marker, invalid_padding, ◌>>=◌,
}
use mock_tikv.Bytes.Endian.{le_bytes, le_value, be_bytes, be_value}

abbrev pub enc_group_size : ℕ
enc_group_size = 8

abbrev pub enc_marker : ℕ
enc_marker = 0xff

abbrev pub enc_pad : ℕ
enc_pad = 0x0

-- ^b on a byte
abbrev pub complement : ℕ → ℕ
complement b = 255 - b

-- The loop of EncodeBytes, with `rest` for `data[idx:]`: it goes on while idx <= len(data), so its
-- last round is the one with fewer than eight bytes. `length data + 1` rounds are enough.
unfoldable pub encode_groups : ℕ → Bytes → Bytes → Bytes
encode_groups zero rest result = result
encode_groups (suc fuel) rest result =
    let full =
      encode_groups fuel (drop enc_group_size rest)
        (result ++ take enc_group_size rest ++ enc_marker ∷ []) in
    let pad_count = enc_group_size - length rest in
    if leb enc_group_size (length rest)
    then full
    else result ++ rest ++ replicate pad_count enc_pad ++ (enc_marker - pad_count) ∷ []

-- EncodeBytes. (`reallocBytes` changes the capacity of `b`, and not what it holds.)
unfoldable pub encode_bytes : Bytes → Bytes → Bytes
unfolding encode_groups
encode_bytes b payload = encode_groups (suc (length payload)) payload b

abbrev pub head_or : ℕ → Bytes → ℕ
head_or d [] = d
head_or d (x ∷ xs) = x

abbrev pub all_eq : ℕ → Bytes → Bool
all_eq v [] = true
all_eq v (x ∷ xs) = if x == v then all_eq v xs else false

-- What decodeBytes reads of one group and its marker: the bytes that are no padding, and whether the
-- group is the last.
unfoldable pub decode_group : Bool → Bytes → ℕ → Result (Bytes × Bool)
decode_group reverse group marker =
    let pad_count = if reverse then marker else (enc_marker + 256 - marker) % 256 in
    let real_group_size = enc_group_size - pad_count in
    let pad_byte = if reverse then enc_marker else enc_pad in
    if ltb enc_group_size pad_count
    then err invalid_marker
    else if pad_count == 0
    then ok (take real_group_size group, false)
    else if all_eq pad_byte (drop real_group_size group)
    then ok (take real_group_size group, true)
    else err invalid_padding

-- The loop of decodeBytes, up to the complement at its end. A round takes nine bytes, so more rounds
-- than `b` has bytes are enough, and the first clause is not reached.
unfoldable pub decode_groups : ℕ → Bytes → Bytes → Bool → Result (Bytes × Bytes)
decode_groups zero b buf reverse = err insufficient_bytes
decode_groups (suc fuel) b buf reverse =
    let b' = drop (enc_group_size + 1) b in
    if ltb (length b) (enc_group_size + 1) then err insufficient_bytes else do
      (real_group, last) ←
          decode_group reverse (take enc_group_size b) (head_or 0 (drop enc_group_size b))
      let more = decode_groups fuel b' (buf ++ real_group) reverse
      if last then ok (b', buf ++ real_group) else more

-- safeReverseBytes
unfoldable pub safe_reverse_bytes : Bytes → Bytes
safe_reverse_bytes b = map complement b

-- The first loop of fastReverseBytes: `w` machine words of `word_size` bytes, low byte first, each
-- complemented whole; then the second loop, over the bytes that are left.
unfoldable pub reverse_words : ℕ → ℕ → Bytes → Bytes
unfolding safe_reverse_bytes le_bytes le_value
reverse_words word_size zero b = safe_reverse_bytes b
reverse_words word_size (suc w) b =
    le_bytes word_size (256 ^ word_size - 1 - le_value (take word_size b))
    ++ reverse_words word_size w (drop word_size b)

-- fastReverseBytes, on a machine with words of `word_size` bytes
unfoldable pub fast_reverse_bytes : ℕ → Bytes → Bytes
unfolding reverse_words
fast_reverse_bytes word_size b = reverse_words word_size (length b / word_size) b

-- What the build fixes: wordSize, and whether GOARCH is 386 or amd64.
pub record Arch : Type 0 where
  pub word_size : ℕ
  pub supports_unaligned : Bool

-- reverseBytes
unfoldable pub reverse_bytes : Arch → Bytes → Bytes
unfolding safe_reverse_bytes fast_reverse_bytes
reverse_bytes arch b =
    if arch.supports_unaligned then fast_reverse_bytes arch.word_size b else safe_reverse_bytes b

-- decodeBytes: the bytes left over, and the value. (The caller's `buf` is emptied before use.)
unfoldable pub decode : Arch → Bytes → Bool → Result (Bytes × Bytes)
unfolding decode_groups reverse_bytes
decode arch b reverse = do
  (rest, buf) ← decode_groups (suc (length b)) b [] reverse
  ok (rest, if reverse then reverse_bytes arch buf else buf)

-- DecodeBytes. It does not complement, so the architecture does not matter.
unfoldable pub decode_bytes : Bytes → Result (Bytes × Bytes)
unfolding decode_groups
decode_bytes b = decode_groups (suc (length b)) b [] false

-- EncodeUintDesc
unfoldable pub encode_uint_desc : Bytes → ℕ → Bytes
encode_uint_desc b v = b ++ be_bytes 8 (max_u64 - v)

-- DecodeUintDesc
unfoldable pub decode_uint_desc : Bytes → Result (Bytes × ℕ)
decode_uint_desc b =
    if ltb (length b) 8
    then err insufficient_bytes
    else ok (drop 8 b, max_u64 - be_value (take 8 b))

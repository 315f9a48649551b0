-- ===== src/Key/Laws.antt =====
-- Storage keys: what is encoded is decoded, and the order is that of the layout comment of
-- MVCCLevelDB: keys upwards, and below each key its versions downwards.
use Prim.Native.Nat.{compare}
use mock_tikv.Prelude.{
  ℕ, ◌≡◌, refl, ap, ◌∙◌, Ordering, false, [], ◌∷◌, ◌++◌, Bytes, IsU64, IsByte, All, All-append,
  length, arith, append-nil, is_empty,
}
use mock_tikv.Errors.{ok}
use mock_tikv.Bytes.{cmp}
use mock_tikv.Bytes.Order.{andthen}
use mock_tikv.Codec.{encode_bytes, decode_bytes, encode_uint_desc, decode_uint_desc}
use mock_tikv.Codec.Decode.{decode_bytes-encode_bytes}
use mock_tikv.Codec.Order.{cmp-encode_bytes}
use mock_tikv.Codec.Flat.{encode_bytes-flat, flat, flat-IsByte}
use mock_tikv.Codec.Uint.{
  decode_uint_desc-encode_uint_desc, cmp-encode_uint_desc, length-encode_uint_desc,
  encode_uint_desc-IsByte,
}
use mock_tikv.Key.{mvcc_encode, mvcc_decode, new_mvcc_key, raw}

encode_uint_desc-append : (b : Bytes) (v : ℕ) → encode_uint_desc b v ≡ b ++ encode_uint_desc [] v
unfolding encode_uint_desc
encode_uint_desc-append b v = refl

mvcc_encode-split :
    (k : Bytes) (v : ℕ) → mvcc_encode k v ≡ encode_bytes [] k ++ encode_uint_desc [] v
unfolding mvcc_encode
mvcc_encode-split k v = encode_uint_desc-append (encode_bytes [] k) v

not_empty : (b : Bytes) → length b ≡ 8 → is_empty b ≡ false
not_empty b h = ground arith

-- A storage key decodes to the key and the version, a uint64, that it was made of.
pub mvcc_decode-mvcc_encode :
    (k : Bytes) (v : ℕ) → IsU64 v → mvcc_decode (mvcc_encode k v) ≡ ok (k, v)
unfolding mvcc_decode
mvcc_decode-mvcc_encode k v h =
    let number : decode_uint_desc (encode_uint_desc [] v) ≡ ok ([], v) =
      rw append-nil at (decode_uint_desc-encode_uint_desc v [] h) in
    rw (mvcc_encode-split k v, decode_bytes-encode_bytes k (encode_uint_desc [] v))
      (rw (not_empty (encode_uint_desc [] v) (length-encode_uint_desc v), number))

-- A key with no version behind it, as a region's bound has, decodes to the key and version 0.
pub mvcc_decode_meta : (k : Bytes) → mvcc_decode (encode_bytes [] k) ≡ ok (k, 0)
unfolding mvcc_decode
mvcc_decode_meta k =
    let whole : decode_bytes (encode_bytes [] k) ≡ ok ([], k) =
      rw append-nil at (decode_bytes-encode_bytes k []) in
    rw whole

-- Storage keys are in the order of their keys, and those of one key in the reverse order of their
-- versions, if these are uint64 numbers.
pub cmp-mvcc_encode :
    (a b : Bytes) (v w : ℕ)
    → IsU64 v
    → IsU64 w
    → cmp (mvcc_encode a v) (mvcc_encode b w) ≡ andthen (cmp a b) (compare w v)
cmp-mvcc_encode a b v w hv hw =
    rw (mvcc_encode-split a v, mvcc_encode-split b w)
      (cmp-encode_bytes a b (encode_uint_desc [] v) (encode_uint_desc [] w)
        ∙ ap (andthen (cmp a b)) (cmp-encode_uint_desc v w hv hw))

flat_not_empty : (k : Bytes) → is_empty (flat 8 k) ≡ false
unfolding flat
flat_not_empty [] = refl
flat_not_empty (x ∷ k) = refl

encoded_not_empty : (k : Bytes) → is_empty (encode_bytes [] k) ≡ false
encoded_not_empty k = rw (encode_bytes-flat [] k) (flat_not_empty k)

longer_not_empty : (k rest : Bytes) → is_empty (flat 8 k ++ rest) ≡ false
unfolding flat
longer_not_empty [] rest = refl
longer_not_empty (x ∷ k) rest = refl

-- `Raw` takes the version off a storage key.
pub raw-mvcc_encode : (k : Bytes) (v : ℕ) → raw (mvcc_encode k v) ≡ ok k
unfolding raw
raw-mvcc_encode k v =
    let full : is_empty (encode_bytes [] k ++ encode_uint_desc [] v) ≡ false =
      rw (encode_bytes-flat [] k) (longer_not_empty k (encode_uint_desc [] v)) in
    rw (mvcc_encode-split k v, full, decode_bytes-encode_bytes k (encode_uint_desc [] v)) refl

below_nonempty : (b : Bytes) → is_empty b ≡ false → cmp [] b ≡ Ordering.lt
unfolding cmp
below_nonempty [] h = cc
below_nonempty (x ∷ b) h = refl

above_nonempty : (b : Bytes) → is_empty b ≡ false → cmp b [] ≡ Ordering.gt
unfolding cmp
above_nonempty [] h = cc
above_nonempty (x ∷ b) h = refl

andthen_eq : (o : Ordering) → andthen o (cmp [] []) ≡ o
unfolding cmp
andthen_eq Ordering.lt = refl
andthen_eq Ordering.eq = refl
andthen_eq Ordering.gt = refl

-- `Raw` gives back the key that `NewMvccKey` encoded, the empty key included.
pub raw-new_mvcc_key : (k : Bytes) → raw (new_mvcc_key k) ≡ ok k
unfolding raw new_mvcc_key
raw-new_mvcc_key [] = refl
raw-new_mvcc_key (x ∷ xs) =
    let whole : decode_bytes (encode_bytes [] (x ∷ xs)) ≡ ok ([], x ∷ xs) =
      rw append-nil at (decode_bytes-encode_bytes (x ∷ xs) []) in
    rw (encoded_not_empty (x ∷ xs), whole)

-- `NewMvccKey` keeps the order of keys.
pub cmp-new_mvcc_key : (a b : Bytes) → cmp (new_mvcc_key a) (new_mvcc_key b) ≡ cmp a b
unfolding new_mvcc_key
cmp-new_mvcc_key [] [] = refl
cmp-new_mvcc_key [] (y ∷ ys) =
    unfold cmp in below_nonempty (encode_bytes [] (y ∷ ys)) (encoded_not_empty (y ∷ ys))
cmp-new_mvcc_key (x ∷ xs) [] =
    unfold cmp in above_nonempty (encode_bytes [] (x ∷ xs)) (encoded_not_empty (x ∷ xs))
cmp-new_mvcc_key (x ∷ xs) (y ∷ ys) =
    rw (append-nil, append-nil) at (cmp-encode_bytes (x ∷ xs) (y ∷ ys) [] [])
    ∙ andthen_eq (cmp (x ∷ xs) (y ∷ ys))

pub mvcc_encode-IsByte : (k : Bytes) (v : ℕ) → All IsByte k → All IsByte (mvcc_encode k v)
mvcc_encode-IsByte k v h =
    rw (mvcc_encode-split k v, encode_bytes-flat [] k)
      (All-append IsByte (flat 8 k) (encode_uint_desc [] v) (flat-IsByte 8 k h)
        (encode_uint_desc-IsByte v))

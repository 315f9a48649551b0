-- ===== src/Codec/Tests.antt =====
-- The codecs on concrete keys and numbers.
use mock_tikv.Prelude.{◌≡◌, refl, [], ◌∷◌, ◌++◌, Bytes, true, arith}
use mock_tikv.Errors.{ok}
use mock_tikv.Bytes.{cmp}
use mock_tikv.Bytes.Order.{andthen}
use mock_tikv.Codec.{encode_bytes, decode_bytes, Arch, decode_group}
use mock_tikv.Codec.Order.{cmp-encode_bytes}
use mock_tikv.Codec.Decode.{decode_bytes-encode_bytes, decode_bytes_inv}

-- The examples of the doc comment of EncodeBytes
documented_empty : encode_bytes [] [] ≡ 0 ∷ 0 ∷ 0 ∷ 0 ∷ 0 ∷ 0 ∷ 0 ∷ 0 ∷ 247 ∷ []
unfolding encode_bytes
documented_empty = refl

documented_three : encode_bytes [] (1 ∷ 2 ∷ 3 ∷ []) ≡ 1 ∷ 2 ∷ 3 ∷ 0 ∷ 0 ∷ 0 ∷ 0 ∷ 0 ∷ 250 ∷ []
unfolding encode_bytes
documented_three = refl

-- wordSize and supportsUnaligned on a 64-bit x86
abbrev amd64 : Arch
amd64 = record { word_size = 8; supports_unaligned = true }

abbrev nine : Bytes
nine = 1 ∷ 2 ∷ 3 ∷ 4 ∷ 5 ∷ 6 ∷ 7 ∷ 8 ∷ 9 ∷ []

abbrev eight : Bytes
eight = 1 ∷ 2 ∷ 3 ∷ 4 ∷ 5 ∷ 6 ∷ 7 ∷ 8 ∷ []

cmp-encode_bytes_example :
    cmp (encode_bytes [] eight ++ 5 ∷ []) (encode_bytes [] nine ++ 4 ∷ [])
    ≡ andthen (cmp eight nine) (cmp (5 ∷ []) (4 ∷ []))
cmp-encode_bytes_example = cmp-encode_bytes eight nine (5 ∷ []) (4 ∷ [])

decode_bytes-encode_bytes_example :
    decode_bytes (encode_bytes [] nine ++ 4 ∷ []) ≡ ok (4 ∷ [], nine)
decode_bytes-encode_bytes_example = decode_bytes-encode_bytes nine (4 ∷ [])

three_encoded :
    decode_bytes (1 ∷ 2 ∷ 3 ∷ 0 ∷ 0 ∷ 0 ∷ 0 ∷ 0 ∷ 250 ∷ 7 ∷ []) ≡ ok (7 ∷ [], 1 ∷ 2 ∷ 3 ∷ [])
unfolding decode_bytes decode_group
three_encoded = refl

decode_bytes_inv_example :
    1 ∷ 2 ∷ 3 ∷ 0 ∷ 0 ∷ 0 ∷ 0 ∷ 0 ∷ 250 ∷ 7 ∷ [] ≡ encode_bytes [] (1 ∷ 2 ∷ 3 ∷ []) ++ 7 ∷ []
decode_bytes_inv_example =
    decode_bytes_inv (1 ∷ 2 ∷ 3 ∷ 0 ∷ 0 ∷ 0 ∷ 0 ∷ 0 ∷ 250 ∷ 7 ∷ []) (7 ∷ []) (1 ∷ 2 ∷ 3 ∷ [])
      (
        omega arith,
        (
          omega arith,
          (
            omega arith,
            (
              omega arith,
              (
                omega arith,
                (omega arith, (omega arith, (omega arith, (omega arith, (omega arith, tt))))),
              ),
            ),
          ),
        ),
      )
      three_encoded

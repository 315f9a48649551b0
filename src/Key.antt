-- ===== src/Key.antt =====
-- The keys of the storage engine: mvccEncode and mvccDecode of server/mvcc_leveldb.go, and MvccKey
-- and regionContains of server/mvcc.go.
mod Tests
pub mod Laws
use mock_tikv.Prelude.{
  ℕ, Bool, true, false, [], ◌∷◌, Bytes, is_empty, not, if◌then◌else◌, max_u64, ◌&&◌, ◌||◌,
}
use mock_tikv.Errors.{Result, ok, err, invalid_encoded_key, ◌>>=◌}
use mock_tikv.Bytes.{less, less_eq}
use mock_tikv.Codec.{encode_bytes, decode_bytes, encode_uint_desc, decode_uint_desc}

-- lockVer
abbrev pub lock_ver : ℕ
lock_ver = max_u64

unfoldable pub mvcc_encode : Bytes → ℕ → Bytes
mvcc_encode key ver = encode_uint_desc (encode_bytes [] key) ver

unfoldable pub mvcc_decode : Bytes → Result (Bytes × ℕ)
mvcc_decode encoded_key = do
  (remain_bytes, key) ← decode_bytes encoded_key
  if is_empty remain_bytes then ok (key, 0) else do
    (remain_bytes', ver) ← decode_uint_desc remain_bytes
    if is_empty remain_bytes' then ok (key, ver) else err invalid_encoded_key

-- NewMvccKey
unfoldable pub new_mvcc_key : Bytes → Bytes
new_mvcc_key key = if is_empty key then [] else encode_bytes [] key

-- MvccKey.Raw. The panic on a key that does not decode is the error.
unfoldable pub raw : Bytes → Result Bytes
raw key = if is_empty key then ok [] else do (_, k) ← decode_bytes key; ok k

unfoldable pub region_contains : Bytes → Bytes → Bytes → Bool
unfolding less less_eq
region_contains start_key end_key key =
    less_eq start_key key && (less key end_key || is_empty end_key)

-- ===== src/Key/Tests.antt =====
-- Storage keys and region keys in order, on concrete keys.
use mock_tikv.Prelude.{◌≡◌, [], ◌∷◌, arith}
use Prim.Native.Nat.{compare}
use mock_tikv.Bytes.{cmp}
use mock_tikv.Bytes.Order.{andthen}
use mock_tikv.Key.{lock_ver, mvcc_encode}
use mock_tikv.Key.Laws.{cmp-mvcc_encode}

cmp-mvcc_encode_example :
    cmp (mvcc_encode (97 ∷ []) lock_ver) (mvcc_encode (97 ∷ []) 20)
    ≡ andthen (cmp (97 ∷ []) (97 ∷ [])) (compare 20 lock_ver)
cmp-mvcc_encode_example =
    cmp-mvcc_encode (97 ∷ []) (97 ∷ []) lock_ver 20 (omega arith) (omega arith)

-- ===== src/Codec/Order.antt =====
-- EncodeBytes keeps the byte order, also where more bytes follow both encodings.
use mock_tikv.Prelude.{
  ℕ, zero, suc, ◌-◌, ◌≤◌, ◌<◌, ◌≡◌, refl, ap, ◌∙◌, Ordering, [], ◌∷◌, ◌++◌, Bytes, replicate, arith,
  append_assoc,
}
use mock_tikv.Bytes.{cmp}
use mock_tikv.Bytes.Order.{andthen, swap, cmp_self, cmp-swap, cmp-append}
use mock_tikv.Codec.{encode_bytes}
use mock_tikv.Codec.Flat.{flat, encode_bytes-flat}

cmp_prefix : (p s t : Bytes) → cmp (p ++ s) (p ++ t) ≡ cmp s t
cmp_prefix p s t = cmp-append p p s t refl ∙ rw (cmp_self p)

smaller_marker : (m k : ℕ) (s t : Bytes) → m < k → cmp (m ∷ s) (k ∷ t) ≡ Ordering.lt
unfolding cmp
smaller_marker m k s t h = ground arith

-- Padding that ends in a small marker is below whatever stands in its place.
zeros_lt :
    (k m : ℕ) (ys s t : Bytes)
    → m < 255 - k
    → cmp (replicate k 0 ++ m ∷ s) (flat k ys ++ t) ≡ Ordering.lt
unfolding flat cmp
zeros_lt zero m [] s t h = smaller_marker m 255 s _ (omega arith)
zeros_lt zero m (y ∷ ys) s t h = smaller_marker m 255 s _ (omega arith)
zeros_lt (suc k) m [] s t h = rw append_assoc (
    cmp_prefix (replicate (suc k) 0) (m ∷ s) ((255 - suc k) ∷ t)
    ∙ smaller_marker m (255 - suc k) s t h)
zeros_lt (suc k) m (y ∷ ys) s t h = ground (arith, zeros_lt k m ys s t (omega arith))

shorter_lt :
    (n y : ℕ) (ys s t : Bytes) → n ≤ 8 → cmp (flat n [] ++ s) (flat n (y ∷ ys) ++ t) ≡ Ordering.lt
unfolding flat cmp
shorter_lt zero y ys s t h = ground (arith, zeros_lt 7 247 ys s t)
shorter_lt (suc n) y ys s t h = rw append_assoc (ground (arith, zeros_lt n (255 - suc n) ys s t))

pub cmp-flat :
    (n : ℕ) (a b s t : Bytes)
    → n ≤ 8
    → cmp (flat n a ++ s) (flat n b ++ t) ≡ andthen (cmp a b) (cmp s t)
unfolding flat cmp
cmp-flat n [] [] s t h = cmp_prefix (flat n []) s t ∙ refl
cmp-flat n [] (y ∷ ys) s t h = shorter_lt n y ys s t h ∙ refl
cmp-flat n (x ∷ xs) [] s t h =
    cmp-swap (flat n [] ++ t) (flat n (x ∷ xs) ++ s) ∙ ap swap (shorter_lt n x xs t s h) ∙ refl
cmp-flat zero (x ∷ xs) (y ∷ ys) s t h = ground (arith, cmp-flat 7 xs ys s t (omega arith))
cmp-flat (suc n) (x ∷ xs) (y ∷ ys) s t h = ground (arith, cmp-flat n xs ys s t (omega arith))

-- Two encodings with anything behind them compare as the keys do, and by what follows if the keys
-- are one.
pub cmp-encode_bytes :
    (a b s t : Bytes)
    → cmp (encode_bytes [] a ++ s) (encode_bytes [] b ++ t) ≡ andthen (cmp a b) (cmp s t)
cmp-encode_bytes a b s t =
    rw (encode_bytes-flat [] a, encode_bytes-flat [] b) (cmp-flat 8 a b s t (omega arith))

-- ===== src/Codec/Flat.antt =====
-- EncodeBytes in one pass, and that its loop computes it.
use mock_tikv.Prelude.{
  ℕ, zero, suc, ◌-◌, ◌≤◌, ◌<◌, ◌≡◌, refl, ap, ◌∙◌, [], ◌∷◌, ◌++◌, Bytes, IsByte, length, take, drop,
  replicate, leb, leb→le, arith, append_assoc, length-drop, Bool-cases, inl, inr, All,
}
use mock_tikv.Codec.{encode_groups, encode_bytes}

-- The padding and the marker that end a group with `n` places left.
abbrev pub tail_of : ℕ → Bytes
tail_of n = replicate n 0 ++ (255 - n) ∷ []

-- What is still to be written of `xs`, with `n` places left in the group.
unfoldable pub flat : ℕ → Bytes → Bytes
flat zero [] = 255 ∷ tail_of 8
flat (suc n) [] = tail_of (suc n)
flat zero (x ∷ xs) = 255 ∷ x ∷ flat 7 xs
flat (suc n) (x ∷ xs) = x ∷ flat n xs

pub flat_full : (xs : Bytes) → flat 0 xs ≡ 255 ∷ flat 8 xs
unfolding flat
flat_full [] = refl
flat_full (x ∷ xs) = refl

sub_zero : (a : ℕ) → a ≡ a - 0
sub_zero a = omega arith

suc_sub : (a b : ℕ) → a - b ≡ suc a - suc b
suc_sub a b = omega arith

pub flat_partial : (n : ℕ) (xs : Bytes) → length xs < n → flat n xs ≡ xs ++ tail_of (n - length xs)
unfolding flat
flat_partial zero [] h = absurd (omega arith)
flat_partial (suc n) [] h = ap tail_of (sub_zero (suc n))
flat_partial zero (x ∷ xs) h = absurd (omega arith)
flat_partial (suc n) (x ∷ xs) h =
    ap (λ r. x ∷ r)
      (flat_partial n xs (omega arith) ∙ ap (λ k. xs ++ tail_of k) (suc_sub n (length xs)))

pub flat_group :
    (n : ℕ) (xs : Bytes) → n ≤ length xs → flat n xs ≡ take n xs ++ 255 ∷ flat 8 (drop n xs)
unfolding flat
flat_group zero [] h = refl
flat_group zero (x ∷ xs) h = refl
flat_group (suc n) [] h = absurd (omega arith)
flat_group (suc n) (x ∷ xs) h = ap (λ r. x ∷ r) (flat_group n xs (omega arith))

encode_groups-flat :
    (fuel : ℕ) (xs result : Bytes)
    → length xs < fuel
    → encode_groups fuel xs result ≡ result ++ flat 8 xs
unfolding encode_groups
encode_groups-flat zero xs result h = absurd (omega arith)
encode_groups-flat (suc fuel) xs result h = elim (Bool-cases (leb 8 (length xs))) [
  | inl full ↦ rw full (
      rw (flat_group 8 xs (leb→le _ _ full)) (
        encode_groups-flat fuel (drop 8 xs) (result ++ take 8 xs ++ 255 ∷ [])
          (omega (arith, length-drop 8 xs, leb→le _ _ full))
        ∙ simp append_assoc))
  | inr partial ↦ rw partial (rw (flat_partial 8 xs (ground arith)) (simp append_assoc))
]

-- EncodeBytes appends the one-pass encoding to what `b` holds.
pub encode_bytes-flat : (b xs : Bytes) → encode_bytes b xs ≡ b ++ flat 8 xs
unfolding encode_bytes
encode_bytes-flat b xs = encode_groups-flat (suc (length xs)) xs b (omega arith)

tail_of-IsByte : (n m : ℕ) → All IsByte (replicate n 0 ++ (255 - m) ∷ [])
tail_of-IsByte zero m = omega arith
tail_of-IsByte (suc n) m = (omega arith, tail_of-IsByte n m)

pub flat-IsByte : (n : ℕ) (xs : Bytes) → All IsByte xs → All IsByte (flat n xs)
unfolding flat
flat-IsByte zero [] h = omega arith
flat-IsByte (suc n) [] h = tail_of-IsByte (suc n) (suc n)
flat-IsByte zero (x ∷ xs) h = (omega arith, (h.0, flat-IsByte 7 xs h.1))
flat-IsByte (suc n) (x ∷ xs) (hx, h) = (hx, flat-IsByte n xs h)

pub length-flat : (n : ℕ) (xs : Bytes) → length xs ≤ length (flat n xs)
unfolding flat
length-flat n [] = omega arith
length-flat zero (x ∷ xs) = omega (arith, length-flat 7 xs)
length-flat (suc n) (x ∷ xs) = omega (arith, length-flat n xs)

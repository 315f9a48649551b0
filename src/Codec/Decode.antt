-- ===== src/Codec/Decode.antt =====
-- DecodeBytes reads back what EncodeBytes writes, and accepts nothing else.
use mock_tikv.Prelude.{
  ℕ, zero, suc, ◌+◌, ◌-◌, ◌%◌, ◌≤◌, ◌<◌, ◌≡◌, refl, ap, ◌∙◌, [], ◌∷◌, ◌++◌, Bool, true, false,
  Bytes, IsByte, length, take, drop, inl, inr, replicate, leb, leb→le, ltb, arith, append_assoc,
  length-append, take-append-drop, length-take, length-drop, length-replicate, Bool-cases, All,
  All-drop, if◌then◌else◌,
}
use mock_tikv.Errors.{ok, >>=-eq-ok}
use mock_tikv.Codec.{encode_bytes, decode_group, decode_groups, decode_bytes, all_eq, head_or}
use mock_tikv.Codec.Flat.{flat, tail_of, length-flat, flat_group, flat_partial, encode_bytes-flat}

take_exact : (g t : Bytes) (n : ℕ) → length g ≡ n → take n (g ++ t) ≡ g
take_exact [] t zero h = refl
take_exact [] t (suc n) h = absurd (omega arith)
take_exact (x ∷ g) t zero h = absurd (omega arith)
take_exact (x ∷ g) t (suc n) h = ap (λ r. x ∷ r) (take_exact g t n (omega arith))

drop_exact : (g t : Bytes) (n : ℕ) → length g ≡ n → drop n (g ++ t) ≡ t
drop_exact [] t zero h = refl
drop_exact [] t (suc n) h = absurd (omega arith)
drop_exact (x ∷ g) t zero h = absurd (omega arith)
drop_exact (x ∷ g) t (suc n) h = drop_exact g t n (omega arith)

drop-suc : (n : ℕ) (b : Bytes) → drop (suc n) b ≡ drop 1 (drop n b)
drop-suc zero b = refl
drop-suc (suc n) [] = refl
drop-suc (suc n) (x ∷ b) = drop-suc n b

all_eq-replicate : (v n : ℕ) → all_eq v (replicate n v) ≡ true
all_eq-replicate v zero = refl
all_eq-replicate v (suc n) = ground (arith, all_eq-replicate v n)

replicate-all_eq : (v : ℕ) (b : Bytes) → all_eq v b ≡ true → b ≡ replicate (length b) v
replicate-all_eq v [] h = refl
replicate-all_eq v (x ∷ b) h = ground (arith, replicate-all_eq v b)

take_all : (g : Bytes) (n : ℕ) → length g ≡ n → take n g ≡ g
take_all [] zero h = refl
take_all [] (suc n) h = refl
take_all (x ∷ g) zero h = absurd (omega arith)
take_all (x ∷ g) (suc n) h = ap (λ r. x ∷ r) (take_all g n (omega arith))

marker_pad : (k : ℕ) → k < 8 → (255 + 256 - (255 - suc k)) % 256 ≡ suc k
marker_pad k h = omega arith

pad_rest : (k n : ℕ) → n + suc k ≡ 8 → 8 - suc k ≡ n
pad_rest k n h = omega arith

-- A full group: its marker has no padding.
full_group : (g : Bytes) → length g ≡ 8 → decode_group false g 255 ≡ ok (g, false)
unfolding decode_group
full_group g h = ap (λ r. ok (r, false)) (take_all g 8 h)

-- The last group: `k + 1` bytes of padding.
last_group :
    (k : ℕ) (g : Bytes)
    → length g + suc k ≡ 8
    → decode_group false (g ++ replicate (suc k) 0) (255 - suc k) ≡ ok (g, true)
unfolding decode_group
last_group k g h =
    rw (marker_pad k (omega arith), pad_rest k (length g) h)
      (rw
        (
          take_exact g (replicate (suc k) 0) (length g) refl,
          drop_exact g (replicate (suc k) 0) (length g) refl,
          all_eq-replicate 0 k,
        )
        (ground arith))

long_enough : (m : ℕ) (g t : Bytes) → length g ≡ 8 → ltb (length (g ++ m ∷ t)) 9 ≡ false
long_enough m g t h = ground (arith, length-append g (m ∷ t))

full_step :
    (fuel : ℕ) (g t buf : Bytes)
    → length g ≡ 8
    → decode_groups (suc fuel) (g ++ 255 ∷ t) buf false ≡ decode_groups fuel t (buf ++ g) false
unfolding decode_groups
full_step fuel g t buf h =
    rw (take_exact g (255 ∷ t) 8 h, drop-suc 8 (g ++ 255 ∷ t), drop_exact g (255 ∷ t) 8 h)
      (rw (long_enough 255 g t h, full_group g h))

last_step :
    (fuel k : ℕ) (g t buf : Bytes)
    → length g + suc k ≡ 8
    → decode_groups (suc fuel) (g ++ tail_of (suc k) ++ t) buf false ≡ ok (t, buf ++ g)
unfolding decode_groups
last_step fuel k g t buf h =
    let p : Bytes = g ++ replicate (suc k) 0 in
    let n : length p ≡ 8 =
      length-append g (replicate (suc k) 0) ∙ omega (arith, length-replicate {A = ℕ} (suc k) 0) in
    let e : g ++ tail_of (suc k) ++ t ≡ p ++ (255 - suc k) ∷ t = simp append_assoc in
    rw e (
      rw
        (
          take_exact p ((255 - suc k) ∷ t) 8 n,
          drop-suc 8 (p ++ (255 - suc k) ∷ t),
          drop_exact p ((255 - suc k) ∷ t) 8 n,
        )
        (rw (long_enough (255 - suc k) p t n, last_group k g h)))

length-take_le : (n : ℕ) (xs : Bytes) → n ≤ length xs → length (take n xs) ≡ n
length-take_le n xs h = omega (arith, length-take n xs)

pad_left : (n : ℕ) → n < 8 → 8 - n ≡ suc (7 - n)
pad_left n h = omega arith

-- The groups that EncodeBytes writes, whatever follows them.
decode_groups-flat :
    (fuel : ℕ) (xs buf rest : Bytes)
    → length xs < fuel
    → decode_groups fuel (flat 8 xs ++ rest) buf false ≡ ok (rest, buf ++ xs)
decode_groups-flat zero xs buf rest h = absurd (omega arith)
decode_groups-flat (suc fuel) xs buf rest h = elim (Bool-cases (leb 8 (length xs))) [
  | inl full ↦
      rw (flat_group 8 xs (leb→le _ _ full), append_assoc)
        (full_step fuel (take 8 xs) (flat 8 (drop 8 xs) ++ rest) buf
            (length-take_le 8 xs (leb→le _ _ full))
          ∙ decode_groups-flat fuel (drop 8 xs) (buf ++ take 8 xs) rest
              (omega (arith, length-drop 8 xs, leb→le _ _ full))
          ∙ rw (append_assoc, take-append-drop 8 xs))
  | inr partial ↦ rw (flat_partial 8 xs (ground arith)) (
      rw (pad_left (length xs) (ground arith))
        (last_step fuel (7 - length xs) xs rest buf (ground arith)))
]

-- DecodeBytes returns what EncodeBytes was given, and leaves whatever follows the encoding.
pub decode_bytes-encode_bytes :
    (xs rest : Bytes) → decode_bytes (encode_bytes [] xs ++ rest) ≡ ok (rest, xs)
unfolding decode_bytes
decode_bytes-encode_bytes xs rest = rw (encode_bytes-flat [] xs) (
    decode_groups-flat (suc (length (flat 8 xs ++ rest))) xs [] rest
      (omega (arith, length-append (flat 8 xs) rest, length-flat 8 xs)))

-- What a group that is read must have been.
full_inv :
    (g r : Bytes) (m : ℕ)
    → decode_group false g m ≡ ok (r, false)
    → length g ≡ 8
    → m < 256
    → (m ≡ 255) × (r ≡ g)
unfolding decode_group
full_inv g r m e h hm = ground (arith, take_all g 8 h)

last_inv :
    (g r : Bytes) (m : ℕ)
    → decode_group false g m ≡ ok (r, true)
    → m < 256
    → (247 ≤ m) × (m < 255) × (r ≡ take (m - 247) g) × (all_eq 0 (drop (m - 247) g) ≡ true)
unfolding decode_group
last_inv g r m e hm = ground arith

padded :
    (g : Bytes) (m : ℕ)
    → length g ≡ 8
    → 247 ≤ m
    → m < 255
    → all_eq 0 (drop (m - 247) g) ≡ true
    → g ++ m ∷ [] ≡ flat 8 (take (m - 247) g)
padded g m h lo hi z =
    let r : Bytes = take (m - 247) g in
    let n : length r ≡ m - 247 = omega (arith, length-take (m - 247) g) in
    let k : length (drop (m - 247) g) ≡ 8 - (m - 247) = omega (arith, length-drop (m - 247) g) in
    let zeros : drop (m - 247) g ≡ replicate (8 - (m - 247)) 0 =
      replicate-all_eq 0 _ z ∙ ap (λ i. replicate i 0) k in
    let marker : 255 - (8 - (m - 247)) ≡ m = omega arith in
    rw (flat_partial 8 r (omega arith), n)
      (rw (marker, ← zeros, ← append_assoc, take-append-drop (m - 247) g))

split_at :
    (n : ℕ) (b : Bytes) → n < length b → b ≡ take n b ++ head_or 0 (drop n b) ∷ drop (suc n) b
split_at n [] h = absurd (omega arith)
split_at zero (x ∷ b) h = refl
split_at (suc n) (x ∷ b) h = ap (λ r. x ∷ r) (split_at n b (omega arith))

head_or-IsByte : (b : Bytes) → All IsByte b → head_or 0 b < 256
head_or-IsByte [] h = omega arith
head_or-IsByte (x ∷ b) h = h.0

-- A round that succeeds.
round_inv :
    (fuel : ℕ) (b buf rest out : Bytes)
    → decode_groups (suc fuel) b buf false ≡ ok (rest, out)
    → (9 ≤ length b)
      × (r : Bytes × Bool) × (decode_group false (take 8 b) (head_or 0 (drop 8 b)) ≡ ok r)
      × ((if r.1
            then ok (drop 9 b, buf ++ r.0)
            else decode_groups fuel (drop 9 b) (buf ++ r.0) false)
          ≡ ok (rest, out))
unfolding decode_groups
round_inv fuel b buf rest out e = elim (Bool-cases (ltb (length b) 9)) [
  | inl short ↦ cc (rw short at e)
  | inr long ↦
      let (r, d, f) =
        >>=-eq-ok (decode_group false (take 8 b) (head_or 0 (drop 8 b))) _ (rw long at e) in
      (ground arith, r, d, f)
]

module _ (b : Bytes) (hb : All IsByte b) (long : 9 ≤ length b) where
  eight : length (take 8 b) ≡ 8
  eight = length-take_le 8 b (omega arith)

  marker_byte : head_or 0 (drop 8 b) < 256
  marker_byte = head_or-IsByte (drop 8 b) (All-drop IsByte 8 b hb)

  from_last :
      (r : Bytes)
      → decode_group false (take 8 b) (head_or 0 (drop 8 b)) ≡ ok (r, true)
      → b ≡ flat 8 r ++ drop 9 b
  from_last r d =
      let (lo, hi, er, z) = last_inv (take 8 b) r (head_or 0 (drop 8 b)) d marker_byte in
      split_at 8 b long
      ∙ rw er (rw (← padded (take 8 b) (head_or 0 (drop 8 b)) eight lo hi z) (rw append_assoc))

  from_full :
      (r v rest : Bytes)
      → decode_group false (take 8 b) (head_or 0 (drop 8 b)) ≡ ok (r, false)
      → drop 9 b ≡ flat 8 v ++ rest
      → b ≡ flat 8 (r ++ v) ++ rest
  from_full r v rest d e =
      let (em, er) = full_inv (take 8 b) r (head_or 0 (drop 8 b)) d eight marker_byte in
      let n : length r ≡ 8 = rw er eight in
      split_at 8 b long
      ∙ rw (em, e, ← er, flat_group 8 (r ++ v) (omega (arith, length-append r v)))
          (rw (take_exact r v 8 n, drop_exact r v 8 n) (rw append_assoc))

abbrev IsSplit : Bytes → Bytes → Bytes → Bytes → Type 0
IsSplit b buf rest out = (v : Bytes) × (out ≡ buf ++ v) × (b ≡ flat 8 v ++ rest)

from_round :
    (fuel : ℕ) (b buf rest out : Bytes)
    → All IsByte b
    → 9 ≤ length b
    → ((r : Bytes)
        → decode_groups fuel (drop 9 b) (buf ++ r) false ≡ ok (rest, out)
        → IsSplit (drop 9 b) (buf ++ r) rest out)
    → (r : Bytes) (last : Bool)
    → decode_group false (take 8 b) (head_or 0 (drop 8 b)) ≡ ok (r, last)
    → (if last then ok (drop 9 b, buf ++ r) else decode_groups fuel (drop 9 b) (buf ++ r) false)
      ≡ ok (rest, out)
    → IsSplit b buf rest out
from_round fuel b buf rest out hb long ih r true d f =
    let p : drop 9 b ≡ rest = cc f in (r, cc f, from_last b hb long r d ∙ ap (λ t. flat 8 r ++ t) p)
from_round fuel b buf rest out hb long ih r false d f =
    let (v, ev, eb) = ih r f in
    (r ++ v, ev ∙ append_assoc buf r v, from_full b hb long r v rest d eb)

-- A successful decode was of an encoding.
decode_groups_inv :
    (fuel : ℕ) (b buf rest out : Bytes)
    → All IsByte b
    → decode_groups fuel b buf false ≡ ok (rest, out)
    → IsSplit b buf rest out
decode_groups_inv zero b buf rest out hb e = unfold decode_groups in cc
decode_groups_inv (suc fuel) b buf rest out hb e =
    let (long, r, d, f) = round_inv fuel b buf rest out e in
    from_round fuel b buf rest out hb long
      (λ r. decode_groups_inv fuel (drop 9 b) (buf ++ r) rest out (All-drop IsByte 9 b hb)) r.0 r.1
      d f

-- DecodeBytes succeeds, on a string of bytes, only if that is an encoding with something behind
-- it: what it accepts is what EncodeBytes writes.
pub decode_bytes_inv :
    (b rest v : Bytes)
    → All IsByte b
    → decode_bytes b ≡ ok (rest, v)
    → b ≡ encode_bytes [] v ++ rest
unfolding decode_bytes
decode_bytes_inv b rest v hb e =
    let (w, ew, eb) = decode_groups_inv (suc (length b)) b [] rest v hb e in
    rw (encode_bytes-flat [] v, ew) eb

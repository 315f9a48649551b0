-- ===== src/Marshal/Varint.antt =====
-- The length prefix: a uint64 is read back as it was written.
use native.Mathlib.Nat.{pow-suc, div-add-mod, mod-eq_of_lt}
use native.Mathlib.Numerals.{towards_suc}
use mock_tikv.Prelude.{
  ℕ, zero, suc, ◌+◌, ◌*◌, ◌/◌, ◌%◌, ◌^◌, ◌<◌, ◌≤◌, ◌≡◌, ap, ◌∙◌, ◌∷◌, ◌++◌, Bytes, IsU64, arith,
}
use mock_tikv.Errors.{ok}
use mock_tikv.Marshal.{put_uvarint, read_uvarint}

next_shift : (i : ℕ) → 7 * (i + 1) ≡ 7 * i + 7
next_shift i = omega arith

shift_seven : (i : ℕ) → 2 ^ (7 * (i + 1)) ≡ 128 * 2 ^ (7 * i)
shift_seven i = ap (λ (t : ℕ). 2 ^ t) (next_shift i) ∙ simp towards_suc (omega arith)

one_shift : (v : ℕ) → 0 + v * 2 ^ (7 * 0) ≡ v
one_shift v = omega arith

-- The low group of `v` and the rest, both shifted by `i` groups.
split_group : (v i : ℕ) → v * 2 ^ (7 * i) ≡ v % 128 * 2 ^ (7 * i) + v / 128 * 2 ^ (7 * (i + 1))
split_group v i = omega (
  arith,
  ap (λ (t : ℕ). t * 2 ^ (7 * i)) (div-add-mod v 128),
  ap (λ (t : ℕ). v / 128 * t) (shift_seven i),
)

-- The tenth byte holds one bit.
one_bit : (v i x : ℕ) → i ≡ 9 → IsU64 (x + v * 2 ^ (7 * i)) → v ≤ 1
one_bit v i x h fits = let top : IsU64 (x + v * 2 ^ (7 * 9)) = rw h at fits in omega arith

last_byte :
    (v i x : ℕ) (rest : Bytes)
    → v < 128
    → i ≤ 9
    → IsU64 (x + v * 2 ^ (7 * i))
    → read_uvarint (v ∷ rest) i x ≡ ok (x + v * 2 ^ (7 * i), rest)
unfolding read_uvarint
last_byte v i x rest hv hi fits = rw (mod-eq_of_lt hv) (ground (arith, one_bit v i x))

inner_byte :
    (g i x : ℕ) (rest : Bytes)
    → g < 128
    → IsU64 (x + g * 2 ^ (7 * i))
    → read_uvarint ((g + 128) ∷ rest) i x ≡ read_uvarint rest (i + 1) (x + g * 2 ^ (7 * i))
unfolding read_uvarint
inner_byte g i x rest hg fits =
    let low : (g + 128) % 128 ≡ g = omega arith in rw (low, mod-eq_of_lt fits) (ground arith)

-- `v` is what is still to be read; it counts from group `i` on, and has at most `k + 1` groups.
read_from :
    (k v i x : ℕ) (rest : Bytes)
    → v < 128 ^ suc k
    → i + k ≤ 9
    → IsU64 (x + v * 2 ^ (7 * i))
    → read_uvarint (put_uvarint k v ++ rest) i x ≡ ok (x + v * 2 ^ (7 * i), rest)
unfolding put_uvarint
read_from zero v i x rest hv hi fits = last_byte v i x rest (omega arith) (omega arith) fits
read_from (suc k) v i x rest hv hi fits = ground (
  arith,
  last_byte v i x rest,
  split_group v i,
  inner_byte (v % 128) i x (put_uvarint k (v / 128) ++ rest),
  pow-suc 128 (suc k),
  read_from k (v / 128) (i + 1) (x + v % 128 * 2 ^ (7 * i)) rest,
)

-- A length is read back as it was written.
pub read_uvarint-put_uvarint :
    (v : ℕ) (rest : Bytes) → IsU64 v → read_uvarint (put_uvarint 9 v ++ rest) 0 0 ≡ ok (v, rest)
read_uvarint-put_uvarint v rest h =
    read_from 9 v 0 0 rest (omega arith) (omega arith) (omega arith)
    ∙ ap (λ (n : ℕ). ok (n, rest)) (one_shift v)

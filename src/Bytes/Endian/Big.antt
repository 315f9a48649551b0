-- ===== src/Bytes/Endian/Big.antt =====
-- High byte first.
use Prim.Native.Nat.{compare}
use native.Mathlib.Nat.{pow-suc, div-div-eq-div-mul, div-add-mod, mod-lt}
use mock_tikv.Prelude.{
  ℕ, zero, suc, ◌+◌, ◌*◌, ◌/◌, ◌%◌, ◌^◌, ◌<◌, ◌≡◌, refl, ap, IsByte, length, All, arith,
}
use mock_tikv.Bytes.{cmp}
use mock_tikv.Bytes.Endian.{be_bytes, be_value}
use mock_tikv.Bytes.Endian.Little.{pow_step}

pub length-be_bytes : (n v : ℕ) → length (be_bytes n v) ≡ n
unfolding be_bytes
length-be_bytes zero v = refl
length-be_bytes (suc n) v = ap suc (length-be_bytes n v)

pub be_bytes-IsByte : (n v : ℕ) → All IsByte (be_bytes n v)
unfolding be_bytes
be_bytes-IsByte zero v = tt
be_bytes-IsByte (suc n) v = (omega arith, be_bytes-IsByte n v)

pow_pos : (n : ℕ) → 0 < 256 ^ n
pow_pos zero = omega arith
pow_pos (suc n) = omega (arith, pow_step n, pow_pos n)

-- The top byte of the low `n + 1` bytes.
top_split : (n v : ℕ) → v % 256 ^ suc n ≡ v / 256 ^ n % 256 * 256 ^ n + v % 256 ^ n
top_split n v = omega (
  arith,
  pow-suc 256 n,
  div-add-mod v (256 ^ suc n),
  div-add-mod v (256 ^ n),
  ap (λ (t : ℕ). 256 ^ n * t) (div-add-mod (v / 256 ^ n) 256),
  ap (λ (t : ℕ). 256 ^ suc n * t) (div-div-eq-div-mul v (256 ^ n) 256),
  ap (λ (t : ℕ). v / t) (pow-suc 256 n),
  ap (λ (t : ℕ). 256 ^ suc n * (v / t)) (pow-suc 256 n),
  ap (λ (t : ℕ). t * (v / 256 ^ n / 256)) (pow-suc 256 n),
)

pub be_value-be_bytes : (n v : ℕ) → be_value (be_bytes n v) ≡ v % 256 ^ n
unfolding be_value be_bytes
be_value-be_bytes zero v = omega arith
be_value-be_bytes (suc n) v =
    rw length-be_bytes (omega (arith, top_split n v, be_value-be_bytes n v))

digit_lt : (p a b r s : ℕ) → a < b → r < p → a * p + r < b * p + s
digit_lt p a b r s h k = grind arith

pub cmp-be_bytes :
    (n a b : ℕ) → cmp (be_bytes n a) (be_bytes n b) ≡ compare (a % 256 ^ n) (b % 256 ^ n)
unfolding cmp be_bytes
cmp-be_bytes zero a b = ground arith
cmp-be_bytes (suc n) a b =
    rw (top_split n a, top_split n b)
      (ground (
        arith,
        digit_lt (256 ^ n) (a / 256 ^ n % 256) (b / 256 ^ n % 256) (a % 256 ^ n) (b % 256 ^ n),
        digit_lt (256 ^ n) (b / 256 ^ n % 256) (a / 256 ^ n % 256) (b % 256 ^ n) (a % 256 ^ n),
        mod-lt a (pow_pos n),
        mod-lt b (pow_pos n),
        cmp-be_bytes n a b,
      ))

-- ===== src/Codec/Reverse.antt =====
-- The complement word by word is the complement byte by byte.
use native.Mathlib.Nat.{div-mul-le_self}
use mock_tikv.Prelude.{
  ℕ, zero, suc, ◌+◌, ◌-◌, ◌*◌, ◌/◌, ◌%◌, ◌^◌, ◌≤◌, ◌<◌, ◌≡◌, refl, sym, ap, ◌∙◌, [], ◌∷◌, Bytes,
  IsByte, length, length-take, length-drop, arith, take, drop, take-append-drop, map, All, All-take,
  All-drop,
}
use mathlib.Core.List.{map-append}
use mock_tikv.Bytes.Endian.{le_bytes, le_value}
use mock_tikv.Bytes.Endian.Little.{pow_step, le_value-lt}
use mock_tikv.Codec.{
  complement, safe_reverse_bytes, fast_reverse_bytes, reverse_words, Arch, reverse_bytes,
}

low_complement :
    (p b v : ℕ)
    → b < 256
    → v < p
    → ((256 * p - 1 - (b + 256 * v)) % 256 ≡ complement b)
      × ((256 * p - 1 - (b + 256 * v)) / 256 ≡ p - 1 - v)
low_complement p b v hb h = omega arith

-- One word: the complement of the number is the complement of its bytes.
word_complement :
    (bs : Bytes)
    → All IsByte bs
    → le_bytes (length bs) (256 ^ length bs - 1 - le_value bs) ≡ map complement bs
unfolding le_bytes le_value
word_complement [] h = refl
word_complement (b ∷ bs) (hb, h) =
    let (p, q) = low_complement (256 ^ length bs) b (le_value bs) hb (le_value-lt bs h) in
    rw (pow_step (length bs), p, q) (ap (λ r. complement b ∷ r) (word_complement bs h))

reverse_words_lem :
    (k w : ℕ) (b : Bytes) → All IsByte b → w * k ≤ length b → reverse_words k w b ≡ map complement b
unfolding reverse_words safe_reverse_bytes
reverse_words_lem k zero b hb h = refl
reverse_words_lem k (suc w) b hb h =
    let n : length (take k b) ≡ k = omega (arith, length-take k b) in
    let word : le_bytes k (256 ^ k - 1 - le_value (take k b)) ≡ map complement (take k b) =
      rw n at (word_complement (take k b) (All-take IsByte k b hb)) in
    rw
      (
        word,
        reverse_words_lem k w (drop k b) (All-drop IsByte k b hb) (omega (arith, length-drop k b)),
      )
      (sym (map-append complement (take k b) (drop k b))
        ∙ ap (map complement) (take-append-drop k b))

-- On every architecture reverseBytes complements each byte of a string of bytes.
pub reverse_bytes_lem :
    (arch : Arch) (b : Bytes) → All IsByte b → reverse_bytes arch b ≡ map complement b
unfolding reverse_bytes fast_reverse_bytes safe_reverse_bytes
reverse_bytes_lem arch b hb = ground (
  arith,
  reverse_words_lem arch.word_size (length b / arch.word_size) b hb
      (div-mul-le_self (length b) arch.word_size),
)

-- ===== src/Core/Ids/Hex.antt =====
-- The hexadecimal form of an id (src/core/types.rs), written and read.
use layertwine.Prelude.{
  true, false, ℕ, zero, suc, ◌+◌, ◌*◌, ◌/◌, ◌%◌, ◌^◌, ◌<◌, ◌≡◌, refl, ap, ◌∙◌, [], ◌∷◌, ◌++◌, some,
  length, length-append, All, ltb, leb, ◌==◌, arith, ok,
}
use native.Mathlib.Omega.{pow_step}
use layertwine.Core.Ids.{
  Bytes, be_bytes, from_be_bytes, hex_digit, hex_encode, to_hex, digit_value, from_str_radix,
  is_boundary, hex_pairs, as_bytes, utf8_char, hex_decode, from_hex,
}

digit_value-hex_digit : (d : ℕ) → d < 16 → digit_value (hex_digit d) ≡ some d
unfolding digit_value hex_digit
digit_value-hex_digit d h = ground arith

hex_digit-ne-plus : (d : ℕ) → d < 16 → (hex_digit d == 43) ≡ false
unfolding hex_digit
hex_digit-ne-plus d h = ground arith

from_str_radix-hex :
    (b : ℕ) → b < 256 → from_str_radix (hex_digit (b / 16)) (hex_digit (b % 16)) ≡ some b
unfolding from_str_radix
from_str_radix-hex b h =
    let high : b / 16 < 16 = omega arith in
    let low : b % 16 < 16 = omega arith in
    let whole : b / 16 * 16 + b % 16 ≡ b = omega arith in
    rw
      (
        hex_digit-ne-plus (b / 16) high,
        digit_value-hex_digit (b / 16) high,
        digit_value-hex_digit (b % 16) low,
      )
      (ap some whole)

hex_digit-ascii : (d : ℕ) → d < 16 → ltb (hex_digit d) 128 ≡ true
unfolding hex_digit
hex_digit-ascii d h = ground arith

hex_digit-boundary : (d : ℕ) → d < 16 → leb 128 (hex_digit d) ≡ false
unfolding hex_digit
hex_digit-boundary d h = ground arith

hex_encode-boundary :
    (bytes : Bytes) → All (λ b. b < 256) bytes → is_boundary (hex_encode bytes) ≡ true
unfolding hex_encode
hex_encode-boundary [] h = refl
hex_encode-boundary (b ∷ bytes) (h, hs) = rw (hex_digit-boundary (b / 16) (omega arith)) refl

hex_pairs-encode :
    (bytes : Bytes) → All (λ b. b < 256) bytes → hex_pairs (hex_encode bytes) ≡ ok (some bytes)
unfolding hex_pairs hex_encode
hex_pairs-encode [] h = refl
hex_pairs-encode (b ∷ bytes) (h, hs) =
    rw
      (
        hex_digit-boundary (b / 16) (omega arith),
        hex_encode-boundary bytes hs,
        from_str_radix-hex b h,
        hex_pairs-encode bytes hs,
      )
      refl

-- The digits are ASCII.
as_bytes-hex_encode :
    (bytes : Bytes) → All (λ b. b < 256) bytes → as_bytes (hex_encode bytes) ≡ hex_encode bytes
unfolding as_bytes hex_encode utf8_char
as_bytes-hex_encode [] h = refl
as_bytes-hex_encode (b ∷ bytes) (h, hs) =
    rw
      (
        hex_digit-ascii (b / 16) (omega arith),
        hex_digit-ascii (b % 16) (omega arith),
        as_bytes-hex_encode bytes hs,
      )
      refl

length-hex_encode : (bytes : Bytes) → length (hex_encode bytes) ≡ 2 * length bytes
unfolding hex_encode
length-hex_encode [] = refl
length-hex_encode (b ∷ bytes) = omega (arith, length-hex_encode bytes)

hex_decode-encode :
    (bytes : Bytes) → All (λ b. b < 256) bytes → hex_decode (hex_encode bytes) ≡ ok (some bytes)
unfolding hex_decode
hex_decode-encode bytes h =
    let even : (length (hex_encode bytes) % 2 == 0) ≡ true =
      ground (arith, length-hex_encode bytes) in
    rw (as_bytes-hex_encode bytes h, even) (hex_pairs-encode bytes h)

All-snoc :
    (bytes : Bytes) (b : ℕ)
    → All (λ c. c < 256) bytes
    → b < 256
    → All (λ c. c < 256) (bytes ++ (b ∷ []))
All-snoc [] b h l = (l, tt)
All-snoc (c ∷ bytes) b (m, h) l = (m, All-snoc bytes b h l)

be_bytes-All : (count n : ℕ) → All (λ b. b < 256) (be_bytes count n)
unfolding be_bytes
be_bytes-All zero n = tt
be_bytes-All (suc count) n =
    All-snoc (be_bytes count (n / 256)) (n % 256) (be_bytes-All count (n / 256)) (omega arith)

length-be_bytes : (count n : ℕ) → length (be_bytes count n) ≡ count
unfolding be_bytes
length-be_bytes zero n = refl
length-be_bytes (suc count) n = omega (
  arith,
  length-append (be_bytes count (n / 256)) ((n % 256) ∷ []),
  length-be_bytes count (n / 256),
)

from_be_bytes-append :
    (acc : ℕ) (xs : Bytes) (b : ℕ)
    → from_be_bytes acc (xs ++ (b ∷ [])) ≡ from_be_bytes acc xs * 256 + b
unfolding from_be_bytes
from_be_bytes-append acc [] b = refl
from_be_bytes-append acc (x ∷ xs) b = from_be_bytes-append (acc * 256 + x) xs b

power_zero : 256 ^ 0 ≡ 1
power_zero = refl

power_suc : (count : ℕ) → 256 ^ suc count ≡ 256 * 256 ^ count
power_suc count = pow_step 256 count

from_be_bytes-be_bytes : (count n : ℕ) → n < 256 ^ count → from_be_bytes 0 (be_bytes count n) ≡ n
unfolding be_bytes
from_be_bytes-be_bytes zero n h = unfold from_be_bytes in omega (arith, power_zero)
from_be_bytes-be_bytes (suc count) n h =
    let less : n / 256 < 256 ^ count = omega (arith, power_suc count) in
    from_be_bytes-append 0 (be_bytes count (n / 256)) (n % 256)
    ∙ rw (from_be_bytes-be_bytes count (n / 256) less) (omega arith)

-- Every id of 32 bytes is read back from its hexadecimal form.
pub from_hex-to_hex : (id : ℕ) → id < 256 ^ 32 → from_hex (to_hex id) ≡ ok (some id)
unfolding from_hex to_hex
from_hex-to_hex id h =
    rw (hex_decode-encode (be_bytes 32 id) (be_bytes-All 32 id), length-be_bytes 32 id)
      (ap (λ n. ok (some n)) (from_be_bytes-be_bytes 32 id h))

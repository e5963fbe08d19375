-- ===== src/Core/Ids.antt =====
-- `ContentId` of src/core/types.rs: an id is the number that its 32 bytes write, the highest first. `blake3` stands for
-- the hash of the blake3 crate, from the bytes that it is given to an id.
pub mod Hex
use layertwine.Prelude.{
  ℕ, zero, suc, ◌+◌, ◌-◌, ◌*◌, ◌/◌, ◌%◌, ◌^◌, Bool, true, false, not, ◌&&◌, List, [], ◌∷◌, ◌++◌,
  Option, none, some, Text, length, ltb, leb, ◌==◌, if◌then◌else◌, Result, ok, err, Error, ◌>>=◌,
}

abbrev pub Bytes : Type 0
Bytes = List ℕ

-- The last `count` bytes of a number.
unfoldable pub be_bytes : (count : ℕ) → ℕ → Bytes
be_bytes zero n = []
be_bytes (suc count) n = be_bytes count (n / 256) ++ ((n % 256) ∷ [])

abbrev pub id_bytes : ℕ → Bytes
id_bytes id = be_bytes 32 id

-- The number that some bytes write.
unfoldable pub from_be_bytes : (acc : ℕ) → Bytes → ℕ
from_be_bytes acc [] = acc
from_be_bytes acc (b ∷ bytes) = from_be_bytes (acc * 256 + b) bytes

-- `str::as_bytes`: the UTF-8 bytes of a text.
unfoldable pub utf8_char : ℕ → Bytes
utf8_char c =
    if ltb c 128
    then c ∷ []
    else if ltb c 2048
    then (192 + c / 64) ∷ (128 + c % 64) ∷ []
    else if ltb c 65536
    then (224 + c / 4096) ∷ (128 + c / 64 % 64) ∷ (128 + c % 64) ∷ []
    else (240 + c / 262144) ∷ (128 + c / 4096 % 64) ∷ (128 + c / 64 % 64) ∷ (128 + c % 64) ∷ []

unfoldable pub as_bytes : Text → Bytes
as_bytes [] = []
as_bytes (c ∷ text) = utf8_char c ++ as_bytes text

-- A digit of `{:02x}`.
unfoldable pub hex_digit : ℕ → ℕ
hex_digit d = if ltb d 10 then 48 + d else 87 + d

unfoldable pub hex_encode : Bytes → Text
hex_encode [] = []
hex_encode (b ∷ bytes) = hex_digit (b / 16) ∷ hex_digit (b % 16) ∷ hex_encode bytes

unfoldable pub to_hex : ℕ → Text
to_hex id = hex_encode (id_bytes id)

-- `char::to_digit(16)`.
unfoldable pub digit_value : ℕ → Option ℕ
digit_value c =
    if leb 48 c && leb c 57
    then some (c - 48)
    else if leb 97 c && leb c 102
    then some (c - 87)
    else if leb 65 c && leb c 70
    then some (c - 55)
    else none

abbrev pub two_digits : Option ℕ → Option ℕ → Option ℕ
two_digits (some h) (some l) = some (h * 16 + l)
two_digits (some h) none = none
two_digits none l = none

-- `u8::from_str_radix(_, 16)` on two bytes: a leading `+` is accepted.
unfoldable pub from_str_radix : ℕ → ℕ → Option ℕ
from_str_radix high low =
    if high == 43 then digit_value low else two_digits (digit_value high) (digit_value low)

-- `collect` into an `Option` stops at the first `none`.
abbrev pub push_byte : Option ℕ → Result (Option Bytes) → Result (Option Bytes)
push_byte none rest = ok none
push_byte (some b) rest =
    rest >>= λ found. ok (elim found [ none ↦ none | some bytes ↦ some (b ∷ bytes) ])

-- Whether a character begins here: a byte that continues one is from 128 to 191.
abbrev pub is_boundary : Bytes → Bool
is_boundary [] = true
is_boundary (b ∷ bytes) = not (leb 128 b && ltb b 192)

-- The slices `s[i..i + 2]` of an even number of bytes, which panic where they would part a character.
unfoldable pub hex_pairs : Bytes → Result (Option Bytes)
hex_pairs [] = ok (some [])
hex_pairs (b ∷ []) = ok none
hex_pairs (high ∷ low ∷ bytes) =
    let rest = hex_pairs bytes in
    if is_boundary (high ∷ low ∷ bytes) && is_boundary bytes
    then push_byte (from_str_radix high low) rest
    else err Error.panic

unfoldable pub hex_decode : Text → Result (Option Bytes)
hex_decode text = if length (as_bytes text) % 2 == 0 then hex_pairs (as_bytes text) else ok none

abbrev pub id_of : Option Bytes → Option ℕ
id_of none = none
id_of (some bytes) = if length bytes == 32 then some (from_be_bytes 0 bytes) else none

unfoldable pub from_hex : Text → Result (Option ℕ)
from_hex text = hex_decode text >>= λ bytes. ok (id_of bytes)

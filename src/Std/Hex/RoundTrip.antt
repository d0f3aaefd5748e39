-- ===== src/Std/Hex/RoundTrip.antt =====
-- Bytes are read back from their hex text.
use computing_api.Base.{
  IsAscii, IsBytes, Str, [], arith, ok, refl, some, ℕ, ◌%◌, ◌*◌, ◌+◌, ◌/◌, ◌<◌, ◌∷◌, ◌≡◌,
}
use computing_api.Std.Hex.{from_digit, hex_decode, hex_digit, hex_encode}

from_digit-hex_digit : (d : ℕ) → d < 16 → from_digit (hex_digit d) ≡ some d
unfolding from_digit hex_digit
from_digit-hex_digit d h = ground arith

nibbles : (c : ℕ) → c / 16 * 16 + c % 16 ≡ c
nibbles c = omega arith

pub hex_decode-hex_encode : (s : Str) → IsBytes s → hex_decode (hex_encode s) ≡ ok s
unfolding hex_decode hex_encode
hex_decode-hex_encode [] h = refl
hex_decode-hex_encode (c ∷ s) (hc, hs) = rw (
  from_digit-hex_digit (c / 16) (omega arith),
  from_digit-hex_digit (c % 16) (omega arith),
  hex_decode-hex_encode s hs,
  nibbles c,
)

hex_digit-ascii : (d : ℕ) → d < 16 → hex_digit d < 128
unfolding hex_digit
hex_digit-ascii d h = ground arith

pub hex_encode-IsAscii : (s : Str) → IsBytes s → IsAscii (hex_encode s)
unfolding hex_encode
hex_encode-IsAscii [] h = tt
hex_encode-IsAscii (c ∷ s) (b, h) = (
  hex_digit-ascii (c / 16) (omega arith),
  (hex_digit-ascii (c % 16) (omega arith), hex_encode-IsAscii s h),
)

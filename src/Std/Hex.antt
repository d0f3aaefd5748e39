-- ===== src/Std/Hex.antt =====
-- `encoding/hex`: two lower-case digits for each byte; digits of either case are read.
pub mod RoundTrip
use computing_api.Base.{
  Error, Option, Result, Str, [], bind, err, foreign, if◌then◌else◌, leb, ltb, none, ok, refl, some,
  text, ℕ, ◌%◌, ◌&&◌, ◌*◌, ◌+◌, ◌-◌, ◌/◌, ◌∷◌, ◌≡◌,
}

abbrev pub bad_hex : Error
bad_hex = foreign "encoding/hex: invalid byte or odd length"

unfoldable pub hex_digit : ℕ → ℕ
hex_digit d = if ltb d 10 then b'0' + d else b'a' + (d - 10)

unfoldable pub from_digit : ℕ → Option ℕ
from_digit c =
    if leb b'0' c && leb c b'9'
    then some (c - b'0')
    else if leb b'a' c && leb c b'f'
    then some (c - b'a' + 10)
    else if leb b'A' c && leb c b'F'
    then some (c - b'A' + 10)
    else none

-- `EncodeToString`
unfoldable pub hex_encode : Str → Str
unfolding hex_digit
hex_encode [] = []
hex_encode (c ∷ s) = hex_digit (c / 16) ∷ hex_digit (c % 16) ∷ hex_encode s

abbrev pub join_digits : Option ℕ → Option ℕ → Result Str → Result Str
join_digits (some hi) (some lo) rest = bind rest (λ s. ok ((hi * 16 + lo) ∷ s))
join_digits _ _ rest = err bad_hex

-- `DecodeString`, which gives nothing to its callers here beside an error.
unfoldable pub hex_decode : Str → Result Str
unfolding from_digit
hex_decode [] = ok []
hex_decode (c ∷ []) = err bad_hex
hex_decode (c ∷ d ∷ s) = let rest = hex_decode s in join_digits (from_digit c) (from_digit d) rest

hex_reads : hex_decode (text "0aFf") ≡ ok (10 ∷ 255 ∷ [])
unfolding hex_decode text
hex_reads = refl

-- ===== src/Std/Strconv.antt =====
-- `strconv`: `ParseUint`, `ParseInt`, `Atoi`, `FormatUint` and `FormatInt` at base 10 and 64 bits.
pub mod RoundTrip
use computing_api.Base.{
  Bool, Result, Str, [], bad_syntax, err, false, if◌then◌else◌, leb, ltb, ok, out_of_range, panic,
  refl, suc, text, true, zero, ℕ, ◌%◌, ◌&&◌, ◌*◌, ◌+◌, ◌-◌, ◌/◌, ◌==◌, ◌^◌, ◌∷◌, ◌≡◌,
}
use computing_api.Base.Int.{negsuc, pos, ℤ}

abbrev pub is_digit : ℕ → Bool
is_digit c = leb b'0' c && leb c b'9'

-- The loop of `ParseUint`: it stops at the first byte that is no digit or that overflows.
pub scan : ℕ → Str → Result ℕ
scan n [] = ok n
scan n (c ∷ s) =
    if is_digit c
    then if leb (2 ^ 64) (n * 10 + (c - b'0'))
      then err out_of_range
      else scan (n * 10 + (c - b'0')) s
    else err bad_syntax

unfoldable pub parse_uint : Str → Result ℕ
unfolding scan
parse_uint [] = err bad_syntax
parse_uint (c ∷ s) = scan 0 (c ∷ s)

-- `ParseInt` holds what `ParseUint` returns against 2^63; a range error stays one.
pub signed : Bool → Result ℕ → Result ℤ
signed false (ok n) = if leb (2 ^ 63) n then err out_of_range else ok (pos n)
signed true (ok zero) = ok (pos 0)
signed true (ok (suc n)) = if ltb (2 ^ 63) (suc n) then err out_of_range else ok (negsuc n)
signed _ (err e) = err e
signed _ (panic why) = panic why

-- `ParseInt(s, 10, 64)`, and `Atoi` on a 64-bit machine.
unfoldable pub parse_int : Str → Result ℤ
unfolding signed parse_uint
parse_int [] = err bad_syntax
parse_int (c ∷ s) =
    if c == b'-'
    then signed true (parse_uint s)
    else if c == b'+'
    then signed false (parse_uint s)
    else signed false (parse_uint (c ∷ s))

-- The digits of `n` put in front of `out`; 20 rounds serve every number below 10^20.
pub emit : ℕ → ℕ → Str → Str
emit zero n out = out
emit (suc rounds) n out =
    let longer = emit rounds (n / 10) ((b'0' + n % 10) ∷ out) in
    if ltb n 10 then (b'0' + n) ∷ out else longer

unfoldable pub format_uint : ℕ → Str
unfolding emit
format_uint n = emit 20 n []

unfoldable pub format_int : ℤ → Str
unfolding format_uint
format_int (pos n) = format_uint n
format_int (negsuc n) = b'-' ∷ format_uint (suc n)

format_max : format_uint (2 ^ 64 - 1) ≡ text "18446744073709551615"
unfolding format_uint text
format_max = refl

parse_past_max : parse_uint (text "18446744073709551616") ≡ err out_of_range
unfolding parse_uint text
parse_past_max = refl

parse_signs :
    (parse_int (text "-12") ≡ ok (negsuc 11))
    × (parse_int (text "+7") ≡ ok (pos 7))
    × (parse_int (text "-") ≡ err bad_syntax)
    × (parse_int (text "9223372036854775808") ≡ err out_of_range)
unfolding parse_int text
parse_signs = (refl, refl, refl, refl)

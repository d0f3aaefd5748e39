-- ===== src/Std/Base64.antt =====
-- `base64.URLEncoding`: `EncodeToString` and `DecodeString`, with padding.
pub mod RoundTrip
use computing_api.Std.Strings.{is_empty}
use computing_api.Base.{
  Option, Result, Str, [], err, foreign, if◌then◌else◌, leb, ltb, none, ok, refl, some, text, ℕ,
  ◌%◌, ◌&&◌, ◌*◌, ◌+◌, ◌-◌, ◌/◌, ◌==◌, ◌||◌, ◌∷◌, ◌≡◌,
}

-- A digit of the URL alphabet: A-Z, a-z, 0-9, '-', '_'.
unfoldable pub enc6 : ℕ → ℕ
enc6 v =
    if ltb v 26
    then b'A' + v
    else if ltb v 52
    then b'a' + (v - 26)
    else if ltb v 62
    then b'0' + (v - 52)
    else if v == 62
    then b'-'
    else b'_'

unfoldable pub dec6 : ℕ → Option ℕ
dec6 c =
    if leb b'A' c && leb c b'Z'
    then some (c - b'A')
    else if leb b'a' c && leb c b'z'
    then some (c - b'a' + 26)
    else if leb b'0' c && leb c b'9'
    then some (c - b'0' + 52)
    else if c == b'-'
    then some 62
    else if c == b'_'
    then some 63
    else none

unfoldable pub encode : Str → Str
unfolding enc6
encode [] = []
encode (a ∷ []) = enc6 (a / 4) ∷ enc6 (a % 4 * 16) ∷ b'=' ∷ b'=' ∷ []
encode (a ∷ b ∷ []) = enc6 (a / 4) ∷ enc6 (a % 4 * 16 + b / 16) ∷ enc6 (b % 16 * 4) ∷ b'=' ∷ []
encode (a ∷ b ∷ c ∷ rest) =
    enc6 (a / 4)
    ∷ enc6 (a % 4 * 16 + b / 16)
    ∷ enc6 (b % 16 * 4 + c / 64)
    ∷ enc6 (c % 64)
    ∷ encode rest

-- The decoder skips '\r' and '\n'.
unfoldable pub strip_newlines : Str → Str
strip_newlines [] = []
strip_newlines (c ∷ s) =
    let rest = strip_newlines s in if c == 10 || c == 13 then rest else c ∷ rest

-- The last four digits with padding in the last place: one byte or two.
unfoldable pub decode_tail : Option ℕ → Option ℕ → ℕ → Result Str
decode_tail (some x) (some y) c = if c == b'=' then ok ((x * 4 + y / 16) ∷ []) else elim (dec6 c) [
  | none ↦ err (foreign "base64")
  | some z ↦ ok ((x * 4 + y / 16) ∷ (y % 16 * 16 + z / 4) ∷ [])
]
decode_tail _ _ c = err (foreign "base64")

-- Four digits are three bytes.
unfoldable pub decode_quad : Option ℕ → Option ℕ → Option ℕ → Option ℕ → Result Str → Result Str
decode_quad (some x) (some y) (some z) (some u) (ok rest) =
    ok ((x * 4 + y / 16) ∷ (y % 16 * 16 + z / 4) ∷ (z % 4 * 64 + u) ∷ rest)
decode_quad (some x) (some y) (some z) (some u) failed = failed
decode_quad _ _ _ _ rest = err (foreign "base64")

unfoldable pub decode_quads : Str → Result Str
decode_quads [] = ok []
decode_quads (a ∷ b ∷ c ∷ d ∷ rest) =
    if is_empty rest && d == b'='
    then decode_tail (dec6 a) (dec6 b) c
    else decode_quad (dec6 a) (dec6 b) (dec6 c) (dec6 d) (decode_quads rest)
decode_quads _ = err (foreign "base64")

unfoldable pub decode : Str → Result Str
unfolding strip_newlines decode_quads decode_tail decode_quad dec6
decode s = decode_quads (strip_newlines s)

encode-text : encode (text "ab?>") ≡ text "YWI_Pg=="
unfolding encode text
encode-text = refl

decode-text : decode (text "YWI_Pg==") ≡ ok (text "ab?>")
unfolding decode text
decode-text = refl

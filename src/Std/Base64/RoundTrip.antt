-- ===== src/Std/Base64/RoundTrip.antt =====
-- Decoding what was encoded, the padding kept, and the padding taken off and put back.
use computing_api.Base.{
  All, All-append, All-map, Bool-cases, IsBytes, Str, [], ap, arith, false, if◌then◌else◌, inl, inr,
  length, ltb, ok, refl, some, suc, true, zero, ℕ, ◌%◌, ◌*◌, ◌++◌, ◌+◌, ◌-◌, ◌/◌, ◌<◌, ◌∙◌, ◌∷◌,
  ◌≡◌, ◌≢◌, ◌≤◌,
}
use computing_api.Std.Strings.{repeat, trim_right, trim_right-append}
use computing_api.Std.Base64.{
  dec6, decode, decode_quad, decode_quads, decode_tail, enc6, encode, strip_newlines,
}

dec6-enc6 : (v : ℕ) → v < 64 → dec6 (enc6 v) ≡ some v
unfolding dec6 enc6
dec6-enc6 v h = ground arith

enc6_chars : (v : ℕ) → v < 64 → (b'-' ≤ enc6 v) × (enc6 v ≢ b'=')
unfolding enc6
enc6_chars v h = ground arith

-- The digits of `encode` with no padding.
pub raw : Str → Str
raw [] = []
raw (a ∷ []) = enc6 (a / 4) ∷ enc6 (a % 4 * 16) ∷ []
raw (a ∷ b ∷ []) = enc6 (a / 4) ∷ enc6 (a % 4 * 16 + b / 16) ∷ enc6 (b % 16 * 4) ∷ []
raw (a ∷ b ∷ c ∷ rest) =
    enc6 (a / 4)
    ∷ enc6 (a % 4 * 16 + b / 16)
    ∷ enc6 (b % 16 * 4 + c / 64)
    ∷ enc6 (c % 64)
    ∷ raw rest

abbrev IsDigit : ℕ → Type 0
IsDigit c = (b'-' ≤ c) × (c ≢ b'=')

raw-All : (s : Str) → IsBytes s → All IsDigit (raw s)
unfolding raw
raw-All [] h = tt
raw-All (a ∷ []) h = (enc6_chars _ (omega arith), (enc6_chars _ (omega arith), tt))
raw-All (a ∷ b ∷ []) (ha, (hb, h)) =
    (enc6_chars _ (omega arith), (enc6_chars _ (omega arith), (enc6_chars _ (omega arith), tt)))
raw-All (a ∷ b ∷ c ∷ rest) (ha, (hb, (hc, h))) = (
  enc6_chars _ (omega arith),
  (
    enc6_chars _ (omega arith),
    (enc6_chars _ (omega arith), (enc6_chars _ (omega arith), raw-All rest h)),
  ),
)

-- The padding behind digits whose number is `l` modulo 4.
pub padding : ℕ → Str
padding l = if ltb 0 l then repeat b'=' (4 - l) else []

pub padding-some : (l : ℕ) → ltb 0 l ≡ true → padding l ≡ repeat b'=' (4 - l)
unfolding padding
padding-some l h = rw h

pub padding-none : (l : ℕ) → ltb 0 l ≡ false → padding l ≡ []
unfolding padding
padding-none l h = rw h

padding-shift : (l : ℕ) → padding (l % 4) ≡ padding (suc (suc (suc (suc l))) % 4)
padding-shift l = ap padding {x = l % 4} {y = suc (suc (suc (suc l))) % 4} (omega arith)

pub encode-eq-raw : (s : Str) → encode s ≡ raw s ++ padding (length (raw s) % 4)
unfolding encode raw padding repeat
encode-eq-raw [] = refl
encode-eq-raw (a ∷ []) = refl
encode-eq-raw (a ∷ b ∷ []) = refl
encode-eq-raw (a ∷ b ∷ c ∷ rest) =
    ap
      (λ t.
        enc6 (a / 4) ∷ enc6 (a % 4 * 16 + b / 16) ∷ enc6 (b % 16 * 4 + c / 64) ∷ enc6 (c % 64) ∷ t)
      (encode-eq-raw rest ∙ ap (λ t. raw rest ++ t) (padding-shift (length (raw rest))))

padding-cases : (l : ℕ) → (n : ℕ) × (padding l ≡ repeat b'=' n)
unfolding padding
padding-cases l = elim (Bool-cases (ltb 0 l)) [
  | inl some_left ↦ (4 - l, rw some_left)
  | inr none_left ↦ (0, rw none_left (unfold repeat in refl))
]

repeat-All : (P : ℕ → Type 0) (c n : ℕ) → P c → All P (repeat c n)
unfolding repeat
repeat-All P c zero p = tt
repeat-All P c (suc n) p = (p, repeat-All P c n p)

-- Trimming the padding off leaves the digits.
pub trim_right-encode : (s : Str) → IsBytes s → trim_right b'=' (encode s) ≡ raw s
trim_right-encode s h =
    let (n, e) = padding-cases (length (raw s) % 4) in
    rw (encode-eq-raw s, e)
      (trim_right-append b'=' (raw s) n (All-map (λ c d. d.1) (raw s) (raw-All s h)))

-- No digit and no padding is a newline.
encode-All : (s : Str) → IsBytes s → All (λ c. b'-' ≤ c) (encode s)
encode-All s h =
    let (n, e) = padding-cases (length (raw s) % 4) in
    rw (encode-eq-raw s, e)
      (All-append _ (raw s) (repeat b'=' n) (All-map (λ c d. d.0) (raw s) (raw-All s h))
        (repeat-All _ b'=' n (omega arith)))

strip_newlines_self : (s : Str) → All (λ c. b'-' ≤ c) s → strip_newlines s ≡ s
unfolding strip_newlines
strip_newlines_self [] h = refl
strip_newlines_self (c ∷ s) (p, h) = ground (arith, strip_newlines_self s h)

decode-eq : (s : Str) → decode s ≡ decode_quads (strip_newlines s)
unfolding decode
decode-eq s = refl

decode_quads-cons :
    (a b c d : ℕ) (rest : Str)
    → d ≢ b'='
    → decode_quads (a ∷ b ∷ c ∷ d ∷ rest)
      ≡ decode_quad (dec6 a) (dec6 b) (dec6 c) (dec6 d) (decode_quads rest)
unfolding decode_quads
decode_quads-cons a b c d rest h = ground arith

decode_quad-bytes :
    (a b c : ℕ) (rest : Str)
    → c < 256
    → b < 256
    → decode_quad
        (some (a / 4))
        (some (a % 4 * 16 + b / 16))
        (some (b % 16 * 4 + c / 64))
        (some (c % 64))
        (ok rest)
      ≡ ok (a ∷ b ∷ c ∷ rest)
unfolding decode_quad
decode_quad-bytes a b c rest h k = ground arith

decode_quads-encode : (s : Str) → IsBytes s → decode_quads (encode s) ≡ ok s
unfolding encode
decode_quads-encode [] h = unfold decode_quads in refl
decode_quads-encode (a ∷ []) (ha, _) =
    unfold decode_quads decode_tail in
    rw (dec6-enc6 (a / 4) (omega arith), dec6-enc6 (a % 4 * 16) (omega arith)) (ground arith)
decode_quads-encode (a ∷ b ∷ []) (ha, (hb, _)) =
    unfold decode_quads decode_tail in
    rw (dec6-enc6 (a / 4) (omega arith), dec6-enc6 (a % 4 * 16 + b / 16) (omega arith))
      (ground (arith, dec6-enc6 (b % 16 * 4), enc6_chars (b % 16 * 4)))
decode_quads-encode (a ∷ b ∷ c ∷ rest) (ha, (hb, (hc, h))) =
    decode_quads-cons _ _ _ _ (encode rest) (enc6_chars (c % 64) (omega arith)).1
    ∙ rw
        (
          dec6-enc6 (a / 4) (omega arith),
          dec6-enc6 (a % 4 * 16 + b / 16) (omega arith),
          dec6-enc6 (b % 16 * 4 + c / 64) (omega arith),
          dec6-enc6 (c % 64) (omega arith),
          decode_quads-encode rest h,
        )
        (decode_quad-bytes a b c rest hc hb)

-- `DecodeString` gives back the bytes that `EncodeToString` wrote.
pub decode-encode : (s : Str) → IsBytes s → decode (encode s) ≡ ok s
decode-encode s h =
    decode-eq (encode s)
    ∙ ap decode_quads (strip_newlines_self (encode s) (encode-All s h))
    ∙ decode_quads-encode s h

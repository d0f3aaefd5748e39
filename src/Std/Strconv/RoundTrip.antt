-- ===== src/Std/Strconv/RoundTrip.antt =====
-- Printing a 64-bit number and parsing it.
use computing_api.Base.{
  All, Bool-cases, Str, [], ap, arith, false, inl, inr, ltb, ok, refl, suc, sym, true, zero, ℕ, ◌%◌,
  ◌*◌, ◌+◌, ◌/◌, ◌<◌, ◌^◌, ◌∙◌, ◌∷◌, ◌≡◌, ◌≤◌,
}
use computing_api.Std.Strconv.{emit, format_int, format_uint, parse_int, parse_uint, scan, signed}
use computing_api.Base.Int.{IsInt64, negsuc, pos, ℤ}

-- 10 ^ rounds
abbrev pow10 : ℕ → ℕ
pow10 zero = 1
pow10 (suc rounds) = 10 * pow10 rounds

-- One digit more is scanned as one decimal place more.
scan-digit :
    (n d : ℕ) (out : Str)
    → d < 10
    → n * 10 + d < 2 ^ 64
    → scan n ((b'0' + d) ∷ out) ≡ scan (n * 10 + d) out
unfolding scan
scan-digit n d out small fits = ground arith

scan-emit :
    (rounds n : ℕ) (out : Str)
    → n < pow10 (suc rounds)
    → n < 2 ^ 64
    → scan 0 (emit (suc rounds) n out) ≡ scan n out
unfolding emit
scan-emit zero n out low fits = ground (arith, scan-digit 0 n out low (omega arith))
scan-emit (suc rounds) n out low fits = elim (Bool-cases (ltb n 10)) [
  | inl one ↦ ground (arith, scan-digit 0 n out)
  | inr more ↦ rw more (
      scan-emit rounds (n / 10) ((b'0' + n % 10) ∷ out) (omega arith) (omega arith)
      ∙ scan-digit (n / 10) (n % 10) out (omega arith) (omega arith)
      ∙ ap (λ k. scan k out) (omega arith))
]

-- A printed number is not empty, and begins with a digit.
emit_head :
    (rounds n : ℕ) (out : Str)
    → (c : ℕ) × (s : Str) × (emit (suc rounds) n out ≡ c ∷ s) × (b'0' ≤ c)
unfolding emit
emit_head zero n out = elim (Bool-cases (ltb n 10)) [
  | inl one ↦ (b'0' + n, out, rw one, omega arith)
  | inr more ↦ (b'0' + n % 10, out, rw more, omega arith)
]
emit_head (suc rounds) n out = elim (Bool-cases (ltb n 10)) [
  | inl one ↦ (b'0' + n, out, rw one, omega arith)
  | inr more ↦ rw more (emit_head rounds (n / 10) ((b'0' + n % 10) ∷ out))
]

parse_uint-cons : (c : ℕ) (s : Str) → parse_uint (c ∷ s) ≡ scan 0 (c ∷ s)
unfolding parse_uint
parse_uint-cons c s = refl

-- Parsing what `FormatUint` printed gives the number back.
pub parse_uint-format_uint : (n : ℕ) → n < 2 ^ 64 → parse_uint (format_uint n) ≡ ok n
unfolding format_uint scan
parse_uint-format_uint n h =
    let (c, s, e, _) = emit_head 19 n [] in
    ap parse_uint e ∙ parse_uint-cons c s ∙ ap (scan 0) (sym e) ∙ scan-emit 19 n [] (omega arith) h

parse_int-digit :
    (c : ℕ) (s : Str) → b'0' ≤ c → parse_int (c ∷ s) ≡ signed false (parse_uint (c ∷ s))
unfolding parse_int
parse_int-digit c s h = ground arith

parse_int-minus : (s : Str) → parse_int (b'-' ∷ s) ≡ signed true (parse_uint s)
unfolding parse_int
parse_int-minus s = refl

-- Parsing what `FormatInt` printed gives the number back.
pub parse_int-format_int : (z : ℤ) → IsInt64 z → parse_int (format_int z) ≡ ok z
unfolding format_int
parse_int-format_int (pos n) h =
    let (c, s, e, d) = emit_head 19 n [] in
    ap parse_int e
    ∙ parse_int-digit c s d
    ∙ ap (λ t. signed false (parse_uint t)) (sym e)
    ∙ unfold signed in rw (parse_uint-format_uint n (omega arith)) (ground arith)
parse_int-format_int (negsuc n) h =
    parse_int-minus (format_uint (suc n))
    ∙ unfold signed in rw (parse_uint-format_uint (suc n) (omega arith)) (ground arith)

emit-All :
    (P : ℕ → Type 0) (rounds n : ℕ) (out : Str)
    → ((d : ℕ) → d < 10 → P (b'0' + d))
    → All P out
    → n < pow10 rounds
    → All P (emit rounds n out)
unfolding emit
emit-All P zero n out p h low = h
emit-All P (suc rounds) n out p h low = elim (Bool-cases (ltb n 10)) [
  | inl one ↦ rw one (p n (ground arith), h)
  | inr more ↦ rw more (
      emit-All P rounds (n / 10) ((b'0' + n % 10) ∷ out) p (p (n % 10) (omega arith), h)
        (omega arith))
]

-- A printed number is made of digits.
pub format_uint-All :
    (P : ℕ → Type 0) (n : ℕ)
    → ((d : ℕ) → d < 10 → P (b'0' + d))
    → n < 2 ^ 64
    → All P (format_uint n)
unfolding format_uint
format_uint-All P n digit h = emit-All P 20 n [] digit tt (omega arith)

-- A printed integer is made of digits and a minus sign.
pub format_int-All :
    (P : ℕ → Type 0) (z : ℤ)
    → P b'-'
    → ((d : ℕ) → d < 10 → P (b'0' + d))
    → IsInt64 z
    → All P (format_int z)
unfolding format_int
format_int-All P (pos n) minus digit h = emit-All P 20 n [] digit tt (omega arith)
format_int-All P (negsuc n) minus digit h = (minus, emit-All P 20 (suc n) [] digit tt (omega arith))

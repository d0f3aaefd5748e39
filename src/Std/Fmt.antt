-- ===== src/Std/Fmt.antt =====
-- `fmt.Sscanf` with the format `%d` and one `int`, on an ASCII text: spaces are skipped, a sign is
-- read, then digits as far as they go, and what follows them is left unread.
use mathlib.Core.List.{append-nil}
use computing_api.Base.{
  All, Bool, Result, Str, [], ap, arith, bad_syntax, bind, err, false, if◌then◌else◌, ok, refl, sym,
  true, ℕ, ◌++◌, ◌<◌, ◌==◌, ◌^◌, ◌||◌, ◌∙◌, ◌∷◌, ◌≡◌,
}
use computing_api.Base.Int.{pos, ℤ}
use computing_api.Std.Strconv.{format_int, format_uint, is_digit, parse_int}
use computing_api.Std.Strconv.RoundTrip.{format_uint-All, parse_int-format_int}

abbrev pub is_blank : ℕ → Bool
is_blank c = c == 32 || c == 9 || c == 11 || c == 12 || c == 13

unfoldable pub skip_space : Str → Result Str
skip_space [] = ok []
skip_space (c ∷ s) =
    let rest = skip_space s in
    if c == 10 then err bad_syntax else if is_blank c then rest else ok (c ∷ s)

unfoldable pub leading_digits : Str → Str
leading_digits [] = []
leading_digits (c ∷ s) = let rest = leading_digits s in if is_digit c then c ∷ rest else []

unfoldable pub scan_number : Str → Result ℤ
unfolding leading_digits
scan_number [] = err bad_syntax
scan_number (c ∷ s) =
    if c == b'-' || c == b'+'
    then parse_int (c ∷ leading_digits s)
    else parse_int (leading_digits (c ∷ s))

unfoldable pub sscanf_d : Str → Result ℤ
unfolding skip_space scan_number
sscanf_d s = bind (skip_space s) scan_number

abbrev pub starts_with_digit : Str → Bool
starts_with_digit [] = false
starts_with_digit (c ∷ s) = is_digit c

leading_digits-append :
    (s rest : Str)
    → All (λ c. is_digit c ≡ true) s
    → starts_with_digit rest ≡ false
    → leading_digits (s ++ rest) ≡ s
unfolding leading_digits
leading_digits-append [] [] h stop = refl
leading_digits-append [] (c ∷ rest) h stop = rw stop refl
leading_digits-append (c ∷ s) rest (p, h) stop = rw (p, leading_digits-append s rest h stop) refl

-- A text that begins with a digit is read from its start.
sscanf_d-digit :
    (c : ℕ) (s : Str) → is_digit c ≡ true → sscanf_d (c ∷ s) ≡ parse_int (leading_digits (c ∷ s))
unfolding sscanf_d skip_space scan_number
sscanf_d-digit c s p = ground arith

sscanf_d-digits :
    (s rest : Str) (z : ℤ)
    → All (λ c. is_digit c ≡ true) s
    → parse_int s ≡ ok z
    → starts_with_digit rest ≡ false
    → sscanf_d (s ++ rest) ≡ ok z
unfolding parse_int
sscanf_d-digits [] rest z h e stop = absurd (cc)
sscanf_d-digits (c ∷ s) rest z (p, h) e stop =
    sscanf_d-digit c (s ++ rest) p
    ∙ ap parse_int (leading_digits-append (c ∷ s) rest (p, h) stop)
    ∙ e

-- A printed number is read back, whatever stands behind it that is no digit.
pub sscanf_d-format_uint :
    (n : ℕ) (rest : Str)
    → n < 2 ^ 63
    → starts_with_digit rest ≡ false
    → sscanf_d (format_uint n ++ rest) ≡ ok (pos n)
unfolding format_int
sscanf_d-format_uint n rest h stop =
    sscanf_d-digits (format_uint n) rest (pos n)
      (format_uint-All (λ c. is_digit c ≡ true) n (λ d small. ground arith) (omega arith))
      (parse_int-format_int (pos n) (omega arith, omega arith)) stop

pub sscanf_d_number : (n : ℕ) → n < 2 ^ 63 → sscanf_d (format_uint n) ≡ ok (pos n)
sscanf_d_number n h =
    ap sscanf_d (sym (append-nil (format_uint n))) ∙ sscanf_d-format_uint n [] h refl

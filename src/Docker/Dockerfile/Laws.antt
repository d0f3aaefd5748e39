-- ===== src/Docker/Dockerfile/Laws.antt =====
-- What the port of a Dockerfile is.
use mathlib.Core.Path.{subst}
use computing_api.Base.{
  All, Bool-cases, List, Result, Str, [], err, if◌then◌else◌, inl, inr, new, ok, ok-injective,
  str_eq, true, wrap, wrapped-eq-ok, ◌∙◌, ◌∷◌, ◌≡◌, ◌≢◌,
}
use computing_api.Std.Strconv.{is_digit}
use computing_api.Std.Strings.{has_prefix}
use computing_api.Std.Fmt.{leading_digits}
use computing_api.Std.Bufio.{scan_lines, trim_space}
use computing_api.Docker.Dockerfile.{expose, exposed_in, extract_exposed_port, find_digits}

abbrev pub IsDigits : Str → Type 0
IsDigits s = All (λ c. is_digit c ≡ true) s

pub leading_digits-IsDigits : (s : Str) → IsDigits (leading_digits s)
unfolding leading_digits
leading_digits-IsDigits [] = tt
leading_digits-IsDigits (c ∷ s) = elim (Bool-cases (is_digit c)) [
  | inl digit ↦ rw digit (digit, leading_digits-IsDigits s)
  | inr stop ↦ rw stop tt
]

find_digits-IsDigits : (s : Str) → IsDigits (find_digits s)
unfolding find_digits
find_digits-IsDigits [] = tt
find_digits-IsDigits (c ∷ s) = elim (Bool-cases (is_digit c)) [
  | inl digit ↦ rw digit (digit, leading_digits-IsDigits s)
  | inr stop ↦ rw stop (find_digits-IsDigits s)
]

exposed_in-IsDigits : (lines : List Str) → IsDigits (exposed_in lines)
unfolding exposed_in
exposed_in-IsDigits [] = tt
exposed_in-IsDigits (line ∷ lines) = elim (Bool-cases (has_prefix (trim_space line) expose)) [
  | inl exposes ↦ rw exposes (find_digits-IsDigits line)
  | inr skips ↦ rw skips (exposed_in-IsDigits lines)
]

given :
    (found port : Str)
    → (if str_eq found [] then err (new "no exposed port found in Dockerfile") else ok found)
      ≡ ok port
    → (found ≢ []) × (found ≡ port)
given [] port h = absurd (cc)
given (c ∷ found) port h = ((λ e. cc), ok-injective h)

-- A port that is extracted is not empty, and is made of digits.
extract_exposed_port-IsDigits :
    (file : Result Str) (port : Str)
    → extract_exposed_port file ≡ ok port
    → (port ≢ []) × IsDigits port
unfolding extract_exposed_port
extract_exposed_port-IsDigits file port h =
    let (content, _, rest) = wrapped-eq-ok file (wrap "unable to open Dockerfile") _ h in
    let found = exposed_in (scan_lines content).0 in
    let (some_port, same) = given found port rest in
    ((λ e. some_port (same ∙ e)), subst IsDigits same (exposed_in-IsDigits (scan_lines content).0))

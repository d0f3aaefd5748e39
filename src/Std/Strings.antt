-- ===== src/Std/Strings.antt =====
-- `strings`: `HasPrefix`, `SplitN` with one byte and n = 2, `TrimRight` with one byte, `Repeat` of
-- one byte.
pub mod Split
use computing_api.Base.{
  All, Bool, List, Option, Str, [], arith, false, if◌then◌else◌, none, refl, some, suc, true, zero,
  ℕ, ◌&&◌, ◌++◌, ◌==◌, ◌∷◌, ◌≡◌, ◌≢◌,
}

unfoldable pub has_prefix : Str → Str → Bool
has_prefix s [] = true
has_prefix [] (p ∷ ps) = false
has_prefix (c ∷ s) (p ∷ ps) = c == p && has_prefix s ps

-- The text before and behind the first `sep`.
unfoldable pub cut : ℕ → Str → Option (Str × Str)
cut sep [] = none
cut sep (c ∷ s) =
    let rest = cut sep s in
    if c == sep
    then some ([], s)
    else elim rest [ none ↦ none | some (before, after) ↦ some (c ∷ before, after) ]

unfoldable pub split_n2 : ℕ → Str → List Str
unfolding cut
split_n2 sep s = elim (cut sep s) [ none ↦ s ∷ [] | some (before, after) ↦ before ∷ after ∷ [] ]

-- `Split(s, "---")`, with what of the first part has been read.
unfoldable pub split_dashes : Str → Str → List Str
split_dashes cur (b ∷ c ∷ d ∷ s) =
    let closed = split_dashes [] s in
    let longer = split_dashes (cur ++ b ∷ []) (c ∷ d ∷ s) in
    if b == b'-' && c == b'-' && d == b'-' then cur ∷ closed else longer
split_dashes cur s = (cur ++ s) ∷ []

abbrev pub is_empty : Str → Bool
is_empty [] = true
is_empty (c ∷ s) = false

unfoldable pub trim_right : ℕ → Str → Str
trim_right c [] = []
trim_right c (d ∷ s) = let rest = trim_right c s in if is_empty rest && d == c then [] else d ∷ rest

unfoldable pub repeat : ℕ → ℕ → Str
repeat c zero = []
repeat c (suc n) = c ∷ repeat c n

pub has_prefix-append : (p s : Str) → has_prefix (p ++ s) p ≡ true
unfolding has_prefix
has_prefix-append [] s = refl
has_prefix-append (c ∷ p) s = ground (arith, has_prefix-append p s)

pub cut-append : (sep : ℕ) (s t : Str) → All (λ c. c ≢ sep) s → cut sep (s ++ sep ∷ t) ≡ some (s, t)
unfolding cut
cut-append sep [] t h = ground arith
cut-append sep (c ∷ s) t (p, h) = ground (arith, cut-append sep s t h)

-- A text with one separator behind a part that has none splits into the two parts.
pub split_n2-append :
    (sep : ℕ) (s t : Str) → All (λ c. c ≢ sep) s → split_n2 sep (s ++ sep ∷ t) ≡ s ∷ t ∷ []
unfolding split_n2
split_n2-append sep s t h = rw (cut-append sep s t h, split_n2)

-- Trimming takes off what was appended, if the text has no such byte itself.
pub trim_right-append :
    (c : ℕ) (s : Str) (n : ℕ) → All (λ d. d ≢ c) s → trim_right c (s ++ repeat c n) ≡ s
unfolding trim_right repeat
trim_right-append c [] zero h = refl
trim_right-append c [] (suc n) h = ground (arith, trim_right-append c [] n tt)
trim_right-append c (d ∷ s) n (p, h) = ground (arith, trim_right-append c s n h)

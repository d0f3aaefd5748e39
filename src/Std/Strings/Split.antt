-- ===== src/Std/Strings/Split.antt =====
-- `strings.Split` with one byte, and `strings.ReplaceAll` of one byte by a text.
use computing_api.Base.{
  All, All-append, Bool-cases, List, Str, [], arith, if◌then◌else◌, inl, inr, refl, ℕ, ◌++◌, ◌==◌,
  ◌∷◌, ◌≡◌, ◌≢◌,
}

unfoldable pub replace_all : ℕ → Str → Str → Str
replace_all c t [] = []
replace_all c t (d ∷ s) = let rest = replace_all c t s in if d == c then t ++ rest else d ∷ rest

-- The first byte put before the first part.
abbrev pub cons_head : ℕ → List Str → List Str
cons_head c [] = []
cons_head c (p ∷ ps) = (c ∷ p) ∷ ps

unfoldable pub split : ℕ → Str → List Str
split sep [] = [] ∷ []
split sep (c ∷ s) = let rest = split sep s in if c == sep then [] ∷ rest else cons_head c rest

pub replace_all-none : (c : ℕ) (t s : Str) → All (λ d. d ≢ c) s → replace_all c t s ≡ s
unfolding replace_all
replace_all-none c t [] h = refl
replace_all-none c t (d ∷ s) (p, h) = ground (arith, replace_all-none c t s h)

pub replace_all-All :
    (P : ℕ → Type 0) (c : ℕ) (t s : Str)
    → ((d : ℕ) → d ≢ c → P d)
    → All P t
    → All P (replace_all c t s)
unfolding replace_all
replace_all-All P c t [] h ht = tt
replace_all-All P c t (d ∷ s) h ht = elim (Bool-cases (d == c)) [
  | inl same ↦ rw same (All-append P t (replace_all c t s) ht (replace_all-All P c t s h ht))
  | inr apart ↦ rw apart (h d (ground (arith, apart)), replace_all-All P c t s h ht)
]

pub split-none : (sep : ℕ) (s : Str) → All (λ d. d ≢ sep) s → split sep s ≡ s ∷ []
unfolding split
split-none sep [] h = refl
split-none sep (d ∷ s) (p, h) = ground (arith, split-none sep s h)

pub split-append :
    (sep : ℕ) (s t : Str) → All (λ d. d ≢ sep) s → split sep (s ++ sep ∷ t) ≡ s ∷ split sep t
unfolding split
split-append sep [] t h = ground arith
split-append sep (d ∷ s) t (p, h) = ground (arith, split-append sep s t h)

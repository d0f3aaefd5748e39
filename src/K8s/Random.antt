-- ===== src/K8s/Random.antt =====
-- computing/docker/random.go and lib/tool/random.go: the random texts behind names.
use computing_api.Base.{
  All, Result, Str, [], ap, arith, bind, length, map, ok, panic, refl, suc, zero, ℕ, ◌++◌, ◌+◌, ◌<◌,
  ◌∷◌, ◌≡◌, ◌≤◌, ◌⊎◌,
}

abbrev source : Str
source =
    map {A = ℕ} {B = ℕ} (λ i. b'a' + i)
      (0 ∷ 1 ∷ 2 ∷ 3 ∷ 4 ∷ 5 ∷ 6 ∷ 7 ∷ 8 ∷ 9 ∷ 10 ∷ 11 ∷ 12 ∷ 13 ∷ 14 ∷ 15 ∷ 16 ∷ 17 ∷ 18 ∷ 19 ∷ 20
        ∷ 21 ∷ 22 ∷ 23 ∷ 24 ∷ 25 ∷ [])
    ++ map {A = ℕ} {B = ℕ} (λ i. b'0' + i) (0 ∷ 1 ∷ 2 ∷ 3 ∷ 4 ∷ 5 ∷ 6 ∷ 7 ∷ 8 ∷ 9 ∷ [])

abbrev byte_at : Str → ℕ → Result ℕ
byte_at [] i = panic "index out of range"
byte_at (c ∷ s) zero = ok c
byte_at (c ∷ s) (suc i) = byte_at s i

-- The loop of `generateString`; `draw` gives what `rand.Intn(len(source))` returns in each round.
unfoldable pub draw_bytes : (ℕ → ℕ) → ℕ → ℕ → Result Str
draw_bytes draw i zero = ok []
draw_bytes draw i (suc n) =
    bind (byte_at source (draw i)) λ c. bind (draw_bytes draw (suc i) n) λ s. ok (c ∷ s)

unfoldable pub generate_string : (ℕ → ℕ) → ℕ → Result Str
unfolding draw_bytes
generate_string draw n = draw_bytes draw 0 n

-- `GenerateRandomString` of lib/tool/random.go, which is the same.
unfoldable generate_random_string : (ℕ → ℕ) → ℕ → Result Str
unfolding draw_bytes
generate_random_string draw n = draw_bytes draw 0 n

-- A byte that the name of a Kubernetes object may have anywhere.
abbrev pub IsNameByte : ℕ → Type 0
IsNameByte c = ((b'a' ≤ c) × (c ≤ b'z')) ⊎ ((b'0' ≤ c) × (c ≤ b'9'))

byte_at-All :
    (P : ℕ → Type 0) (s : Str) (i : ℕ)
    → All P s
    → i < length s
    → (c : ℕ) × (byte_at s i ≡ ok c) × P c
byte_at-All P [] i h low = absurd (omega arith)
byte_at-All P (c ∷ s) zero (p, h) low = (c, refl, p)
byte_at-All P (c ∷ s) (suc i) (p, h) low = byte_at-All P s i h (omega arith)

source-All : All IsNameByte source
source-All = ground arith

draw_bytes_total :
    (draw : ℕ → ℕ) (i n : ℕ)
    → ((j : ℕ) → draw j < 36)
    → (s : Str) × (draw_bytes draw i n ≡ ok s) × (length s ≡ n) × All IsNameByte s
unfolding draw_bytes
draw_bytes_total draw i zero h = ([], refl, refl, tt)
draw_bytes_total draw i (suc n) h =
    let (c, at, p) = byte_at-All IsNameByte source (draw i) source-All (h i) in
    let (s, drawn, long, ps) = draw_bytes_total draw (suc i) n h in
    (c ∷ s, rw (at, drawn) refl, ap suc long, (p, ps))

-- Where every draw is below 36, as `rand.Intn(36)` promises, no index is out of range, and the text
-- has the length that is asked for and is made of lower-case letters and digits.
generate_string_total :
    (draw : ℕ → ℕ) (n : ℕ)
    → ((j : ℕ) → draw j < 36)
    → (s : Str) × (generate_string draw n ≡ ok s) × (length s ≡ n) × All IsNameByte s
unfolding generate_string
generate_string_total draw n h = draw_bytes_total draw 0 n h

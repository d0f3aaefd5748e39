-- ===== src/K8s/Version/Order.antt =====
-- The order of versions, read off their numbers.
use computing_api.Base.{
  All, All-append, All-map, Bool-cases, Result, Str, [], ap, arith, err, false, inl, inr, ok, panic,
  refl, true, ℕ, ◌++◌, ◌+◌, ◌<◌, ◌^◌, ◌↔◌, ◌∙◌, ◌∷◌, ◌≡◌, ◌≢◌, ◌⊎◌,
}
use computing_api.Base.Int.{neg_part, pos, pos_part, ℤ, ◌<ℤ◌}
use computing_api.Std.Strings.Split.{replace_all, replace_all-none, split, split-append, split-none}
use computing_api.Std.Strconv.{format_uint}
use computing_api.Std.Strconv.RoundTrip.{format_uint-All}
use computing_api.Std.Fmt.{sscanf_d-format_uint, sscanf_d_number, starts_with_digit}
use computing_api.K8s.Version.{
  KubernetesVersion, both_later, is_kubernetes_version_greater_than, is_later,
  parse_kubernetes_version, parse_parts,
}

-- A version as Kubernetes writes it: three numbers of 63 bits, and a suffix such as "+k3s1" or
-- "-rc" that holds no `v` and no dot, and that does not begin with a digit.
pub record Release : Type 0 where
  pub major : ℕ
  pub minor : ℕ
  pub patch : ℕ
  pub suffix : Str

abbrev pub IsRelease : Release → Type 0
IsRelease r =
    (r.major < 2 ^ 63)
    × (r.minor < 2 ^ 63)
    × (r.patch < 2 ^ 63)
    × (starts_with_digit r.suffix ≡ false)
    × All (λ c. (c ≢ b'v') × (c ≢ b'.')) r.suffix

-- The numbers with a dot between, and the suffix.
abbrev dotted : Release → Str
dotted r =
    format_uint r.major
    ++ (b'.' ∷ (format_uint r.minor ++ (b'.' ∷ (format_uint r.patch ++ r.suffix))))

abbrev pub git_version : Release → Str
git_version r = b'v' ∷ dotted r

-- The order that the function means: by the first number that differs.
abbrev pub Later : Release → Release → Type 0
Later u w =
    (w.major < u.major)
    ⊎ ((u.major ≡ w.major) × ((w.minor < u.minor) ⊎ ((u.minor ≡ w.minor) × (w.patch < u.patch))))

abbrev IsPlain : ℕ → Type 0
IsPlain c = (c ≢ b'v') × (c ≢ b'.')

number-IsPlain : (n : ℕ) → n < 2 ^ 63 → All IsPlain (format_uint n)
number-IsPlain n h = format_uint-All IsPlain n (λ d small. (omega arith, omega arith)) (omega arith)

abbrev NotV : ℕ → Type 0
NotV c = c ≢ b'v'

not_v : (s : Str) → All IsPlain s → All NotV s
not_v s h = All-map (λ c p. p.0) s h

not_dot : (s : Str) → All IsPlain s → All (λ c. c ≢ b'.') s
not_dot s h = All-map (λ c p. p.1) s h

number_not_dot : (n : ℕ) → n < 2 ^ 63 → All (λ c. c ≢ b'.') (format_uint n)
number_not_dot n h = not_dot (format_uint n) (number-IsPlain n h)

-- Taking the `v` out takes out the first byte only.
git_version-no_v : (r : Release) → IsRelease r → replace_all b'v' [] (git_version r) ≡ dotted r
unfolding replace_all
git_version-no_v r (ha, hb, hc, stop, plain) = replace_all-none b'v' [] (dotted r) (
    All-append NotV (format_uint r.major)
      (b'.' ∷ (format_uint r.minor ++ (b'.' ∷ (format_uint r.patch ++ r.suffix))))
      (not_v _ (number-IsPlain r.major ha))
      (
        omega arith,
        All-append NotV (format_uint r.minor) (b'.' ∷ (format_uint r.patch ++ r.suffix))
            (not_v _ (number-IsPlain r.minor hb))
            (
              omega arith,
              All-append NotV (format_uint r.patch) r.suffix (not_v _ (number-IsPlain r.patch hc))
                  (not_v r.suffix plain),
            ),
      ))

split_numbers :
    (a b : ℕ) (s : Str)
    → a < 2 ^ 63
    → b < 2 ^ 63
    → All (λ c. c ≢ b'.') s
    → split b'.' (format_uint a ++ (b'.' ∷ (format_uint b ++ (b'.' ∷ s))))
      ≡ format_uint a ∷ format_uint b ∷ s ∷ []
split_numbers a b s ha hb h =
    split-append b'.' (format_uint a) (format_uint b ++ (b'.' ∷ s)) (number_not_dot a ha)
    ∙ ap (λ l. format_uint a ∷ l)
        (split-append b'.' (format_uint b) s (number_not_dot b hb)
          ∙ ap (λ l. format_uint b ∷ l) (split-none b'.' s h))

parse_parts_numbers :
    (a b c : ℕ) (suffix : Str)
    → a < 2 ^ 63
    → b < 2 ^ 63
    → c < 2 ^ 63
    → starts_with_digit suffix ≡ false
    → parse_parts (format_uint a ∷ format_uint b ∷ (format_uint c ++ suffix) ∷ [])
      ≡ ok (record { major = pos a; minor = pos b; patch = pos c })
unfolding parse_parts
parse_parts_numbers a b c suffix ha hb hc stop =
    rw (sscanf_d_number a ha, sscanf_d_number b hb, sscanf_d-format_uint c suffix hc stop) refl

-- A release is parsed as its three numbers.
parse_kubernetes_version-git_version :
    (r : Release)
    → IsRelease r
    → parse_kubernetes_version (git_version r)
      ≡ ok (record { major = pos r.major; minor = pos r.minor; patch = pos r.patch })
unfolding parse_kubernetes_version
parse_kubernetes_version-git_version r (ha, hb, hc, stop, plain) =
    ap (λ s. parse_parts (split b'.' s)) (git_version-no_v r (ha, hb, hc, stop, plain))
    ∙ ap parse_parts (
        split_numbers r.major r.minor (format_uint r.patch ++ r.suffix) ha hb (
          All-append (λ c. c ≢ b'.') (format_uint r.patch) r.suffix (number_not_dot r.patch hc)
            (not_dot r.suffix plain)))
    ∙ parse_parts_numbers r.major r.minor r.patch r.suffix ha hb hc stop

-- Of two releases the first is greater than the second just if it is later in the order of their
-- numbers; the suffixes play no part.
pub is_kubernetes_version_greater_than_iff :
    (u w : Release)
    → IsRelease u
    → IsRelease w
    → (is_kubernetes_version_greater_than (git_version u) (git_version w) ≡ true) ↔ Later u w
unfolding is_kubernetes_version_greater_than is_later
is_kubernetes_version_greater_than_iff u w hu hw =
    rw (parse_kubernetes_version-git_version u hu, parse_kubernetes_version-git_version w hw)
      (ground arith)

abbrev SameAs : ℤ → ℤ → Type 0
SameAs a b = pos_part a + neg_part b ≡ pos_part b + neg_part a

-- The order of two triples of integers, as inequations that arithmetic reads.
abbrev Above : KubernetesVersion → KubernetesVersion → Type 0
Above v1 v2 =
    (v2.major <ℤ v1.major)
    ⊎ ((SameAs v1.major v2.major)
        × ((v2.minor <ℤ v1.minor) ⊎ ((SameAs v1.minor v2.minor) × (v2.patch <ℤ v1.patch))))

is_later-Above : (v1 v2 : KubernetesVersion) → (is_later v1 v2 ≡ true) ↔ Above v1 v2
unfolding is_later
is_later-Above v1 v2 = ground arith

Above-trans : (u v w : KubernetesVersion) → Above u v → Above v w → Above u w
Above-trans u v w h k = ground arith

Above-irrefl : (u : KubernetesVersion) → ¬ Above u u
Above-irrefl u h = ground arith

is_later_strict :
    (u v w : KubernetesVersion)
    → is_later u v ≡ true
    → is_later v w ≡ true
    → (is_later u w ≡ true) × (is_later v u ≡ false)
is_later_strict u v w h k =
    let uv = (is_later-Above u v).0 h in
    (
      (is_later-Above u w).1 (Above-trans u v w uv ((is_later-Above v w).0 k)),
      elim (Bool-cases (is_later v u)) [
        | inl back ↦ absurd (Above-irrefl u (Above-trans u v u uv ((is_later-Above v u).0 back)))
        | inr apart ↦ apart
      ],
    )

both_later_strict :
    (a b c : Result KubernetesVersion)
    → both_later a b ≡ true
    → both_later b c ≡ true
    → (both_later a c ≡ true) × (both_later b a ≡ false)
both_later_strict (ok u) (ok v) (ok w) h k = is_later_strict u v w h k
both_later_strict (ok u) (ok v) (err e) h k = absurd (cc)
both_later_strict (ok u) (ok v) (panic why) h k = absurd (cc)
both_later_strict (ok u) (err e) c h k = absurd (cc)
both_later_strict (ok u) (panic why) c h k = absurd (cc)
both_later_strict (err e) b c h k = absurd (cc)
both_later_strict (panic why) b c h k = absurd (cc)

-- Texts that follow one another in the order are in order, and not the other way round: whatever the
-- texts are, the test is transitive and asymmetric.
is_kubernetes_version_greater_than_strict :
    (u v w : Str)
    → is_kubernetes_version_greater_than u v ≡ true
    → is_kubernetes_version_greater_than v w ≡ true
    → (is_kubernetes_version_greater_than u w ≡ true)
      × (is_kubernetes_version_greater_than v u ≡ false)
unfolding is_kubernetes_version_greater_than
is_kubernetes_version_greater_than_strict u v w h k =
    both_later_strict (parse_kubernetes_version u) (parse_kubernetes_version v)
      (parse_kubernetes_version w) h k

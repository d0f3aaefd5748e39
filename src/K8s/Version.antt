-- ===== src/K8s/Version.antt =====
-- computing/docker/k8s_service.go: versions of Kubernetes and their order.
pub mod Order
use computing_api.Base.{
  Bool, List, Result, Str, [], err, false, if◌then◌else◌, new, ok, refl, rescue, text, true, ◌&&◌,
  ◌∷◌, ◌≡◌,
}
use computing_api.Base.Int.{eq_ℤ, ltb_ℤ, ℤ}
use computing_api.Std.Strings.Split.{replace_all, split}
use computing_api.Std.Fmt.{sscanf_d}
use computing_api.Std.Strconv.{parse_int}

pub record KubernetesVersion : Type 0 where
  pub major : ℤ
  pub minor : ℤ
  pub patch : ℤ

unfoldable pub parse_parts : List Str → Result KubernetesVersion
parse_parts (a ∷ b ∷ c ∷ []) =
    rescue (sscanf_d a) (λ _. err (new "failed to parse major version"))
      λ major.
        rescue (sscanf_d b) (λ _. err (new "failed to parse minor version"))
          λ minor.
            rescue (sscanf_d c) (λ _. err (new "failed to parse patch version"))
              λ patch. ok (record { major = major; minor = minor; patch = patch })
parse_parts parts = err (new "invalid version format")

-- Every `v` of the text is taken out, wherever it stands.
unfoldable pub parse_kubernetes_version : Str → Result KubernetesVersion
unfolding parse_parts
parse_kubernetes_version version = parse_parts (split b'.' (replace_all b'v' [] version))

unfoldable pub is_later : KubernetesVersion → KubernetesVersion → Bool
is_later v1 v2 =
    if ltb_ℤ v2.major v1.major
    then true
    else if eq_ℤ v1.major v2.major && ltb_ℤ v2.minor v1.minor
    then true
    else if eq_ℤ v1.major v2.major && eq_ℤ v1.minor v2.minor && ltb_ℤ v2.patch v1.patch
    then true
    else false

-- `false` where one of the two cannot be parsed.
abbrev pub both_later : Result KubernetesVersion → Result KubernetesVersion → Bool
both_later (ok v1) (ok v2) = is_later v1 v2
both_later _ _ = false

unfoldable pub is_kubernetes_version_greater_than : Str → Str → Bool
unfolding parse_kubernetes_version is_later
is_kubernetes_version_greater_than version target_version =
    both_later (parse_kubernetes_version version) (parse_kubernetes_version target_version)

newer_than_older :
    (is_kubernetes_version_greater_than (text "v1.27.10") (text "1.9.30") ≡ true)
    × (is_kubernetes_version_greater_than (text "v1.27.3-gke.100") (text "v1.9.0") ≡ false)
    × (is_kubernetes_version_greater_than (text "v1.27.3+k3s1") (text "v1.27.3") ≡ false)
unfolding is_kubernetes_version_greater_than text split replace_all sscanf_d parse_int
newer_than_older = (refl, refl, refl)

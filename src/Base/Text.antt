-- ===== src/Base/Text.antt =====
-- Go strings and byte slices: lists of bytes.
use Prim.Native.Nat.{ℕ, ◌<◌}
use Prim.Native.Char.{code}
use Prim.Native.String.{String}
use mathlib.Core.Path.{◌≡◌, refl}
use mathlib.Core.Logic.{◌↔◌, ◌≢◌}
use mathlib.Core.Bool.{Bool, true, false, ◌&&◌}
use mathlib.Core.List.{List, [], ◌∷◌}
use native.Mathlib.Omega.{arith}
use computing_api.Base.Tests.{◌==◌}
use computing_api.Base.Lists.{All}

abbrev pub Str : Type 0
Str = List ℕ

-- The bytes of a literal, which is ASCII wherever the program has one.
unfoldable pub text : String → Str
text String.[] = []
text (String.◌∷◌ c s) = code c ∷ text s

abbrev pub str_eq : Str → Str → Bool
str_eq [] [] = true
str_eq (x ∷ xs) (y ∷ ys) = x == y && str_eq xs ys
str_eq _ _ = false

pub str_eq_iff : (s t : Str) → (str_eq s t ≡ true) ↔ (s ≡ t)
str_eq_iff [] [] = (λ _. refl, λ _. refl)
str_eq_iff [] (y ∷ ys) = (λ h. cc, λ h. cc)
str_eq_iff (x ∷ xs) [] = (λ h. cc, λ h. cc)
str_eq_iff (x ∷ xs) (y ∷ ys) = ground (arith, str_eq_iff xs ys)

pub str_eq_refl : (s : Str) → str_eq s s ≡ true
str_eq_refl s = (str_eq_iff s s).1 refl

-- Every element is a byte.
abbrev pub IsBytes : Str → Type 0
IsBytes s = All (λ c. c < 256) s

abbrev pub IsAscii : Str → Type 0
IsAscii s = All (λ c. c < 128) s

pub not_empty : (s : Str) → s ≢ [] → str_eq s [] ≡ false
not_empty [] n = absurd (n refl)
not_empty (c ∷ s) n = refl

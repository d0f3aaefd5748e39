-- ===== src/Auth/Token.antt =====
-- Tokens: what was signed verifies, and only that.
use mathlib.Core.List.{append-nil}
use computing_api.Base.{
  Bool-cases, IsBytes, Result, Str, ap, arith, bind, err, if◌then◌else◌, inl, inr, length, ltb, ok,
  ok-injective, panic, str_eq, str_eq_iff, sym, ◌%◌, ◌++◌, ◌↔◌, ◌∙◌, ◌≡◌,
}
use computing_api.Std.Base64.{decode}
use computing_api.Std.Base64.RoundTrip.{
  decode-encode, encode-eq-raw, padding, padding-none, padding-some, raw, trim_right-encode,
}
use computing_api.Auth.{
  Crypto, bytes, decode_segment, encode_segment, err_token_invalid, sign_token, verify_token,
}

decode_segment-eq : (seg : Str) → decode_segment seg ≡ decode (seg ++ padding (length seg % 4))
unfolding decode_segment
decode_segment-eq seg = elim (Bool-cases (ltb 0 (length seg % 4))) [
  | inl some_left ↦ rw (some_left, padding-some _ some_left)
  | inr none_left ↦ rw (none_left, padding-none _ none_left, append-nil)
]

-- A byte slice is read back from its segment.
pub decode_segment-encode_segment :
    (seg : Str) → IsBytes seg → decode_segment (encode_segment seg) ≡ ok seg
unfolding encode_segment
decode_segment-encode_segment seg h =
    ap decode_segment (trim_right-encode seg h)
    ∙ decode_segment-eq (raw seg)
    ∙ ap decode (sym (encode-eq-raw seg))
    ∙ decode-encode seg h

equal_mac_iff :
    (r : Result Str) (mac : Str)
    → (bind {B = Unit {0}} r (λ sig. if str_eq sig mac then ok tt else err err_token_invalid)
        ≡ ok tt)
      ↔ (r ≡ ok mac)
equal_mac_iff (ok sig) mac = ground (arith, str_eq_iff sig mac)
equal_mac_iff (err e) mac = (λ h. cc, λ h. cc)
equal_mac_iff (panic why) mac = (λ h. cc, λ h. cc)

module _ (c : Crypto) where
  -- A token verifies under its key exactly when the signature decodes to the MAC of its text.
  pub verify_token_iff :
      (signing signature key : Str)
      → (verify_token c signing signature (bytes key) ≡ ok tt)
        ↔ (decode_segment signature ≡ ok (c.hmac_sha256 key signing))
  unfolding verify_token
  verify_token_iff signing signature key =
      equal_mac_iff (decode_segment signature) (c.hmac_sha256 key signing)

  -- What `SignToken` signed with a key verifies with that key.
  verify_token-sign_token :
      (signing key sig : Str)
      → sign_token c signing (bytes key) ≡ ok sig
      → verify_token c signing sig (bytes key) ≡ ok tt
  unfolding sign_token
  verify_token-sign_token signing key sig h = (verify_token_iff signing sig key).1 (
      ap decode_segment (ok-injective (sym h))
      ∙ decode_segment-encode_segment _ (c.hmac_sha256-IsBytes key signing))

-- ===== src/Examples/Sessions.antt =====
-- Authentications, tokens and cookies on the small instances.
use computing_api.Base.{[], arith, foreign, inr, ok, refl, true, ◌∷◌, ◌≡◌}
use computing_api.Std.Strconv.{parse_int, parse_uint}
use computing_api.Auth.{
  bytes, decode_segment, encode_segment, normalize_last, sig_to_address, verify_token,
}
use computing_api.Auth.Token.{decode_segment-encode_segment, verify_token_iff}
use computing_api.Cookie.{find_cookie, make_cookie}
use computing_api.Cookie.Issue.{find_cookie-make_cookie}
use computing_api.Model.{AuthInfo}
use computing_api.Local.{check_auth_info, check_signature}
use computing_api.Local.Access.{check_auth_info_iff, check_signature-no_address}
use computing_api.Utils.{Model}
use computing_api.Examples.{cookies, toy, user}
use computing_api.Base.Int.{pos, wrap64, ◌+ℤ◌}

abbrev signed_in : AuthInfo
signed_in = record {
  address = b'0' ∷ b'x' ∷ 1 ∷ 2 ∷ [];
  sig = b'0' ∷ b'x' ∷ 5 ∷ [];
  msg = b'9' ∷ [];
}

check_auth_info_iff_example : check_auth_info toy (pos 300) (pos 100) signed_in ≡ ok true
unfolding parse_int parse_uint check_signature sig_to_address wrap64 ◌+ℤ◌
check_auth_info_iff_example =
    (check_auth_info_iff toy (pos 300) (pos 100) signed_in).1
      (inr (pos 9, refl, omega arith, λ e. cc, λ e. cc, refl))

check_signature-no_address_example :
    check_signature toy (b'0' ∷ b'x' ∷ 5 ∷ 6 ∷ []) (b'0' ∷ b'x' ∷ []) user ≡ ok true
unfolding normalize_last
check_signature-no_address_example =
    check_signature-no_address toy (b'0' ∷ b'x' ∷ 5 ∷ 6 ∷ []) (b'0' ∷ b'x' ∷ []) user 5 (6 ∷ [])
      (foreign "invalid signature length") refl refl refl

find_cookie-make_cookie_example :
    find_cookie toy cookies (pos 1050) (make_cookie toy cookies (pos 1000) user ∷ []) ≡ ok user
unfolding ◌+ℤ◌
find_cookie-make_cookie_example =
    (find_cookie-make_cookie toy cookies (pos 1000) (pos 1050) user [] (omega arith, omega arith)).1
      (omega arith)

decode_segment-encode_segment_example :
    decode_segment (encode_segment (1 ∷ 255 ∷ [])) ≡ ok (1 ∷ 255 ∷ [])
decode_segment-encode_segment_example =
    decode_segment-encode_segment (1 ∷ 255 ∷ []) (omega arith, (omega arith, tt))

verify_token_iff_example : verify_token toy user (encode_segment (1 ∷ 1 ∷ [])) (bytes user) ≡ ok tt
verify_token_iff_example =
    (verify_token_iff toy user (encode_segment (1 ∷ 1 ∷ [])) user).1
      (decode_segment-encode_segment (1 ∷ 1 ∷ []) (omega arith, (omega arith, tt)))

abbrev listed : Model
listed = record { name = []; id = 4; path = b'p' ∷ []; gpu = []; mem = []; disk = [] }

-- ===== src/Cookie/Issue.antt =====
-- What `FindCookie` makes of a cookie of `MakeCookie`.
use mathlib.Core.Path.{subst}
use computing_api.Base.{List, Str, [], ap, arith, ok, refl, sym, true, ◌++◌, ◌↔◌, ◌∙◌, ◌∷◌, ◌≡◌}
use computing_api.Std.Strings.{has_prefix, has_prefix-append, split_n2, split_n2-append}
use computing_api.Std.Strconv.{format_int, parse_int}
use computing_api.Std.Strconv.RoundTrip.{format_int-All, parse_int-format_int}
use computing_api.Auth.{Crypto, encode_segment, sign_token}
use computing_api.Auth.Token.{decode_segment-encode_segment}
use computing_api.Cookie.{CookieManager, HttpCookie, find_cookie, make_cookie, token_prefix}
use computing_api.Cookie.Accept.{
  IsGood, at_head, check_cookie_sound, find_cookie-here, find_cookie_complete,
}
use computing_api.Base.Int.{IsInt64, ℤ, ◌+ℤ◌, ◌<ℤ◌}

module _ (c : Crypto) (cm : CookieManager) where
  make_cookie-sig :
      (now : ℤ) (addr : Str)
      → (make_cookie c cm now addr).value
        ≡ format_int (now +ℤ cm.expire)
          ++ b'_'
            ∷ encode_segment (c.hmac_sha256 cm.sign_key (addr ++ format_int (now +ℤ cm.expire)))
  unfolding make_cookie sign_token
  make_cookie-sig now addr = refl

  split_n2-make_cookie :
      (now : ℤ) (addr : Str)
      → IsInt64 (now +ℤ cm.expire)
      → split_n2 b'_' (make_cookie c cm now addr).value
        ≡ format_int (now +ℤ cm.expire)
          ∷ encode_segment (c.hmac_sha256 cm.sign_key (addr ++ format_int (now +ℤ cm.expire)))
          ∷ []
  split_n2-make_cookie now addr fits =
      ap (split_n2 b'_') (make_cookie-sig now addr)
      ∙ split_n2-append b'_' _ _ (format_int-All _ _ (omega arith) (λ d h. omega arith) fits)

  -- A cookie that `MakeCookie` made at one time is good for its user at a later time that lies before
  -- the expiry.
  make_cookie-IsGood :
      (now later_on : ℤ) (addr : Str)
      → IsInt64 (now +ℤ cm.expire)
      → later_on <ℤ (now +ℤ cm.expire)
      → IsGood c cm later_on (make_cookie c cm now addr) addr
  unfolding make_cookie sign_token
  make_cookie-IsGood now later_on addr fits fresh = record {
    ts = format_int (now +ℤ cm.expire);
    sig = encode_segment (c.hmac_sha256 cm.sign_key (addr ++ format_int (now +ℤ cm.expire)));
    stamp = now +ℤ cm.expire;
    named = refl;
    parts = split_n2-append b'_' _ _ (format_int-All _ _ (omega arith) (λ d h. omega arith) fits);
    number = parse_int-format_int _ fits;
    signed = decode_segment-encode_segment _ (c.hmac_sha256-IsBytes _ _);
    fresh = fresh;
  }

  stamp_of_parts :
      (ts ts' sig sig' : Str) (z z' : ℤ)
      → ts ∷ sig ∷ [] ≡ ts' ∷ sig' ∷ []
      → parse_int ts ≡ ok z
      → parse_int ts' ≡ ok z'
      → z ≡ z'
  stamp_of_parts ts ts' sig sig' z z' e h h' = cc

  IsGood-make_cookie-fresh :
      (now later_on : ℤ) (addr : Str)
      → IsInt64 (now +ℤ cm.expire)
      → IsGood c cm later_on (make_cookie c cm now addr) addr
      → later_on <ℤ (now +ℤ cm.expire)
  IsGood-make_cookie-fresh now later_on addr fits good =
      let same =
        stamp_of_parts good.ts _ good.sig _ good.stamp (now +ℤ cm.expire)
          (sym good.parts ∙ split_n2-make_cookie now addr fits) good.number
          (parse_int-format_int _ fits) in
      subst (λ z. later_on <ℤ z) same good.fresh

  pub make_cookie_named :
      (now : ℤ) (addr : Str) → has_prefix (make_cookie c cm now addr).name token_prefix ≡ true
  unfolding make_cookie
  make_cookie_named now addr = has_prefix-append token_prefix addr

  -- The cookie that `MakeCookie` made for an address, put first in a request, names that address to
  -- `FindCookie` exactly while the clock is before the expiry (where the expiry fits an int64).
  pub find_cookie-make_cookie :
      (now later_on : ℤ) (addr : Str) (cks : List HttpCookie)
      → IsInt64 (now +ℤ cm.expire)
      → (find_cookie c cm later_on (make_cookie c cm now addr ∷ cks) ≡ ok addr)
        ↔ (later_on <ℤ (now +ℤ cm.expire))
  find_cookie-make_cookie now later_on addr cks fits = (
    λ found. IsGood-make_cookie-fresh now later_on addr fits (
        check_cookie_sound c cm later_on _ addr
          (sym (find_cookie-here c cm later_on _ cks (make_cookie_named now addr)) ∙ found)),
    λ fresh.
        find_cookie_complete c cm (at_head (make_cookie_named now addr))
          (make_cookie-IsGood now later_on addr fits fresh),
  )

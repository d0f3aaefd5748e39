-- ===== src/Cookie.antt =====
-- computing/server/httpserver/cookie.go: the cookies that carry a user's address.
pub mod Accept
pub mod Issue
use computing_api.Base.{
  List, Result, Str, [], bind, drop, err, if◌then◌else◌, length, new, not, ok, ◌++◌, ◌∷◌,
}
use computing_api.Std.Strings.{has_prefix, split_n2}
use computing_api.Std.Strconv.{format_int, parse_int}
use computing_api.Auth.{Crypto, bytes, sign_token, verify_token}
use computing_api.Base.Int.{ltb_ℤ, ℤ, ◌+ℤ◌}

abbrev pub token_prefix : Str
token_prefix = b'c' ∷ b'p' ∷ b'u' ∷ b's' ∷ b'e' ∷ b'r' ∷ b'_' ∷ []

-- The fields that the program sets; times are in seconds.
pub record HttpCookie : Type 0 where
  pub name : Str
  pub value : Str
  pub expires : ℤ

pub record CookieManager : Type 0 where
  pub sign_key : Str
  pub expire : ℤ

-- `sig, _ := auth.SignToken(…)`
abbrev or_empty : Result Str → Str
or_empty (ok s) = s
or_empty _ = []

module _ (c : Crypto) (cm : CookieManager) where
  -- `now` is what `time.Now()` returns in this call, in seconds; expiry times are whole seconds, so
  -- the fraction of a second that it drops changes no comparison.
  unfoldable pub make_cookie : ℤ → Str → HttpCookie
  make_cookie now addr =
      let expire = now +ℤ cm.expire in
      let ts = format_int expire in
      let sig = or_empty (sign_token c (addr ++ ts) (bytes cm.sign_key)) in
      record { name = token_prefix ++ addr; value = ts ++ b'_' ∷ sig; expires = expire }

  -- The body of the loop, for a cookie whose value is split into `parts`.
  unfoldable pub check_parts : ℤ → Str → List Str → Result Str
  check_parts now user (ts ∷ sig ∷ []) = bind (parse_int ts) λ ts_int.
      bind (verify_token c (user ++ ts) sig (bytes cm.sign_key))
        λ _. if not (ltb_ℤ now ts_int) then err (new "the cookie's expire time is end") else ok user
  check_parts now user _ = err (new "the cookie's value format is invalid")

  unfoldable pub check_cookie : ℤ → HttpCookie → Result Str
  unfolding check_parts
  check_cookie now ck =
      check_parts now (drop (length token_prefix) ck.name) (split_n2 b'_' ck.value)

  -- The loop returns at the first cookie that has the prefix, by an error too.
  unfoldable pub find_cookie : ℤ → List HttpCookie → Result Str
  unfolding check_cookie
  find_cookie now [] = err (new "no valid cookie found")
  find_cookie now (ck ∷ cks) =
      let rest = find_cookie now cks in
      if not (has_prefix ck.name token_prefix) then rest else check_cookie now ck

-- ===== src/Http/Session.antt =====
-- A user's way in: the request that the sign command prints, the cookie that it gets, and the
-- requests that carry the cookie.
use mathlib.Core.Path.{subst}
use computing_api.Base.{
  List, Str, [], ap, bind-eq-ok, false, ok, ok-injective, refl, rescue-eq-ok, some, sym, text, true,
  ℕ, ◌<◌, ◌^◌, ◌↔◌, ◌∷◌, ◌≡◌,
}
use computing_api.Base.Int.{IsInt64, pos, wrap64, ℤ, ◌+ℤ◌, ◌<ℤ◌}
use computing_api.Std.Strings.{has_prefix, is_empty}
use computing_api.Std.Strconv.{parse_int}
use computing_api.Utils.{uint64_to_string}
use computing_api.Auth.{Crypto, enclose_eth, hash, sig_to_address, sign}
use computing_api.Model.{AuthInfo}
use computing_api.Kv.{Badger}
use computing_api.Chain.{Chain}
use computing_api.Kube.{Kube}
use computing_api.World.{World}
use computing_api.Local.{check_auth_info}
use computing_api.Compose.{Settings, computing_gateway}
use computing_api.Cookie.{HttpCookie, find_cookie, make_cookie, token_prefix}
use computing_api.Cookie.Issue.{find_cookie-make_cookie, make_cookie_named}
use computing_api.Cmd.Sign.{HexLaws, parsed, sign_cmd, sign_cmd-check_auth_info}
use computing_api.Http.{Request, Site, authorized, cookies_of, handler_cookie, user_of}
use computing_api.Http.Access.{handler_cookie_iff}
use computing_api.Http.Server.{Answer, Router, cors_headers, handle, routes, serve, to_cookie}

-- The number of a text that has one is not empty.
parse_int-not_empty : (s : Str) (z : ℤ) → parse_int s ≡ ok z → is_empty s ≡ false
unfolding parse_int
parse_int-not_empty [] z h = cc
parse_int-not_empty (d ∷ s) z h = refl

-- The sign command prints a time and a signature.
sign_cmd-not_empty :
    (c : Crypto) (timestamp : ℕ) (sk : Str) (ainfo : AuthInfo)
    → timestamp < 2 ^ 63
    → sign_cmd c timestamp sk ≡ ok ainfo
    → (is_empty ainfo.msg ≡ false) × (is_empty ainfo.sig ≡ false)
unfolding sign_cmd
sign_cmd-not_empty c timestamp sk ainfo small h =
    let digest = hash c (enclose_eth (uint64_to_string timestamp)) in
    let (sig, _, h1) = rescue-eq-ok (sign c digest sk) "sign" _ h in
    let (_, _, h2) = bind-eq-ok (sig_to_address c digest sig) _ h1 in
    subst (λ info. (is_empty info.msg ≡ false) × (is_empty info.sig ≡ false)) (ok-injective h2)
      (parse_int-not_empty _ _ (parsed timestamp small), refl)

-- A request with the query that the sign command prints.
abbrev pub Asks : Request → AuthInfo → Type 0
Asks c ainfo = (record { address = c.user; sig = c.sig; msg = c.ts }) ≡ ainfo

module _ {b : Badger} {k : Kube} {ch : Chain} (router : Router) (site : Site b k ch)
    (settings : Settings) where
  -- The first cookie of a request has the name and the value of the one that was handed out; a
  -- browser does not send its expiry.
  abbrev pub Carries : Request → HttpCookie → Type 0
  Carries c ck =
      (expires : ℤ) × (cks : List HttpCookie) × (cookies_of site c.cookie_headers
        ≡ record ck { expires = expires } ∷ cks)

  abbrev pub handed_out : Str → HttpCookie → Answer
  handed_out origin ck = record {
    headers = cors_headers origin;
    status = 200;
    body = some (authorized ck);
  }

  -- `FindCookie` does not read the expiry field, nor what stands behind a cookie of this program.
  user_of-Carries :
      (c : Request) (ck : HttpCookie) (w : World b k ch)
      → Carries c ck
      → has_prefix ck.name token_prefix ≡ true
      → user_of site (cookies_of site c.cookie_headers) w
        ≡ find_cookie site.crypto site.manager w.clock (ck ∷ [])
  unfolding user_of find_cookie
  user_of-Carries c ck w (expires, cks, held) named = rw (held, named) refl

  handler_cookie-sign_cmd :
      (laws : HexLaws site.crypto) (timestamp : ℕ) (sk : Str) (ainfo : AuthInfo) (c : Request)
      (w : World b k ch)
      → timestamp < 2 ^ 63
      → sign_cmd site.crypto timestamp sk ≡ ok ainfo
      → Asks c ainfo
      → w.clock <ℤ wrap64 (pos timestamp +ℤ settings.sign_expire)
      → handler_cookie site (computing_gateway site.crypto b k ch settings) c w ≡ (
        ok (record {
          status = 200;
          body = authorized (make_cookie site.crypto site.manager w.clock ainfo.address);
        }),
        w,
      )
  unfolding computing_gateway
  handler_cookie-sign_cmd laws timestamp sk ainfo c w small printed asks fresh =
      let (time, sig) = sign_cmd-not_empty site.crypto timestamp sk ainfo small printed in
      (handler_cookie_iff site (computing_gateway site.crypto b k ch settings) c w w
          (make_cookie site.crypto site.manager w.clock ainfo.address)).1
        (
          subst (λ info. is_empty info.msg ≡ false) (sym asks) time,
          subst (λ info. is_empty info.sig ≡ false) (sym asks) sig,
          subst (λ info. check_auth_info site.crypto settings.sign_expire w.clock info ≡ ok true)
              (sym asks)
              (sign_cmd-check_auth_info site.crypto laws timestamp sk settings.sign_expire w.clock
                ainfo small printed fresh),
          ap (λ (info : AuthInfo). make_cookie site.crypto site.manager w.clock info.address)
              (sym asks),
          refl,
        )

  -- Let the sign command print an authentication at one time (an int64), and let a GET request with
  -- it reach the gateway outside tests before it expires, on a path of the handler of cookies. The
  -- server answers with a cookie and leaves the world as it was. A later request whose first cookie
  -- has the name and the value of that one names the address of the authentication exactly while the
  -- clock is before the expiry of the cookie (where that expiry fits an int64).
  pub serve-sign_cmd :
      (laws : HexLaws site.crypto) (timestamp : ℕ) (sk path origin : Str) (ainfo : AuthInfo)
      (c c' : Request) (w w' : World b k ch)
      → router.find routes (text "GET") path ≡ some to_cookie
      → timestamp < 2 ^ 63
      → sign_cmd site.crypto timestamp sk ≡ ok ainfo
      → Asks c ainfo
      → w.clock <ℤ wrap64 (pos timestamp +ℤ settings.sign_expire)
      → IsInt64 (w.clock +ℤ site.manager.expire)
      → Carries c' (make_cookie site.crypto site.manager w.clock ainfo.address)
      → (serve router site
            (computing_gateway site.crypto b k ch settings)
            (text "GET")
            path
            origin
            c
            w
          ≡ (
            ok (handed_out origin (make_cookie site.crypto site.manager w.clock ainfo.address)),
            w,
          ))
        × ((user_of site (cookies_of site c'.cookie_headers) w' ≡ ok ainfo.address)
            ↔ (w'.clock <ℤ (w.clock +ℤ site.manager.expire)))
  unfolding serve handle text
  serve-sign_cmd laws timestamp sk path origin ainfo c c' w w' routed small printed asks fresh fits
        carries =
      (
        rw (routed, handler_cookie-sign_cmd laws timestamp sk ainfo c w small printed asks fresh)
            refl,
        subst (λ r. (r ≡ ok ainfo.address) ↔ (w'.clock <ℤ (w.clock +ℤ site.manager.expire)))
            (sym (
              user_of-Carries c' _ w' carries
                (make_cookie_named site.crypto site.manager w.clock ainfo.address)))
            (find_cookie-make_cookie site.crypto site.manager w.clock w'.clock ainfo.address []
              fits),
      )

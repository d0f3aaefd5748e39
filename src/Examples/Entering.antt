-- ===== src/Examples/Entering.antt =====
-- A user of the small instances who signs, gets a cookie, and comes back with it.
use computing_api.Base.{[], arith, ok, refl, text, ◌↔◌, ◌∷◌, ◌≡◌}
use computing_api.Std.Hex.{hex_encode}
use computing_api.Std.Strconv.{format_uint}
use computing_api.Auth.{sig_to_address, sign}
use computing_api.Kv.Memory.{memory}
use computing_api.World.{World}
use computing_api.Compose.{computing_gateway}
use computing_api.Cookie.{make_cookie}
use computing_api.Cmd.Sign.{sign_cmd}
use computing_api.Http.{Request, Site, cookies_of, user_of}
use computing_api.Http.Server.{routes, serve}
use computing_api.Http.Session.{handed_out, serve-sign_cmd}
use computing_api.Examples.{cookies, ledger, request, settings, site, small, start}
use computing_api.Examples.Calls.{hexed, hexed_laws, printed}
use computing_api.Examples.Serving.{router}
use computing_api.Base.Int.{pos, to_bits, wrap64, ◌+ℤ◌, ◌<ℤ◌}

-- The text of a cookie header stands for the address in the cookie that was made at second 1030.
abbrev entry : Site memory small ledger
entry = record site {
  crypto = hexed;
  read_cookies =
      λ line. record (make_cookie hexed cookies (pos 1030) line) { expires = pos 0 } ∷ [];
}

abbrev asking : Request
asking = record request { user = printed.address; sig = printed.sig; ts = printed.msg }

abbrev back : Request
back = record request { cookie_headers = printed.address ∷ [] }

abbrev at_1030 : World memory small ledger
at_1030 = record start { clock = pos 1030 }

serve-sign_cmd_example :
    (serve router entry
        (computing_gateway hexed memory small ledger settings)
        (text "GET")
        (text "/greet/cookie")
        []
        asking
        at_1030
      ≡ (
        ok (
            handed_out router entry settings []
              (make_cookie hexed cookies (pos 1030) printed.address)),
        at_1030,
      ))
    × ((user_of entry (cookies_of entry back.cookie_headers) start ≡ ok printed.address)
        ↔ (start.clock <ℤ (pos 1030 +ℤ pos 100)))
unfolding sign_cmd hex_encode text sign sig_to_address format_uint wrap64 to_bits ◌+ℤ◌ routes
    cookies_of make_cookie
serve-sign_cmd_example =
    serve-sign_cmd router entry settings hexed_laws 1000 [] (text "/greet/cookie") [] printed asking
      back at_1030 start refl (omega arith) refl refl (omega arith) (omega arith, omega arith)
      (pos 0, [], refl)

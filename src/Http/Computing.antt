-- ===== src/Http/Computing.antt =====
-- `handlerCompute` of handler.go: forwarding a request to the application of its user.
use computing_api.Base.{
  Exec, Str, [], attempt, if◌then◌else◌, lift, new, not, reads, str_eq, text, ◌==◌,
}
use computing_api.Utils.{or_zero, string_to_uint64}
use computing_api.Kv.{Badger}
use computing_api.Kube.{Kube}
use computing_api.World.{World}
use computing_api.Gateway.{GatewayApi}
use computing_api.Remote.{status_text}
use computing_api.Http.{
  Reply, Request, Site, Url, cookies_of, err_error, forwarded, msg_error, reply, user_of,
}
use computing_api.Chain.{Chain}

-- The `director`: a target with no scheme is asked over http.
unfoldable pub direct : Url → Url
direct target = if str_eq target.scheme [] then record target { scheme = text "http" } else target

module _ {b : Badger} {k : Kube} {ch : Chain} (site : Site b k ch)
    (gw : GatewayApi (World b k ch)) where
  -- From the entrance of the user on.
  unfoldable pub forward : Str → Exec (World b k ch) Reply
  unfolding direct
  forward user =
      attempt (reads (gw.get_entrance user))
        (λ e. reply 400 (msg_error "[Fail] have not deployed before or something went wrong" e))
        (λ ent.
          attempt (lift (site.parse_url ent))
            (λ e. reply 500 (err_error "fail to parse entrance" e))
            (λ target. reply 200 (forwarded (direct target))))

  -- `handlerCompute`
  unfoldable pub handler_compute : Request → Exec (World b k ch) Reply
  unfolding forward
  handler_compute c =
      let id = or_zero (string_to_uint64 c.id) in
      attempt (reads (user_of site (cookies_of site c.cookie_headers)))
        (λ e. reply 400 (msg_error "cookie check failed" e))
        (λ user.
          attempt (reads (gw.get_order id))
            (λ e. reply 400 (msg_error "[Fail] get order info from contract failed" e))
            (λ order.
              if not (order.status == 2)
              then reply 400 (msg_error "[Fail] order not active" (new (status_text order.status)))
              else attempt (reads (gw.expire_check order))
                  (λ e. reply 400 (msg_error "[Fail] the order expire check failed" e))
                  (λ _. forward user)))

-- ===== src/Http/Laws.antt =====
-- Who may do what.
use computing_api.Base.{Error, arith, err, ◌≡◌}
use computing_api.Kv.{Badger}
use computing_api.Kube.{Kube}
use computing_api.World.{World}
use computing_api.Gateway.{GatewayApi}
use computing_api.Http.{
  Request, Site, cookies_of, err_error, inject_cookie, msg_error, reply, user_of,
}
use computing_api.Http.Deploying.{
  handler_clean, handler_deploy_id, handler_deploy_url, handler_show,
}
use computing_api.Http.Computing.{handler_compute}
use computing_api.Chain.{Chain}

module _ {b : Badger} {k : Kube} {ch : Chain} (site : Site b k ch)
    (gw : GatewayApi (World b k ch)) where
  -- A request whose cookies name no user is refused with status 400 by the handlers that deploy from
  -- a list, clean, show and compute, and the world is as it was.
  pub handlers_refuse :
      (c : Request) (w : World b k ch) (e : Error)
      → user_of site (cookies_of site c.cookie_headers) w ≡ err e
      → (handler_clean site gw c w ≡ reply 400 (err_error "[Fail] invalid cookie" e) w)
        × (handler_show site gw c w ≡ reply 400 (err_error "[Fail] invalid cookie" e) w)
        × (handler_compute site gw c w ≡ reply 400 (msg_error "cookie check failed" e) w)
        × ((handler_deploy_id site gw c w).1 ≡ w)
  unfolding handler_clean handler_show handler_compute handler_deploy_id
  handlers_refuse c w e h = ground arith

  -- `handlerDeployUrl` also takes the token of an Authorization header for a cookie; with no user in
  -- either it refuses, and the world is as it was.
  pub handler_deploy_url_refuses :
      (c : Request) (w : World b k ch) (e : Error)
      → user_of site (inject_cookie site c) w ≡ err e
      → handler_deploy_url site gw c w ≡ reply 400 (err_error "invalid cookie" e) w
  unfolding handler_deploy_url
  handler_deploy_url_refuses c w e h = ground arith

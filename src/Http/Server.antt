-- ===== src/Http/Server.antt =====
-- computing/server/httpserver/server.go: the routes of the server, and the headers for other origins.
pub mod Access
use computing_api.Base.{
  Exec, List, Option, Str, String, [], if◌then◌else◌, none, pure, some, str_eq, text, ℕ, ◌>>=◌, ◌∷◌,
}
use computing_api.Kv.{Badger}
use computing_api.Chain.{Chain}
use computing_api.Kube.{Kube}
use computing_api.World.{World}
use computing_api.Gateway.{GatewayApi}
use computing_api.Http.{Body, Reply, Request, Site, handler_cookie, handler_model_list}
use computing_api.Http.Deploying.{
  handler_clean, handler_deploy_id, handler_deploy_url, handler_show,
}
use computing_api.Http.Orders.{handler_extend, handler_reset, handler_settle}
use computing_api.Http.Computing.{handler_compute}

-- The handlers of `handlerCore`.
pub data Handler : Type 0 where
  to_cookie to_deploy_url to_deploy_id to_extend to_reset to_settle : Handler
  to_clean to_show to_model_list to_compute : Handler

-- A registration by `r.GET`, or by `r.Any` where the method is `none`.
pub record Registration : Type 0 where
  pub method : Option Str
  pub path : Str
  pub handler : Handler

abbrev get_route : String → Handler → Registration
unfolding text
get_route path h = record { method = some (text "GET"); path = text path; handler = h }

unfoldable pub routes : List Registration
unfolding get_route text
routes =
    get_route "/greet/cookie" to_cookie
    ∷ get_route "/greet/deployurl" to_deploy_url
    ∷ get_route "/greet/deployid" to_deploy_id
    ∷ get_route "/greet/extend" to_extend
    ∷ get_route "/greet/reset" to_reset
    ∷ get_route "/greet/settle" to_settle
    ∷ get_route "/greet/clean" to_clean
    ∷ get_route "/greet/show" to_show
    ∷ get_route "/greet/modellist" to_model_list
    ∷ record { method = none; path = text "/"; handler = to_compute }
    ∷ []

-- What the router of gin makes of the registrations: the handler of a method and a path, and its
-- own reply where there is none.
pub record Router : Type 0 where
  pub find : List Registration → Str → Str → Option Handler
  pub no_route : Str → Str → ℕ

pub record Answer : Type 0 where
  pub headers : List (Str × Str)
  pub status : ℕ
  pub body : Option Body

-- The headers that `cors` sets.
unfoldable pub cors_headers : Str → List (Str × Str)
unfolding text
cors_headers origin =
    if str_eq origin []
    then []
    else ((text "Access-Control-Allow-Origin", origin)
        ∷ (text "Access-Control-Allow-Methods", text "POST, GET, OPTIONS, PUT, DELETE, UPDATE")
        ∷ (
          text "Access-Control-Allow-Headers",
          text "Content-Type, X-CSRF-Token, Authorization, Token",
        )
        ∷ (
          text "Access-Control-Expose-Headers",
          text
              "Content-Length, Access-Control-Allow-Origin, Access-Control-Allow-Headers, Cache-Control, Content-Language, Content-Type",
        )
        ∷ (text "Access-Control-Allow-Credentials", text "true")
        ∷ [])

module _ {b : Badger} {k : Kube} {ch : Chain} (router : Router) (site : Site b k ch)
    (gw : GatewayApi (World b k ch)) where
  unfoldable pub handle : Handler → Request → Exec (World b k ch) Reply
  handle to_cookie c = handler_cookie site gw c
  handle to_deploy_url c = handler_deploy_url site gw c
  handle to_deploy_id c = handler_deploy_id site gw c
  handle to_extend c = handler_extend gw c
  handle to_reset c = handler_reset gw c
  handle to_settle c = handler_settle gw c
  handle to_clean c = handler_clean site gw c
  handle to_show c = handler_show site gw c
  handle to_model_list c = handler_model_list site c
  handle to_compute c = handler_compute site gw c

  abbrev pub dispatch : Option Handler → ℕ → List (Str × Str) → Request → Exec (World b k ch) Answer
  dispatch none status headers c = pure (record { headers = headers; status = status; body = none })
  dispatch (some h) status headers c =
      handle h c >>= λ r. pure (record { headers = headers; status = r.status; body = some r.body })

  -- A request as the middleware and the router treat it: after `AbortWithStatus` no handler runs.
  unfoldable pub serve : Str → Str → Str → Request → Exec (World b k ch) Answer
  unfolding handle cors_headers routes text
  serve method path origin c =
      if str_eq method (text "OPTIONS")
      then pure (record { headers = cors_headers origin; status = 204; body = none })
      else dispatch (router.find routes method path) (router.no_route method path)
          (cors_headers origin) c

  -- `NewServer`: where the server listens, and what answers there.
  record HttpServer : Type 0 where
    pub addr : Str
    pub handler : Str → Str → Str → Request → Exec (World b k ch) Answer

  unfoldable new_server : Str → HttpServer
  new_server addr = record { addr = addr; handler = serve }

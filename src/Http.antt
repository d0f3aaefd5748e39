-- ===== src/Http.antt =====
-- computing/server/httpserver/handler.go: requests, replies, and what the handlers share.
pub mod Deploying
pub mod Orders
pub mod Computing
pub mod Laws
pub mod Answered
pub mod Access
pub mod Redeploy
pub mod Deployed
pub mod Session
pub mod Forwarded
pub mod Server
use computing_api.Base.{
  Bool, Error, Exec, List, Result, Str, String, [], attempt, if◌then◌else◌, lift, pure, raise,
  reads, str_eq, text, ℕ, ◌++◌, ◌∷◌,
}
use computing_api.Std.Strings.{is_empty, split_n2}
use computing_api.Utils.{Model, load_model}
use computing_api.Auth.{Crypto}
use computing_api.Cookie.{CookieManager, HttpCookie, find_cookie, make_cookie}
use computing_api.Kv.{Badger}
use computing_api.Chain.{Chain}
use computing_api.Kube.{Kube}
use computing_api.Yaml.{Decoder, Page}
use computing_api.World.{World}
use computing_api.Gateway.{GatewayApi}

-- The query values that the handlers read (empty when missing), the Authorization header, and the
-- Cookie headers.
pub record Request : Type 0 where
  pub user : Str
  pub ts : Str
  pub sig : Str
  pub url : Str
  pub oid : Str
  pub id : Str
  pub sk : Str
  pub dur : Str
  pub prob : Str
  pub authorization : Str
  pub cookie_headers : List Str

-- `Model` of handler.go: what the reply shows of a model.
pub record ListedModel : Type 0 where
  pub name : Str
  pub desc : Str
  pub gpu : Str
  pub mem : Str
  pub disk : Str

pub record Url : Type 0 where
  pub scheme : Str
  pub host : Str

-- The JSON that a handler sends: a message, a message that ends in an error's text (under the key
-- "msg" or "err"), or a result. A forwarded request is answered by the target.
pub data Body : Type 0 where
  msg : String → Body
  msg_error : String → Error → Body
  err_error : String → Error → Body
  authorized : HttpCookie → Body
  shown : Str → Bool → Bool → Body
  models : List ListedModel → Body
  forwarded : Url → Body

pub record Reply : Type 0 where
  pub status : ℕ
  pub body : Body

abbrev pub reply : {W : Type 0} → ℕ → Body → Exec W Reply
reply status body = pure (record { status = status; body = body })

-- What the handlers use beside the gateway: cryptography, the cookie manager, and the work of
-- net/http, net/url, the file system and the web.
pub record Site (b : Badger) (k : Kube) (ch : Chain) : Type 1 where
  pub crypto : Crypto
  pub manager : CookieManager
  pub read_cookies : Str → List HttpCookie
  pub parse_url : Str → Result Url
  pub decoder : Decoder
  pub unmarshal_models : Str → Result (List Model)
  pub unmarshal_listed : Str → Result (List ListedModel)
  pub read_file : Str → World b k ch → Result Str
  pub page : Str → World b k ch → Page

module _ {b : Badger} {k : Kube} {ch : Chain} (site : Site b k ch) where
  -- `c.Request.Cookies()`
  unfoldable pub cookies_of : List Str → List HttpCookie
  cookies_of [] = []
  cookies_of (line ∷ lines) = site.read_cookies line ++ cookies_of lines

  -- The cookie headers with the token of an Authorization header behind them; none at all if that
  -- header is not of the form "Bearer token".
  unfoldable pub bearer_headers : List Str → List Str → List Str
  bearer_headers lines (scheme ∷ token ∷ []) =
      if str_eq scheme (text "Bearer") then lines ++ token ∷ [] else []
  bearer_headers lines _ = []

  unfoldable pub inject_cookie : Request → List HttpCookie
  unfolding cookies_of bearer_headers
  inject_cookie c =
      if is_empty c.authorization
      then cookies_of c.cookie_headers
      else cookies_of (bearer_headers c.cookie_headers (split_n2 b' ' c.authorization))

  -- The user that the cookies of a request name, at the time that the clock shows.
  unfoldable pub user_of : List HttpCookie → World b k ch → Result Str
  user_of cks w = find_cookie site.crypto site.manager w.clock cks

  -- `handlerCookie`
  unfoldable pub handler_cookie : GatewayApi (World b k ch) → Request → Exec (World b k ch) Reply
  handler_cookie gw c =
      if is_empty c.ts
      then reply 400 (msg "[Fail] missing timestamp in request")
      else if is_empty c.sig
      then reply 400 (msg "[Fail] missing signature in request")
      else attempt
          (reads (gw.check_auth_info (record { address = c.user; sig = c.sig; msg = c.ts })))
          (λ e. raise e)
          (λ accepted w.
            if accepted
            then reply 200 (authorized (make_cookie site.crypto site.manager w.clock c.user)) w
            else reply 400 (msg "[Fail] Failed to verify your signature") w)

  -- `handlerModelList`
  unfoldable pub handler_model_list : Request → Exec (World b k ch) Reply
  unfolding load_model
  handler_model_list c =
      attempt (reads (λ w. load_model (site.read_file (text "./list.json") w)))
        (λ e. reply 500 (msg_error "[Fail] load model list failed" e))
        (λ content.
          attempt (lift (site.unmarshal_listed content))
            (λ e. reply 500 (msg_error "[Fail] Error unmarshalling JSON" e))
            (λ listed. reply 200 (models listed)))

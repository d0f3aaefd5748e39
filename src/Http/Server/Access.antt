-- ===== src/Http/Server/Access.antt =====
-- What a request without a user can do.
use computing_api.Base.{
  Bool-cases, Error, List, Option, Result, Str, arith, branch, err, inl, inr, is_err, none, ok,
  panic, pure, raise, refl, some, str_eq, text, true, ℕ, ◌∙◌, ◌≡◌, ◌⊎◌,
}
use computing_api.Kv.{Badger}
use computing_api.Chain.{Chain}
use computing_api.Kube.{Kube}
use computing_api.World.{World}
use computing_api.Gateway.{GatewayApi}
use computing_api.Http.{
  Reply, Request, Site, cookies_of, handler_cookie, handler_model_list, inject_cookie, user_of,
}
use computing_api.Http.Server.{
  Answer, Handler, Router, cors_headers, dispatch, handle, routes, serve, to_clean, to_compute,
  to_cookie, to_deploy_id, to_deploy_url, to_extend, to_model_list, to_reset, to_settle, to_show,
}
use computing_api.Http.Laws.{handler_deploy_url_refuses, handlers_refuse}

-- The handlers that change an order on the chain with a key from the request.
abbrev pub ByKey : Handler → Type 0
ByKey h = (h ≡ to_extend) ⊎ ((h ≡ to_reset) ⊎ (h ≡ to_settle))

module _ {b : Badger} {k : Kube} {ch : Chain} (router : Router) (site : Site b k ch)
    (gw : GatewayApi (World b k ch)) where
  -- The cookies of the request name no user, with and without the Authorization header.
  abbrev pub Unknown : Request → World b k ch → Type 0
  Unknown c w =
      (is_err (user_of site (cookies_of site c.cookie_headers) w) ≡ true)
      × (is_err (user_of site (inject_cookie site c) w) ≡ true)

  err_of : {A : Type 0} (r : Result A) → is_err r ≡ true → (e : Error) × (r ≡ err e)
  err_of (ok a) h = absurd (cc)
  err_of (err e) h = (e, refl)
  err_of (panic why) h = absurd (cc)

  handler_cookie-same : (c : Request) (w : World b k ch) → (handler_cookie site gw c w).1 ≡ w
  unfolding handler_cookie
  handler_cookie-same c w = ground arith

  handler_model_list-same : (c : Request) (w : World b k ch) → (handler_model_list site c w).1 ≡ w
  unfolding handler_model_list
  handler_model_list-same c w = ground arith

  handle-Unknown :
      (h : Handler) (c : Request) (w : World b k ch)
      → Unknown c w
      → ByKey h ⊎ ((handle router site gw h c w).1 ≡ w)
  unfolding handle
  handle-Unknown to_extend c w u = inl (inl refl)
  handle-Unknown to_reset c w u = inl (inr (inl refl))
  handle-Unknown to_settle c w u = inl (inr (inr refl))
  handle-Unknown to_cookie c w u = inr (handler_cookie-same c w)
  handle-Unknown to_model_list c w u = inr (handler_model_list-same c w)
  handle-Unknown to_deploy_url c w (_, u) =
      let (e, bad) = err_of (user_of site (inject_cookie site c) w) u in
      inr (λ i. (handler_deploy_url_refuses site gw c w e bad i).1)
  handle-Unknown to_deploy_id c w (u, _) =
      let (e, bad) = err_of (user_of site (cookies_of site c.cookie_headers) w) u in
      let (_, _, _, same) = handlers_refuse site gw c w e bad in inr same
  handle-Unknown to_clean c w (u, _) =
      let (e, bad) = err_of (user_of site (cookies_of site c.cookie_headers) w) u in
      let (refused, _, _, _) = handlers_refuse site gw c w e bad in inr (λ i. (refused i).1)
  handle-Unknown to_show c w (u, _) =
      let (e, bad) = err_of (user_of site (cookies_of site c.cookie_headers) w) u in
      let (_, refused, _, _) = handlers_refuse site gw c w e bad in inr (λ i. (refused i).1)
  handle-Unknown to_compute c w (u, _) =
      let (e, bad) = err_of (user_of site (cookies_of site c.cookie_headers) w) u in
      let (_, _, refused, _) = handlers_refuse site gw c w e bad in inr (λ i. (refused i).1)

  reply_same :
      (r : Result Reply) (headers : List (Str × Str)) (w : World b k ch)
      → (branch r raise
          (λ p.
            pure {A = Answer} (record { headers = headers; status = p.status; body = some p.body }))
          w).1
        ≡ w
  reply_same (ok p) headers w = refl
  reply_same (err e) headers w = refl
  reply_same (panic why) headers w = refl

  dispatch-Unknown :
      (chosen : Option Handler) (status : ℕ) (headers : List (Str × Str)) (c : Request)
      (w : World b k ch)
      → Unknown c w
      → ((h : Handler) × (chosen ≡ some h) × ByKey h)
        ⊎ ((dispatch router site gw chosen status headers c w).1 ≡ w)
  dispatch-Unknown none status headers c w u = inr refl
  dispatch-Unknown (some h) status headers c w u = elim (handle-Unknown h c w u) [
    | inl by_key ↦ inl (h, refl, by_key)
    | inr same ↦ inr (reply_same (handle router site gw h c w).0 headers _ ∙ same)
  ]

  -- A request whose cookies name no user leaves the world as it is, whatever its method and path
  -- are, unless it is routed to one of the three handlers that change an order, which ask for no
  -- cookie.
  pub serve-Unknown :
      (method path origin : Str) (c : Request) (w : World b k ch)
      → Unknown c w
      → ((h : Handler) × (router.find routes method path ≡ some h) × ByKey h)
        ⊎ ((serve router site gw method path origin c w).1 ≡ w)
  unfolding serve
  serve-Unknown method path origin c w unknown =
      elim (Bool-cases (str_eq method (text "OPTIONS"))) [
        | inl preflight ↦ inr (rw preflight refl)
        | inr other_method ↦ rw other_method (
            dispatch-Unknown (router.find routes method path) (router.no_route method path)
              (cors_headers origin) c w unknown)
      ]

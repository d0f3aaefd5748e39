-- ===== src/Http/Access.antt =====
-- When the handlers serve a request.
use computing_api.Base.{
  ==_iff, Bool, Exec, Str, [], arith, false, if◌then◌else◌, not, ok, panic, refl, true, ℕ, ◌==◌,
  ◌↔◌, ◌∙◌, ◌≡◌, ◌≢◌,
}
use computing_api.Std.Strings.{is_empty}
use computing_api.Utils.{or_zero, string_to_uint64}
use computing_api.Kv.{Badger}
use computing_api.Kube.{Kube}
use computing_api.World.{World}
use computing_api.Gateway.{GatewayApi}
use computing_api.Chain.{Chain, Order}
use computing_api.Cookie.{HttpCookie, make_cookie}
use computing_api.Http.{
  Body, Reply, Request, Site, Url, authorized, cookies_of, forwarded, handler_cookie, msg, reply,
  user_of,
}
use computing_api.Http.Answered.{served, served_after}
use computing_api.Http.Orders.{handler_extend}
use computing_api.Http.Computing.{direct, forward, handler_compute}
use computing_api.Http.Deploying.{deploy_on_node, handler_clean, handler_deploy_id, path_by_id}
use computing_api.Yaml.{Objects, parse_yaml_file}

guard_of :
    {W : Type 0} (holds : Bool) (code : ℕ) (why : Body) (next : Exec W Reply) (w w' : W) (x : Reply)
    → code ≢ x.status
    → (if not holds then reply code why else next) w ≡ (ok x, w')
    → (holds ≡ true) × (next w ≡ (ok x, w'))
guard_of true code why next w w' x n h = (refl, h)
guard_of false code why next w w' x n h = absurd (n cc)

status_guard :
    {W : Type 0} (status code : ℕ) (why : Body) (next : Exec W Reply) (w w' : W) (x : Reply)
    → code ≢ x.status
    → (if not (status == 2) then reply code why else next) w ≡ (ok x, w')
    → (status ≡ 2) × (next w ≡ (ok x, w'))
status_guard status code why next w w' x n h =
    let (two, rest) = guard_of (status == 2) code why next w w' x n h in
    ((==_iff status 2).0 two, rest)

forwarded_of :
    {W : Type 0} (to target : Url) (w w' : W)
    → reply 200 (forwarded to) w ≡ (ok (record { status = 200; body = forwarded target }), w')
    → (target ≡ to) × (w' ≡ w)
forwarded_of to target w w' h = (cc, cc)

module _ {b : Badger} {k : Kube} {ch : Chain} (gw : GatewayApi (World b k ch)) where
  -- `handlerExtend` answers that an order is renewed exactly when the order can be read, has status 2
  -- and the gateway's `Extend` succeeds; the world is then as `Extend` left it.
  handler_extend_iff :
      (c : Request) (w w' : World b k ch)
      → (handler_extend gw c w
          ≡ (ok (record { status = 200; body = msg "[ACK] order renewed" }), w'))
        ↔ ((order : Order) × (gw.get_order (or_zero (string_to_uint64 c.oid)) w ≡ ok order)
            × (order.status ≡ 2)
            × (gw.extend c.sk (or_zero (string_to_uint64 c.oid)) c.dur w ≡ (ok tt, w')))
  unfolding handler_extend
  handler_extend_iff c w w' = (
    λ h.
        let oid = or_zero (string_to_uint64 c.oid) in
        let (order, read, h1) = served (gw.get_order oid w) 400 _ _ w w' _ (λ e. omega arith) h in
        let (two, h2) = status_guard order.status 500 _ _ w w' _ (λ e. omega arith) h1 in
        let (_, w1, done, h3) =
          served_after (gw.extend c.sk oid c.dur) 500 _ _ w w' _ (λ e. omega arith) h2 in
        (order, read, two, done ∙ (λ i. (ok tt, (h3 i).1))),
    λ (order, read, two, done). rw (read, two, done) refl,
  )

module _ {b : Badger} {k : Kube} {ch : Chain} (site : Site b k ch)
    (gw : GatewayApi (World b k ch)) where
  -- `handlerCompute` forwards a request to a target exactly when the cookies name a user, the order
  -- can be read, has status 2 and passes the check of its expiry, and the user has an entrance that
  -- parses to the target (http filled in for a missing scheme). The world does not change.
  pub handler_compute_iff :
      (c : Request) (w w' : World b k ch) (target : Url)
      → (handler_compute site gw c w ≡ (ok (record { status = 200; body = forwarded target }), w'))
        ↔ ((user : Str) × (order : Order) × (entrance : Str) × (url : Url) × (user_of site
                (cookies_of site c.cookie_headers)
                w
              ≡ ok user)
            × (gw.get_order (or_zero (string_to_uint64 c.id)) w ≡ ok order)
            × (order.status ≡ 2)
            × (gw.expire_check order w ≡ ok tt)
            × (gw.get_entrance user w ≡ ok entrance)
            × (site.parse_url entrance ≡ ok url)
            × (target ≡ direct url)
            × (w' ≡ w))
  unfolding handler_compute forward
  handler_compute_iff c w w' target = (
    λ h.
        let oid = or_zero (string_to_uint64 c.id) in
        let (user, named, h1) =
          served (user_of site (cookies_of site c.cookie_headers) w) 400 _ _ w w' _
            (λ e. omega arith) h in
        let (order, read, h2) = served (gw.get_order oid w) 400 _ _ w w' _ (λ e. omega arith) h1 in
        let (two, h3) = status_guard order.status 400 _ _ w w' _ (λ e. omega arith) h2 in
        let (_, in_time, h4) =
          served (gw.expire_check order w) 400 _ _ w w' _ (λ e. omega arith) h3 in
        let (ent, there, h5) =
          served (gw.get_entrance user w) 400 _ _ w w' _ (λ e. omega arith) h4 in
        let (url, parsed, h6) = served (site.parse_url ent) 500 _ _ w w' _ (λ e. omega arith) h5 in
        let (t, same) = forwarded_of (direct url) target w w' h6 in
        (user, order, ent, url, named, read, two, in_time, there, parsed, t, same),
    λ (user, order, ent, url, named, read, two, in_time, there, parsed, t, same). ground arith,
  )

  -- `handlerCookie` hands out a cookie exactly when the time and the signature are not empty and the
  -- gateway accepts the user's authentication; the cookie is the one that is made for the user now.
  pub handler_cookie_iff :
      (c : Request) (w w' : World b k ch) (ck : HttpCookie)
      → (handler_cookie site gw c w ≡ (ok (record { status = 200; body = authorized ck }), w')) ↔ (
          (is_empty c.ts ≡ false)
          × (is_empty c.sig ≡ false)
          × (gw.check_auth_info (record { address = c.user; sig = c.sig; msg = c.ts }) w ≡ ok true)
          × (ck ≡ make_cookie site.crypto site.manager w.clock c.user)
          × (w' ≡ w))
  unfolding handler_cookie
  handler_cookie_iff c w w' ck = ground arith

  -- `handlerClean` does the same whoever the user is that the cookies of a request name: two requests
  -- for one order that each name some user end alike.
  handler_clean_any_user :
      (c c' : Request) (w : World b k ch) (user user' : Str)
      → c.oid ≡ c'.oid
      → user_of site (cookies_of site c.cookie_headers) w ≡ ok user
      → user_of site (cookies_of site c'.cookie_headers) w ≡ ok user'
      → handler_clean site gw c w ≡ handler_clean site gw c' w
  unfolding handler_clean
  handler_clean_any_user c c' w user user' same h h' = rw (h, h', same) refl

  -- For a user with a valid cookie, and an order that can be read, `handlerDeployID` panics when the
  -- yaml file that the id stands for can be read and holds no deployment.
  handler_deploy_id-no_deployment :
      (c : Request) (w : World b k ch) (user p : Str) (objects : Objects) (order : Order)
      → is_empty c.id ≡ false
      → user_of site (cookies_of site c.cookie_headers) w ≡ ok user
      → path_by_id site gw c.id w ≡ ok p
      → parse_yaml_file site.decoder (site.read_file p w) ≡ ok objects
      → objects.deps ≡ []
      → gw.get_order (or_zero (string_to_uint64 c.oid)) w ≡ ok order
      → handler_deploy_id site gw c w ≡ (panic "index out of range [0] with length 0", w)
  unfolding handler_deploy_id deploy_on_node
  handler_deploy_id-no_deployment c w user p objects order filled h1 h2 h3 h4 h5 = ground arith

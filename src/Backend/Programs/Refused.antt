-- ===== src/Backend/Programs/Refused.antt =====
-- The programs that try the service, against the service of a gateway.
use computing_api.Base.{
  >>=-eq-ok, Exec, Result, Str, [], branch, crash, err, false, lift, ok, panic, pure, refl, text,
  ◌∷◌, ◌≡◌, ◌≢◌,
}
use computing_api.Base.Int.{pos, ℤ}
use computing_api.Std.Strconv.{parse_int}
use computing_api.Auth.{Crypto}
use computing_api.Chain.{Chain}
use computing_api.Kv.{Badger}
use computing_api.Kube.{Kube}
use computing_api.Local.{check_auth_info, check_expire}
use computing_api.Compose.{Settings, computing_gateway}
use computing_api.Backend.Service.{service}
use computing_api.Backend.{Grpc, Session, greet, new_client, process}
use computing_api.Backend.Service.Empty.{process-service}
use computing_api.Backend.Programs.{Wire, fake_addr, fetch_list, or_fatal, quick_test, try_service}

no_fatal :
    {W A : Type 0} (r : Result A) (w : W) {a : A} {w' : W}
    → branch {W = W} r (λ _. crash "log.Fatal") pure w ≡ (ok a, w')
    → (r ≡ ok a) × (w ≡ w')
no_fatal (ok x) w h = ((λ i. (h i).0), λ i. (h i).1)
no_fatal (err e) w h = absurd (cc)
no_fatal (panic why) w h = absurd (cc)

or_fatal-eq-ok :
    {W A : Type 0} (m : Exec W A) (w : W) {a : A} {w' : W}
    → or_fatal m w ≡ (ok a, w')
    → m w ≡ (ok a, w')
or_fatal-eq-ok m w h = let (r, same) = no_fatal (m w).0 (m w).1 h in λ i. (r i, same i)

module _ (c : Crypto) (b : Badger) (k : Kube) (ch : Chain) (settings : Settings) (wire : Wire) where
  -- The service of the gateway outside tests.
  abbrev node : Grpc
  node = service (computing_gateway c b k ch settings)

  -- The key that the programs give is no time.
  no_key :
      (now : ℤ) (address : Str)
      → check_auth_info c settings.sign_expire now
          (record { address = address; sig = []; msg = [] })
        ≡ ok false
  unfolding check_auth_info check_expire parse_int
  no_key now address = refl

  no_process :
      (req response : Str) (s s' : Session node)
      → process node fake_addr [] req s ≢ (ok response, s')
  no_process req response s s' h =
      let (accepted, _, _, _) =
        process-service c b k ch settings fake_addr [] req response s s' h in
      let refused = no_key s.net.clock fake_addr in absurd (cc)

  -- Against the service of a gateway outside tests, the quick test never has all of its calls
  -- answered: its request carries no key, and is refused.
  try_service-refused : (s s' : Session node) → try_service node wire s ≢ (ok tt, s')
  unfolding try_service
  try_service-refused s s' h =
      let grpc = node in
      let (_, s1, _, h1) = >>=-eq-ok (or_fatal (greet grpc (pos 0) fake_addr [])) _ s h in
      let (_, s2, _, h2) = >>=-eq-ok (or_fatal (greet grpc (pos 1) fake_addr [])) _ s1 h1 in
      let (_, s3, _, h3) = >>=-eq-ok (or_fatal (greet grpc (pos 2) fake_addr [])) _ s2 h2 in
      let (_, s4, _, h4) =
        >>=-eq-ok
          (or_fatal (greet grpc (pos 3) (text "baidu.com") ((text "address", fake_addr) ∷ []))) _ s3
          h3 in
      let (req, s5, _, h5) = >>=-eq-ok (or_fatal (lift wire.request)) _ s4 h4 in
      let (response, s6, done, h6) = >>=-eq-ok (or_fatal (process grpc fake_addr [] req)) _ s5 h5 in
      no_process req response s5 s6 (or_fatal-eq-ok (process grpc fake_addr [] req) s5 done)

  -- Nor does the program around it.
  quick_test-refused : (s s' : Session node) → quick_test node wire s ≢ (ok tt, s')
  unfolding quick_test fetch_list
  quick_test-refused s s' h =
      let (_, s1, _, h1) = >>=-eq-ok (or_fatal (new_client node (text "localhost:12345"))) _ s h in
      let (_, s2, tried, _) = >>=-eq-ok (try_service node wire) _ s1 h1 in
      try_service-refused s1 s2 tried

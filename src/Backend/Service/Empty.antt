-- ===== src/Backend/Service/Empty.antt =====
-- What a user gets who has a request processed.
use computing_api.Base.{Exec, Option, Str, [], none, ok, some, sym, true, ℕ, ◌≡◌}
use computing_api.Auth.{Crypto}
use computing_api.Chain.{Chain}
use computing_api.Kv.{Badger}
use computing_api.Kube.{Kube}
use computing_api.World.{World}
use computing_api.Local.{check_auth_info}
use computing_api.Compose.{Settings, computing_gateway}
use computing_api.Rpc.Laws.{process_empty}
use computing_api.Backend.{Grpc, Session, on_net, process, with_client}
use computing_api.Backend.Service.{service}

module _ (c : Crypto) (b : Badger) (k : Kube) (ch : Chain) (settings : Settings) where
  -- The service of the gateway outside tests.
  abbrev pub Service : Grpc
  Service = service (computing_gateway c b k ch settings)

  with_client_lem :
      (conn : Option ℕ) (call : ℕ → Exec (World b k ch) Str) (r : Str) (s s' : Session Service)
      → with_client Service conn (λ n. on_net Service (call n)) s ≡ (ok r, s')
      → (n : ℕ) × (call n s.net ≡ (ok r, s'.net)) × (s'.cp ≡ s.cp)
  with_client_lem none call r s s' h = absurd (cc)
  with_client_lem (some n) call r s s' h = (n, (λ i. ((h i).0, (h i).1.net)), λ i. (sym h i).1.cp)

  -- A request that a user has processed through a client of this service, and that ends with no
  -- error, was authenticated by its key, has changed nothing on either side, and brings an empty
  -- response.
  pub process-service :
      (address api_key http_req response : Str) (s s' : Session Service)
      → process Service address api_key http_req s ≡ (ok response, s')
      → (check_auth_info c settings.sign_expire s.net.clock
            (record { address = address; sig = []; msg = api_key })
          ≡ ok true)
        × (response ≡ [])
        × (s'.net ≡ s.net)
        × (s'.cp ≡ s.cp)
  unfolding process
  process-service address api_key http_req response s s' h =
      let (n, called, same) = with_client_lem s.cp.c _ response s s' h in
      let (accepted, empty, kept) =
        process_empty c b k ch settings address api_key http_req response s.net s'.net called in
      (accepted, empty, kept, same)

-- ===== src/Rpc/Laws.antt =====
-- What clients of the remote procedure calls are told.
use computing_api.Base.{Option, Str, [], arith, new, ok, refl, some, true, ◌∷◌, ◌≡◌, ◌≢◌}
use computing_api.Auth.{Crypto}
use computing_api.Chain.{Chain}
use computing_api.Kv.{Badger}
use computing_api.Kube.{Kube}
use computing_api.World.{World}
use computing_api.Local.{authorize, check_auth_info, check_expire, compute}
use computing_api.Remote.{payee_check}
use computing_api.Compose.{Settings, computing_gateway}
use computing_api.Std.Strconv.{parse_int}
use computing_api.Rpc.{answered, failing, greet, process}
use computing_api.Base.Int.{pos}

module _ (c : Crypto) (b : Badger) (k : Kube) (ch : Chain) (settings : Settings) where
  -- Outside tests a greeting never deploys: its authentication has no message, so every request of
  -- type 3 that names an address and a deployment is answered by a refusal.
  greet_deploy_refuses :
      (input address : Str) (w : World b k ch)
      → input ≢ []
      → greet (computing_gateway c b k ch settings) (pos 3) input (some address) w
        ≡ (ok (answered "[Fail] user is not authorized"), w)
  unfolding greet computing_gateway check_auth_info check_expire parse_int
  greet_deploy_refuses [] address w h = absurd (h refl)
  greet_deploy_refuses (x ∷ input) address w h = refl

  -- Nor does it authorize: the user that it asks a lease for is the empty text, and every request of
  -- type 1 fails.
  greet_authority_fails :
      (input : Str) (address : Option Str) (w : World b k ch)
      → greet (computing_gateway c b k ch settings) (pos 1) input address w
        ≡ (ok (failing "[Fail] Authorize failed" (new "user should not be empty")), w)
  unfolding greet computing_gateway authorize payee_check
  greet_authority_fails input address w = refl

  -- Outside tests a call of `Process` that succeeds was authenticated by its key, has changed nothing,
  -- and answers with an empty response: no request reaches an application this way.
  pub process_empty :
      (address api_key request response : Str) (w w' : World b k ch)
      → process (computing_gateway c b k ch settings) address api_key request w ≡ (ok response, w')
      → (check_auth_info c settings.sign_expire w.clock
            (record { address = address; sig = []; msg = api_key })
          ≡ ok true)
        × (response ≡ [])
        × (w' ≡ w)
  unfolding process computing_gateway compute
  process_empty address api_key request response w w' h = ground arith

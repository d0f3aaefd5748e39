-- ===== src/Gateway.antt =====
-- computing/gateway/interface.go: what the servers ask of a gateway, over the world `W` that it works
-- on. Calls that the program's gateways answer without changing anything only read the world.
use computing_api.Base.{Bool, Exec, List, Result, Str, ℕ}
use computing_api.Chain.{Order}
use computing_api.Kube.{Deployment, Service}
use computing_api.Model.{AuthInfo, Lease, Resources}

pub record GatewayApi (W : Type 0) : Type 0 where
  -- GatewayLocalProcessAPI
  pub check_auth_info : AuthInfo → W → Result Bool
  pub assess_power : Resources
  pub authorize : Str → Lease → Exec W (Unit {0})
  pub deploy : List Deployment → List Service → Str → Exec W (Unit {0})
  -- What the deployments are, through the same pointers, after a call of `deploy`.
  pub renamed : List Deployment → Str → List Deployment
  pub get_entrance : Str → W → Result Str
  pub compute : Str → Str → Exec W Str
  pub terminate : Str → Exec W (Unit {0})
  -- GatewayRemoteProcessAPI
  pub static_check : Order → W → Result (Unit {0})
  pub expire_check : Order → W → Result (Unit {0})
  pub set_app : ℕ → Str → Exec W (Unit {0})
  pub extend : Str → ℕ → Str → Exec W (Unit {0})
  pub reset : ℕ → Str → Str → Exec W (Unit {0})
  pub settle : ℕ → Exec W (Unit {0})
  pub payee_check : Order → W → Result (Unit {0})
  pub set_watcher : Str → Exec W (Unit {0})
  pub get_order : ℕ → W → Result Order
  pub order_check : ℕ → W → Result (Unit {0})

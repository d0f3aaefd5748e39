-- ===== src/Compose.antt =====
-- computing/gateway/gateway.go: the gateway that the servers work with, put together from the local
-- process (or the one for tests) and the remote process.
use computing_api.Base.{Bool, Result, Str, if◌then◌else◌, lift}
use computing_api.Auth.{Crypto}
use computing_api.Chain.{Chain}
use computing_api.Kv.{Badger}
use computing_api.Kube.{Kube}
use computing_api.Deploy.{rename}
use computing_api.Model.{Lease, no_resources}
use computing_api.World.{World, on_chain}
use computing_api.Gateway.{GatewayApi}
use computing_api.Local.{authorize, check_auth_info, compute, deploy_app, get_entrance, terminate}
use computing_api.Local.Fake.{
  fake_authorize, fake_check_auth_info, fake_deploy, fake_get_entrance, fake_terminate,
}
use computing_api.Base.Int.{ℤ}
use computing_api.Remote

-- What the gateway is made with: the expiry of signatures, the provider's key of this run, the key of
-- the wallet as the key store gives it, and the encoding of a lease.
pub record Settings : Type 0 where
  pub sign_expire : ℤ
  pub sk : Str
  pub wallet_sk : Result Str
  pub encode_lease : Lease → Result Str

module _ (c : Crypto) (b : Badger) (k : Kube) (ch : Chain) (settings : Settings) where
  -- The gateway that runs outside tests.
  unfoldable pub computing_gateway : GatewayApi (World b k ch)
  computing_gateway = record {
    check_auth_info = λ ainfo w. check_auth_info c settings.sign_expire w.clock ainfo;
    assess_power = no_resources;
    authorize = authorize b k ch settings.encode_lease;
    deploy = deploy_app b k ch;
    renamed = λ deps user. rename (k.to_lower user) deps;
    get_entrance = get_entrance b k ch;
    compute = compute b k ch;
    terminate = terminate b k ch;
    static_check = λ order w. Remote.static_check order;
    expire_check = λ order w. Remote.expire_check w.clock order;
    set_app = λ id app. on_chain (Remote.set_app ch settings.wallet_sk id app);
    extend = λ sk id dur. on_chain (Remote.extend ch sk id dur);
    reset = λ id prob dur. on_chain (Remote.reset ch settings.sk id prob dur);
    settle = λ id. on_chain (Remote.settle ch settings.sk id);
    payee_check = λ order w. Remote.payee_check order;
    set_watcher = λ contract. lift (Remote.set_watcher contract);
    get_order = λ id w. Remote.get_order ch id w.chain;
    order_check = λ id w. Remote.order_check ch id w.chain;
  }

  -- `NewComputingGateway`: the test flag puts the map in place of the local process.
  unfoldable pub new_computing_gateway : Bool → GatewayApi (World b k ch)
  unfolding computing_gateway
  new_computing_gateway test =
      if test
      then record computing_gateway {
        check_auth_info = fake_check_auth_info b k ch;
        authorize = fake_authorize b k ch;
        deploy = fake_deploy b k ch;
        renamed = λ deps user. deps;
        get_entrance = fake_get_entrance b k ch;
        terminate = fake_terminate b k ch;
      }
      else computing_gateway

-- ===== src/Rpc.antt =====
-- computing/server/rpcserver/server.go
pub mod Laws
use computing_api.Base.{
  Error, Exec, Option, Str, String, [], attempt, if◌then◌else◌, ignore, new, none, not, pure, raise,
  reads, some, str_eq, suc, zero, ◌>>=◌, ◌>>◌,
}
use computing_api.Chain.{Order}
use computing_api.Model.{Lease, no_resources}
use computing_api.Gateway.{GatewayApi}
use computing_api.Base.Int.{pos, ℤ}

-- What a call of `Greet` returns: nothing at all, a text, or a text beside an error.
pub data Greeting : Type 0 where
  nothing : Greeting
  answered : String → Greeting
  failing : String → Error → Greeting

-- `market.IMarketOrder{}`
abbrev pub empty_order : Order
empty_order = record {
  provider = [];
  node_id = 0;
  app_name = [];
  status = 0;
  activate_time = pos 0;
  probation = pos 0;
  duration = pos 0;
}

abbrev pub empty_lease : Lease
empty_lease = record { resources = no_resources }

module _ {W : Type 0} (gw : GatewayApi W) where
  unfoldable pub greet_authority : Str → Exec W Greeting
  greet_authority input =
      attempt (reads (gw.payee_check empty_order)) (λ e. pure (failing "[Fail] Authorize failed" e))
        (λ _.
          attempt (gw.authorize [] empty_lease) (λ e. pure (failing "[Fail] Authorize failed" e))
            (λ _. ignore (gw.set_watcher input) >> pure (answered "[ACK] authorized ok")))

  unfoldable pub greet_check : Str → Exec W Greeting
  greet_check input =
      reads (gw.check_auth_info (record { address = []; sig = []; msg = input })) >>= λ accepted.
      if accepted
      then pure (answered "[ACK] already authorized")
      else pure (answered "[Fail] Failed to verify your account")

  abbrev pub deploy_for : Option Str → Exec W Greeting
  deploy_for none = pure (answered "[Fail] user's address is required")
  deploy_for (some addr) =
      reads (gw.check_auth_info (record { address = addr; sig = []; msg = [] })) >>= λ accepted.
      if not accepted
      then pure (answered "[Fail] user is not authorized")
      else pure (answered "[ACK] deployed ok")

  unfoldable pub greet_deploy : Str → Option Str → Exec W Greeting
  greet_deploy input address =
      if str_eq input [] then pure (answered "[Fail] empty deployment") else deploy_for address

  -- `Greet`; `address` is the option of that name, where the request has it.
  unfoldable pub greet : ℤ → Str → Option Str → Exec W Greeting
  unfolding greet_authority greet_check greet_deploy
  greet (pos zero) input address = pure nothing
  greet (pos (suc zero)) input address = greet_authority input
  greet (pos (suc (suc zero))) input address = greet_check input
  greet (pos (suc (suc (suc zero)))) input address = greet_deploy input address
  greet _ input address = pure (answered "[Fail] Unsupported message type")

  -- `Process`
  unfoldable pub process : Str → Str → Str → Exec W Str
  process address api_key request =
      reads (gw.check_auth_info (record { address = address; sig = []; msg = api_key }))
      >>= λ accepted.
          if not accepted
          then raise (new "[Fail] Failed to verify your account")
          else (reads (gw.get_entrance address) >>= λ entrance. gw.compute entrance request)

-- ===== src/Backend/Service.antt =====
-- The user's processor over the rpc service of a gateway: what user/backend/computing/process.go gets
-- from computing/server/rpcserver/server.go.
use computing_api.Base.{
  Exec, List, Option, Str, [], if◌then◌else◌, none, pure, raise, some, str_eq, text, ◌>>=◌, ◌∷◌,
}
use computing_api.Gateway.{GatewayApi}
use computing_api.Rpc.{Greeting, answered, failing, greet, nothing, process}
use computing_api.Backend.{Grpc}
pub mod Empty

abbrev pub option_of : Str → List (Str × Str) → Option Str
option_of key [] = none
option_of key ((k, v) ∷ opts) =
    let rest = option_of key opts in if str_eq k key then some v else rest

-- What a client has of a greeting: its text, or an error.
abbrev pub received : {W : Type 0} → Greeting → Exec W Str
received nothing = pure []
received (answered s) = pure (text s)
received (failing s e) = raise e

-- A connection to the service of a gateway, which shares its world.
abbrev pub service : {W : Type 0} → GatewayApi W → Grpc
service {W} gw = record {
  State = W;
  dial = λ url. pure 0;
  close = λ conn. pure tt;
  greet = λ conn to input msg_type opts.
      greet gw msg_type input (option_of (text "address") opts) >>= received;
  process = λ conn to address apikey http_req. process gw address apikey http_req;
}

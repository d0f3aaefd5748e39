-- ===== src/Cmd/Rpc.antt =====
-- computing/app/rpc/main.go: the program that serves the compute service, from its start to its end.
pub mod Laws
use computing_api.Base.{
  Exec, Result, Str, [], attempt, crash, false, if◌then◌else◌, lift, ok, pure, some, ◌>>=◌, ◌>>◌,
  ◌∷◌,
}
use computing_api.Config.{GatewayConfig}
use computing_api.Cmd.Daemon.{Daemon, Gateway, Outside, close_gateway, open_gateway}

-- What `NewComputingGateway` is given for the endpoint of a chain, and `test`.
abbrev pub rpc_endpoint : Str
rpc_endpoint = b'e' ∷ b'p' ∷ []

module _ (out : Outside) where
  -- `init`
  unfoldable pub rpc_init : GatewayConfig → Exec Daemon Gateway
  unfolding open_gateway
  rpc_init conf =
      (if out.check_version then crash "os.Exit(0)" else pure tt)
      >> open_gateway out conf rpc_endpoint false

  -- `main`, given what `net.Listen` gives: the service runs until the signal to quit, stops when its
  -- calls have ended, and the gateway is closed.
  unfoldable pub rpc_main : GatewayConfig → Result (Unit {0}) → Gateway → Exec Daemon (Unit {0})
  rpc_main conf listening gw = do
    attempt (lift listening) (λ _. crash "log.Fatalf: failed to listen") pure
    (λ d. (ok tt, record d { server = some (conf.grpc_listen, gw) }))
    close_gateway out

  unfoldable pub rpc_run : GatewayConfig → Result (Unit {0}) → Exec Daemon (Unit {0})
  unfolding rpc_init rpc_main
  rpc_run conf listening = rpc_init conf >>= λ gw. rpc_main conf listening gw

-- ===== src/Cmd/Rpc/Laws.antt =====
-- What the compute service runs with.
use computing_api.Base.{
  >>=-eq-ok, Bool, Result, ap, crash, false, if◌then◌else◌, ok, pure, some, sym, true, ◌>>◌, ◌∙◌,
  ◌≡◌,
}
use computing_api.Config.{GatewayConfig}
use computing_api.Cmd.Daemon.{Daemon, Gateway, Outside, closed_again, gateway_of, open_gateway}
use computing_api.Cmd.Daemon.Laws.{not_fatal, open_gateway_lem}
use computing_api.Cmd.Rpc.{rpc_endpoint, rpc_init, rpc_main, rpc_run}

module _ (out : Outside) (conf : GatewayConfig) where
  asked_for_version :
      (b : Bool) (gw : Gateway) (d d' : Daemon)
      → ((if b then crash "os.Exit(0)" else pure tt) >> open_gateway out conf rpc_endpoint false) d
        ≡ (ok gw, d')
      → open_gateway out conf rpc_endpoint false d ≡ (ok gw, d')
  asked_for_version true gw d d' h = absurd (cc)
  asked_for_version false gw d d' h = h

  -- A run of the compute service that ends with no error has served where the configuration says, on
  -- a gateway whose chain has the endpoint `ep` whatever the configuration, and has closed the
  -- database. It has set neither the addresses of the contracts nor a key.
  rpc_run_lem :
      (listening : Result (Unit {0})) (d d' : Daemon)
      → rpc_run out conf listening d ≡ (ok tt, d')
      → (d'.server ≡ some (conf.grpc_listen, gateway_of conf rpc_endpoint false))
        × (d'.database ≡ closed_again)
        × (d'.addresses ≡ d.addresses)
        × (d'.sk ≡ d.sk)
  unfolding rpc_run rpc_init rpc_main
  rpc_run_lem listening d d' h =
      let (gw, d1, started, h1) = >>=-eq-ok (rpc_init out conf) _ d h in
      let (same, with_db) =
        open_gateway_lem out conf rpc_endpoint false gw d d1
          (asked_for_version out.check_version gw d d1 started) in
      let at_end : d'
          ≡ record d1 { server = some (conf.grpc_listen, gw); database = closed_again } =
        λ i. (sym (not_fatal out listening "log.Fatalf: failed to listen" d1 d' _ h1) i).1 in
      (
        ap (λ (x : Daemon). x.server) at_end ∙ ap (λ g. some (conf.grpc_listen, g)) same,
        ap (λ (x : Daemon). x.database) at_end,
        ap (λ (x : Daemon). x.addresses) at_end ∙ ap (λ (x : Daemon). x.addresses) with_db,
        ap (λ (x : Daemon). x.sk) at_end ∙ ap (λ (x : Daemon). x.sk) with_db,
      )

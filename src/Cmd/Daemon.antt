-- ===== src/Cmd/Daemon.antt =====
-- computing/app/http/cmd/daemon.go: the start of the program, up to its listening and its end; and
-- `stop`.
pub mod Laws
use computing_api.Base.{
  Bool, Exec, List, Option, Result, Str, [], attempt, crash, if◌then◌else◌, lift, new, ok, pure,
  raise, some, str_eq, text, ◌>>=◌, ◌>>◌, ◌∷◌,
}
use computing_api.Keystore.Files.{Files}
use computing_api.Keystore.Store.{Codec, get, sk_of}
use computing_api.Base.Int.{ℤ}
use computing_api.Config.{GatewayConfig}
use computing_api.Prover.{GridProver, new_grid_prover}

-- The addresses of the contracts, as texts of a json file or as `common.HexToAddress` reads them.
pub record Contracts : Type 0 where
  pub market : Str
  pub access : Str
  pub credit : Str
  pub registry : Str

-- What the daemon calls: the endpoints that package eth names, what the `Load` of each of the three
-- types of package contracts gives, the addresses of keys, the check of the version, the opening of
-- the database, and how the server listens and is shut down.
pub record Outside : Type 0 where
  pub ganache : Str
  pub sepolia : Str
  pub dev_chain : Str
  pub load_local : Contracts
  pub load_sepo : Contracts
  pub load_dev : Contracts
  pub hex_to_address : Str → Str
  pub address_of_key : Str → Result Str
  pub check_version : Bool
  pub open_database : Str → Result (Unit {0})
  pub listen : Str → Result (Unit {0})
  pub shutdown : Result (Unit {0})

pub data Database : Type 0 where
  not_opened opened closed_again : Database

-- What the processes of a gateway have: the one for tests, or the one with the expiry of signatures;
-- and the remote one.
pub data LocalProcess : Type 0 where
  for_tests : LocalProcess
  with_expiry : ℤ → LocalProcess

pub record RemoteProcess : Type 0 where
  pub chain_endpoint : Str
  pub wallet : Str

pub record Gateway : Type 0 where
  pub local_process : LocalProcess
  pub remote_process : RemoteProcess

abbrev pub new_gateway_local_process : GatewayConfig → LocalProcess
new_gateway_local_process conf = with_expiry conf.sign_expire

abbrev pub new_gateway_remote_process : GatewayConfig → Str → RemoteProcess
new_gateway_remote_process conf ep = record { chain_endpoint = ep; wallet = conf.wallet }

-- The processes that `NewComputingGateway` puts together.
abbrev pub gateway_of : GatewayConfig → Str → Bool → Gateway
gateway_of conf ep test = record {
  local_process = if test then for_tests else new_gateway_local_process conf;
  remote_process = new_gateway_remote_process conf ep;
}

-- The globals that the start sets: those of common/common.go, the prover that runs beside the
-- server, the addresses in computing/gateway/remote, the database of the gateway, and where the server
-- listens, with the gateway behind it.
pub record Daemon : Type 0 where
  pub password : Str
  pub cp : Str
  pub sk : Str
  pub prover : Option GridProver
  pub addresses : Option Contracts
  pub database : Database
  pub server : Option (Str × Gateway)

module _ (out : Outside) where
  -- The addresses of loaded contracts, as every case of the `switch` saves them.
  unfoldable pub save_addresses : Contracts → Contracts
  save_addresses l = record {
    market = out.hex_to_address l.market;
    access = out.hex_to_address l.access;
    credit = out.hex_to_address l.credit;
    registry = out.hex_to_address l.registry;
  }

  -- A new prover, whose error ends the process, and which runs from here on.
  unfoldable pub start_prover : (chain validator_url sk : Str) → Exec Daemon (Unit {0})
  start_prover chain validator_url sk =
      attempt (lift (new_grid_prover out.address_of_key chain validator_url sk 1))
        (λ _. crash "log.Fatalf: new light node prover")
        (λ p d. (ok tt, record d { prover = some p }))

  -- A case of the `switch`: its endpoint, and the addresses of its contracts in the globals.
  abbrev pub selected : Str → Contracts → Exec Daemon Str
  selected chain_endpoint l d =
      (ok chain_endpoint, record d { addresses = some (save_addresses l) })

  -- The `switch` over the name of the chain: the endpoint.
  unfoldable pub select_chain : Str → Exec Daemon Str
  unfolding save_addresses text
  select_chain chain =
      if str_eq chain (text "local")
      then selected out.ganache out.load_local
      else if str_eq chain (text "sepo")
      then selected out.sepolia out.load_sepo
      else if str_eq chain (text "dev")
      then selected out.dev_chain out.load_dev
      else crash "log.Fatal: unsupport chain"

  -- `NewComputingGateway`, which panics where the database does not open.
  unfoldable pub open_gateway : GatewayConfig → Str → Bool → Exec Daemon Gateway
  open_gateway conf ep test =
      attempt (lift (out.open_database conf.db_path)) (λ _. crash "Fail to open up the database")
        (λ _ d. (ok (gateway_of conf ep test), record d { database = opened }))

  -- `gw.Close` by defer, whose error is thrown away.
  abbrev pub close_gateway : Exec Daemon (Unit {0})
  close_gateway d = (ok tt, record d { database = closed_again })

  -- The server listens until the signal to quit. Where it cannot listen or its shutdown fails, the
  -- process ends, with no deferred call.
  unfoldable pub serve_until_quit : Str → Gateway → Exec Daemon (Unit {0})
  serve_until_quit listen gw = do
    attempt (lift (out.listen listen)) (λ _. crash "log.Fatalf: fail to start serving") pure
    (λ d. (ok tt, record d { server = some (listen, gw) }))
    attempt (lift out.shutdown) (λ _. crash "log.Fatal: Server forced to shutdown")
        (λ _. close_gateway)

  -- `runCmd`: the files are those of the key store.
  unfoldable pub run_cmd :
      (fs : Files)
      → Codec
      → Str
      → fs.State
      → GatewayConfig
      → Bool
      → Str
      → Str
      → Exec Daemon (Unit {0})
  unfolding get sk_of start_prover select_chain open_gateway serve_until_quit
  run_cmd fs codec repo_path files conf test chain pw = do
    ki ← lift (get fs codec repo_path conf.wallet pw files)
    (λ d. (ok tt, record d { password = pw; cp = conf.wallet; sk = sk_of ki }))
    if out.check_version then crash "os.Exit(0)" else pure tt
    start_prover chain conf.validator_url (sk_of ki)
    chain_endpoint ← select_chain chain
    gw ← open_gateway conf chain_endpoint test
    serve_until_quit conf.http_listen gw

-- `kill` by the name of the operating system; `run` runs a command.
unfoldable pub kill : {W : Type 0} → (List Str → Exec W (Unit {0})) → Str → Str → Exec W (Unit {0})
unfolding text
kill run goos pid =
    if str_eq goos (text "linux")
    then run (text "kill" ∷ text "-15" ∷ pid ∷ [])
    else if str_eq goos (text "windows")
    then run (text "taskkill" ∷ text "/F" ∷ text "/T" ∷ text "/PID" ∷ pid ∷ [])
    else raise (new "unsupported platform")

-- `stopCmd`: a directory that does not expand ends it with no error, and a pid file that cannot be
-- read is an empty pid; at the end `signal` sends to the channel of this process.
unfoldable pub stop_cmd :
    {W : Type 0}
    → (List Str → Exec W (Unit {0}))
    → Str
    → Result Str
    → (Str → Result Str)
    → Exec W (Unit {0})
    → Exec W (Unit {0})
unfolding kill
stop_cmd run goos expanded read_pid signal =
    attempt (lift expanded) (λ _. pure tt)
      λ pidpath.
        attempt (lift (read_pid pidpath)) (λ _. kill run goos [] >> signal)
          (λ pd. kill run goos pd >> signal)

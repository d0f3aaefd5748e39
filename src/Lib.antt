-- ===== src/Lib.antt =====
-- A model of the computing gateway: a provider's node that authenticates wallets, deploys yaml
-- applications on a Kubernetes cluster, watches orders on a chain, and forwards requests to the
-- applications; and of the prover, which submits proofs in windows of time.
--
-- Parts and files (paths from the repository's root):
-- - Base, Std: shared types, and the routines of Go's strconv, strings, fmt, bufio, archive/tar,
--   encoding/base64 and encoding/hex that the program uses. A Go string is a list of bytes; an
--   error, a panic and a `log.Fatal` are values of `Result`; code that changes a state is an `Exec`,
--   and the state stays changed when it fails.
-- - Utils: lib/utils/utils.go. Auth: lib/auth/auth.go and hmac.go.
-- - Cookie: computing/server/httpserver/cookie.go (Cookie.Accept: what is accepted; Cookie.Issue:
--   what is made).
-- - Logging: lib/logc/logc.go and prover/logs/logs.go.
-- - Kv: lib/kv/badger.go over the record `Badger`; `BadgerLaws` states what is relied on, and
--   Kv.Memory meets it; Kv.Runs is the map that the database is to its callers.
-- - Chain: what computing/gateway/remote calls of the contracts; Remote: remote.go, each
--   transaction as opening the market, making the signer, sending, and waiting for the receipt.
-- - Kube: the cluster that computing/deploy calls; Yaml: computing/deploy/decyaml/decyaml.go;
--   Deploy: computing/deploy/deploy.go.
-- - Model, World, Gateway, Local, Local.Fake, Compose: computing/model/model.go and
--   computing/gateway. `World` is the state that a gateway works on (database, cluster, chain, the
--   map for tests, the clock); `GatewayApi` is interface.go; `computing_gateway` fills it from the
--   local and the remote process, and `new_computing_gateway` takes the one for tests where the
--   flag says so. Local.Users: the two maps, of leases and of entrances, that the database is.
-- - Http: computing/server/httpserver/handler.go, a function per handler from a request to a reply
--   over any gateway (Http.Deploying, Http.Orders, Http.Computing; Http.Answered, Http.Access and
--   Http.Deployed: what has happened where one answers; Http.Session: from the sign command to a
--   request with a cookie; Http.Forwarded: from a deployment to a request for it); Http.Server:
--   server.go, the routes to them, the headers for other origins, and the server.
--   Rpc: computing/server/rpcserver/server.go.
-- - Prover: prover/prover.go and prover/types/types.go, a round of the loop as one step;
--   Prover.Stopping: the loop in its goroutine and calls of `Stop`, as steps in any order;
--   Prover.Client: prover/client/client.go and prover/pow.go, and a round over the client's
--   requests.
-- - K8s: computing/docker/k8s_service.go and random.go (K8s.Setup: how the service is made;
--   K8s.Version: versions; K8s.Labels: labels of nodes; K8s.Objects: what is created; K8s.Queries:
--   what is read and deleted by label; K8s.Passed: the methods that are one call; K8s.Random: random
--   texts, those of lib/tool/random.go too). Docker: computing/docker/docker_service.go
--   (Docker.Dockerfile, Docker.Containers, Docker.Images; Docker.Build: the tar stream of a
--   directory).
-- - Keystore: keystore/ (Keystore.Passphrase: passphrase.go, the sealing of a key; Keystore.Store:
--   keystore.go, keyinfo.go and types.go; Keystore.Files: the file system below it, and names of
--   entries in a directory; Keystore.Vault: the map that the store is to its callers).
-- - Config: computing/config/config.go. ApiErrors: prover/logs/errors.go. Cmd: the commands in
--   computing/app/http/cmd (Cmd.Wallet: wallet.go; Cmd.Sign: sign.go; Cmd.Daemon: daemon.go, and how
--   the gateway is made and closed; Cmd.Version: version.go, common/version/version.go and the action
--   of computing/app/http/main.go); Cmd.Rpc: computing/app/rpc/main.go.
-- - Backend: user/backend/computing/process.go, the user's side of the rpc service
--   (Backend.Clients: its states; Backend.Service: it at work on the service of a gateway;
--   Backend.Programs: user/backend/chain/process.go and the programs user/backend/cmd/test.go,
--   user/backend/example/rpc/main.go and computing/example/rpc/main.go).
-- - Examples: small instances of the parameters, and the theorems at work on them.
--
-- How they interact: a handler finds the user in the cookies (Cookie, Auth), asks the gateway about
-- the order (Remote), deploys what Yaml read (Deploy through Local), and reads the entrance that
-- Local recorded in the database (Kv). The cookie handler and the rpc service authenticate by
-- `check_auth_info` of Local. The sign command prints what `check_auth_info` accepts; the wallet
-- commands keep keys in the store and the current wallet in the configuration; the daemon opens the
-- key of that wallet, starts the prover with it, and serves.
--
-- Parameters: cryptography and hex (`Crypto`), badger (`Badger`), the chain (`Chain`), client-go
-- (`Kube` as computing/deploy calls it, `ClientSet` as the service does), yaml and json decoding
-- (`Decoder`, `Codec`), net/http, net/url and files (`Site`, `Web`), the files of the key store
-- (`Files`), scrypt, AES and BLAKE3 (`Sealing`), toml (`Toml`), docker's command and API
-- (`Command`, `Engine`), the way to a cluster (`Platform`), gin's router (`Router`), gRPC (`Grpc`,
-- `Wire`), and what the daemon starts (`Outside`). The records whose names end in Laws say what is
-- relied on. Time is the clock of the world or an argument; it stands still within a call except
-- where the code sleeps. Random choices are arguments.
--
-- Bounds: an int64 is an integer with its wrap-around written out (`wrap64`); a uint64 is a number
-- below 2^64. `format_uint` runs for 20 rounds, which serve every number below 10^20. `wait_tries`
-- runs for the sixty tries of the code's own loop, and `push_tries` for its five. No other function
-- takes fuel. Texts that `Sscanf` and `TrimSpace` work on are ASCII.
--
-- Not modelled: how gin matches a path (`Router`); the search for a proof of work, which is GPU
-- code; a second call of `Start` on one prover, and how long its waits are beside a call of `Stop`;
-- `CoreService` of the user's side, which only holds the processors; the printing of entries by zap,
-- the parsing of flags and the dispatch to commands by the cli library; generated code, and the
-- program in computing/deploy/decyaml/test. A tree of files stands still while it is walked. Of the
-- error texts that docker sends only their being there is kept. Proxying itself is net/http's: a
-- forwarded request is a reply that names the target.
pub mod Base
pub mod Std
pub mod Utils
pub mod Auth
pub mod Cookie
pub mod Kv
pub mod Chain
pub mod Remote
pub mod Prover
pub mod Kube
pub mod K8s
pub mod Docker
pub mod Backend
pub mod Yaml
pub mod Deploy
pub mod Model
pub mod World
pub mod Gateway
pub mod Local
pub mod Compose
pub mod Http
pub mod Rpc
pub mod ApiErrors
pub mod Logging
pub mod Keystore
pub mod Config
pub mod Cmd
pub mod Examples

-- ===== src/Backend/Programs.antt =====
-- user/backend/chain/process.go, the list of nodes, and three programs that try the compute service:
-- user/backend/cmd/test.go, user/backend/example/rpc/main.go and computing/example/rpc/main.go.
pub mod Refused
use computing_api.Base.{
  Bool, Exec, List, Result, Str, [], attempt, crash, if◌then◌else◌, ignore, lift, ok, pure, text, ℕ,
  ◌>>=◌, ◌>>◌, ◌^◌, ◌∷◌,
}
use computing_api.Base.Int.{pos, ℤ}
use computing_api.Backend.{Grpc, Session, close_client, greet, minute, new_client, process}

pub record ChainProcessor : Type 0 where
  pub current_list : List Str

abbrev pub new_chain_processor : ChainProcessor
new_chain_processor = record { current_list = [] }

-- The list of the nodes, which is a constant.
unfoldable pub fetch_list : Exec ChainProcessor (Unit {0})
unfolding text
fetch_list cp = (ok tt, record cp { current_list = text "localhost:12345" ∷ [] })

-- `CreateLease`, `ShowLease` and `StopLease` do nothing.
abbrev pub create_lease : Exec ChainProcessor (Unit {0})
create_lease = pure tt

abbrev pub show_lease : Exec ChainProcessor (Unit {0})
show_lease = pure tt

abbrev pub stop_lease : Exec ChainProcessor (Unit {0})
stop_lease = pure tt

-- A call whose error ends the process.
abbrev pub or_fatal : {W A : Type 0} → Exec W A → Exec W A
or_fatal m = attempt m (λ _. crash "log.Fatal") pure

abbrev pub fake_addr : Str
unfolding text
fake_addr = text "0xd46e8dd67c5d32be8058bb8eb970870f07244567"

abbrev pub yaml_url : Str
unfolding text
yaml_url = text "https://k8s.io/examples/service/load-balancer-example.yaml"

-- The requests that the programs write and the responses that they read.
pub record Wire : Type 0 where
  pub request : Result Str
  pub read_response : Str → Result (Unit {0})

-- `time.Second`
abbrev second : ℤ
second = pos (10 ^ 9)

abbrev first_of : {W : Type 0} → List Str → Exec W Str
first_of [] = crash "log.Fatal: no available node"
first_of (url ∷ urls) = pure url

module _ (grpc : Grpc) (wire : Wire) where
  unfoldable pub try_service : Exec (Session grpc) (Unit {0})
  unfolding text
  try_service = do
    or_fatal (greet grpc (pos 0) fake_addr [])
    or_fatal (greet grpc (pos 1) fake_addr [])
    or_fatal (greet grpc (pos 2) fake_addr [])
    or_fatal (greet grpc (pos 3) (text "baidu.com") ((text "address", fake_addr) ∷ []))
    http_req ← or_fatal (lift wire.request)
    response ← or_fatal (process grpc fake_addr [] http_req)
    or_fatal (lift (wire.read_response response))

  -- `quickTest`, which closes its client by defer; no deferred call is made where the process ends.
  unfoldable pub quick_test : Exec (Session grpc) (Unit {0})
  unfolding fetch_list try_service
  quick_test = do
    let (fetched, chain) = fetch_list new_chain_processor
    or_fatal (lift fetched)
    url ← first_of chain.current_list
    or_fatal (new_client grpc url)
    try_service
    ignore (close_client grpc)

  -- The calls of the example on its connection, with the timeout of its one context.
  unfoldable pub try_connection : ℕ → Exec grpc.State (Unit {0})
  unfolding text
  try_connection c = do
    or_fatal (grpc.greet c minute fake_addr (pos 0) [])
    or_fatal (grpc.greet c minute fake_addr (pos 1) [])
    or_fatal (grpc.greet c minute fake_addr (pos 2) [])
    or_fatal (grpc.greet c minute yaml_url (pos 3) ((text "address", fake_addr) ∷ []))
    http_req ← or_fatal (lift wire.request)
    response ← or_fatal (grpc.process c minute fake_addr [] http_req)
    or_fatal (lift (wire.read_response response))

  -- `main` of the example; `version_asked` is what `CheckVersion` returns.
  unfoldable pub example_main : Str → Bool → Exec grpc.State (Unit {0})
  unfolding try_connection
  example_main addr version_asked =
      if version_asked
      then pure tt
      else (or_fatal (grpc.dial addr) >>= λ c. try_connection c >> ignore (grpc.close c))

  -- `main` of computing/example/rpc, whose context ends after a second.
  unfoldable computing_example_main : Str → Exec grpc.State (Unit {0})
  unfolding text
  computing_example_main addr = do
    c ← or_fatal (grpc.dial addr)
    or_fatal (grpc.greet c second (text "test1") (pos 1) [])
    or_fatal (grpc.process c second [] (text "no") [])
    ignore (grpc.close c)

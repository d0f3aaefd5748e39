-- ===== src/Examples.antt =====
-- Small instances of what the development takes as parameters, and runs of the theorems on them.
mod Sessions
mod Orders
mod Proving
mod Storage
mod Serving
mod Deploying
mod Memory
mod Sealed
mod Keys
mod Services
mod Calls
mod Entering
use computing_api.Base.{
  Bool, List, Result, Str, [], arith, drop, err, false, foreign, if◌then◌else◌, length, none, ok,
  some, str_eq, suc, text, true, zero, ℕ, ◌%◌, ◌∷◌,
}
use computing_api.Auth.{Crypto}
use computing_api.Cookie.{CookieManager, make_cookie}
use computing_api.Kv.Memory.{memory}
use computing_api.Chain.{Chain, Order}
use computing_api.Kube.{Condition, Deployment, Kube}
use computing_api.Yaml.{Decoder, deployment_kind}
use computing_api.World.{World}
use computing_api.Gateway.{GatewayApi}
use computing_api.Compose.{Settings, computing_gateway}
use computing_api.Http.{Request, Site, msg}
use computing_api.Base.Int.{pos}

-- A signature of one byte has a key; others have none.
abbrev pub recover : Str → Result Str
recover (v ∷ []) = ok (1 ∷ 2 ∷ [])
recover _ = err (foreign "invalid signature length")

-- The MAC here is the lengths of text and key, and a hex text decodes to what follows its "0x".
abbrev pub toy : Crypto
toy = record {
  hmac_sha256 = λ key msg. (length msg % 256) ∷ (length key % 256) ∷ [];
  keccak256 = λ msg. msg;
  sig_to_pub = λ digest sig. recover sig;
  pubkey_to_address = λ key. key;
  hex_decode = λ s. ok (drop 2 s);
  hex_to_ecdsa = λ sk. ok sk;
  crypto_sign = λ digest key. ok digest;
  ecrecover = λ digest sig. ok sig;
  public_key = λ key. key;
  hmac_sha256-IsBytes = λ key msg. (omega arith, (omega arith, tt));
}

abbrev pub cookies : CookieManager
cookies = record { sign_key = 1 ∷ []; expire = pos 100 }

abbrev pub active_order : Order
active_order = record {
  provider = [];
  node_id = 7;
  app_name = b'a' ∷ [];
  status = 2;
  activate_time = pos 1000;
  probation = pos 10;
  duration = pos 500;
}

-- A chain that counts its transactions.
abbrev pub ledger : Chain
ledger = record {
  State = ℕ;
  Signer = Str;
  Tx = ℕ;
  new_market = λ s. ok tt;
  new_registry = λ s. ok tt;
  order_of = λ id s. ok active_order;
  node_of = λ provider id s. err (foreign "no such node");
  make_auth = λ sk s. ok sk;
  send_set_app = λ signer id app s. (ok s, suc s);
  send_extend = λ signer id dur s. (ok s, suc s);
  send_reset = λ signer id prob dur s. (ok s, suc s);
  send_settle = λ signer id s. (ok s, suc s);
  check_tx = λ tx s. (ok tt, s);
  gas_used = λ tx s. some 21000;
}

-- A cluster whose deployments are available from its second second on.
pub record Cluster : Type 0 where
  pub time : ℕ
  pub running : Str → Bool
  pub serving : Str → Bool

abbrev pub condition_at : ℕ → Condition
condition_at zero = record { type = text "Available"; status = text "False" }
condition_at (suc zero) = record { type = text "Available"; status = text "False" }
condition_at (suc (suc t)) = record { type = text "Available"; status = text "True" }

abbrev pub conditions_at : Bool → ℕ → Result (List Condition)
conditions_at true t = ok (condition_at t ∷ [])
conditions_at false t = err (foreign "not found")

abbrev pub set_at : Str → Bool → (Str → Bool) → Str → Bool
set_at name v f n = if str_eq name n then v else f n

abbrev pub small : Kube
small = record {
  State = Cluster;
  service_name = λ name s. if s.serving name then name else [];
  create_deployment = λ dep s. (ok tt, record s { running = set_at dep.name true s.running });
  create_service = λ svc s. (ok tt, record s { serving = set_at svc.name true s.serving });
  create_node_port = λ spec s. (
    ok (record { name = spec.name; external_ips = []; node_ports = 30080 ∷ [] }),
    record s { serving = set_at spec.name true s.serving },
  );
  conditions_of = λ name s. conditions_at (s.running name) s.time;
  delete_deployment = λ name s. (ok tt, record s { running = set_at name false s.running });
  delete_service = λ name s. (ok tt, record s { serving = set_at name false s.serving });
  sleep = λ s. record s { time = suc s.time };
  to_lower = λ s. s;
}

-- Each document is a deployment of its own text as its name.
abbrev pub named_deployment : Str → Deployment
named_deployment name = record {
  name = name;
  kind = deployment_kind;
  containers = record { image = []; ports = 80 ∷ [] } ∷ [];
  node_selector = some [];
}

abbrev pub plain_documents : Decoder
plain_documents = record {
  Json = Str;
  to_json = λ s. ok s;
  kind_of = λ j. some deployment_kind;
  deployment_of = λ j. ok (named_deployment j);
  service_of = λ j. err (foreign "no service");
}

abbrev pub settings : Settings
settings = record {
  sign_expire = pos 300;
  sk = [];
  wallet_sk = ok [];
  encode_lease = λ lease. ok (text "{}");
}

abbrev pub Here : Type 0
Here = World memory small ledger

abbrev pub gateway : GatewayApi Here
unfolding computing_gateway
gateway = computing_gateway toy memory small ledger settings

abbrev pub user : Str
user = b'u' ∷ []

-- A cookie header is a user here, and stands for the cookie that was made for it at second 1000. A
-- page is its own URL.
abbrev pub site : Site memory small ledger
site = record {
  crypto = toy;
  manager = cookies;
  read_cookies = λ line. make_cookie toy cookies (pos 1000) line ∷ [];
  parse_url = λ s. ok (record { scheme = []; host = s });
  decoder = plain_documents;
  unmarshal_models = λ s. ok [];
  unmarshal_listed = λ s. ok [];
  read_file = λ p w. ok p;
  page = λ url w. record { url_path = ok url; content_length = ok (pos 10); body = ok url };
}

-- At second 1050 the user "u" has an entrance, and a service of the name that its application has.
abbrev pub start : Here
start = record {
  db = λ j. if str_eq (b'e' ∷ user) j then some (b'h' ∷ []) else none;
  cluster = record { time = 0; running = λ n. true; serving = λ n. true };
  chain = 0;
  fake_db = some (λ j. none);
  clock = pos 1050;
}

abbrev pub request : Request
request = record {
  user = user;
  ts = text "1000";
  sig = text "0x1";
  url = text "a.yaml";
  oid = text "1";
  id = text "1";
  sk = [];
  dur = text "60";
  prob = text "x";
  authorization = [];
  cookie_headers = user ∷ [];
}

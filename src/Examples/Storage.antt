-- ===== src/Examples/Storage.antt =====
-- Records, yaml pages and the cluster.
use computing_api.Base.{
  Bool, Bool-cases, List, Str, [], arith, false, foreign, inl, inr, none, ok, refl, str_eq,
  str_eq_iff, suc, sym, text, true, zero, ℕ, ◌<◌, ◌∷◌, ◌≡◌, ◌≢◌,
}
use computing_api.Base.Int.{pos}
use computing_api.Kv.{delete, delete_all, has, multi_delete, multi_put, put, put_all, update}
use computing_api.Kv.Memory.{Table, memory, memory_laws}
use computing_api.Kube.{Condition}
use computing_api.Deploy.{
  container_port, create_deployments, create_node_port_svc, create_services, deploy, deploy_renamed,
  is_available, node_port_of, rename, wait_all, wait_ready, wait_tries,
}
use computing_api.Deploy.Ready.{after, wait_ready_iff}
use computing_api.Deploy.Cleaning.{DeletionLaws}
use computing_api.Yaml.{Page}
use computing_api.Local.{authorize, deploy_app, terminate}
use computing_api.Kv.Runs.{
  Runs-replay, Write, deletes, failing, multi_puts, perform, replay, succeeded, unchanged, updates,
}
use computing_api.Local.Users.{
  AllDo, Call, authorizes, call, calls_of, calls_of-AllDo, deploys, terminates, users_of,
}
use computing_api.Rpc.{empty_lease}
use computing_api.Examples.{
  Here, condition_at, ledger, named_deployment, settings, small, start, user,
}

abbrev entrance : Str
entrance = b'e' ∷ user

-- A cluster with nothing on it that has been up for two seconds.
abbrev fresh : Here
fresh = record start { cluster = record { time = 2; running = λ n. false; serving = λ n. false } }

-- A lease is ended, a new one begins, and an application is deployed.
abbrev user_calls : List Call
user_calls =
    terminates user
    ∷ authorizes user empty_lease
    ∷ deploys (named_deployment user ∷ []) [] user
    ∷ []

abbrev served_user : Here
unfolding calls_of call terminate multi_delete delete_all authorize has put deploy_app deploy rename
    deploy_renamed create_deployments create_services create_node_port_svc container_port
    node_port_of wait_all wait_ready wait_tries is_available text
served_user = (calls_of memory small ledger settings.encode_lease user_calls fresh).1

calls_of-AllDo_example :
    AllDo memory small ledger settings.encode_lease user_calls
      (users_of memory small ledger settings.encode_lease memory_laws fresh)
      (users_of memory small ledger settings.encode_lease memory_laws served_user)
unfolding calls_of call terminate multi_delete delete_all authorize has put deploy_app deploy rename
    deploy_renamed create_deployments create_services create_node_port_svc container_port
    node_port_of wait_all wait_ready wait_tries is_available text
calls_of-AllDo_example =
    calls_of-AllDo memory small ledger settings.encode_lease memory_laws user_calls fresh
      served_user refl

-- Two keys are put, one that is not there cannot be updated, and one is deleted.
abbrev map_calls : List (Write × Bool)
map_calls =
    (multi_puts ((1 ∷ []) ∷ (2 ∷ []) ∷ []) ((7 ∷ []) ∷ (8 ∷ []) ∷ []), true)
    ∷ (updates (3 ∷ []) ok, false)
    ∷ (deletes (1 ∷ []), true)
    ∷ []

abbrev two_keys : Table
unfolding multi_put put_all
two_keys = (multi_put memory ((1 ∷ []) ∷ (2 ∷ []) ∷ []) ((7 ∷ []) ∷ (8 ∷ []) ∷ []) (λ j. none)).1

abbrev one_key : Table
unfolding delete multi_put put_all
one_key = (delete memory (1 ∷ []) two_keys).1

Runs-replay_example : one_key ≡ replay map_calls (λ j. none)
unfolding perform multi_put put_all update delete
Runs-replay_example =
    Runs-replay memory memory_laws map_calls (λ j. none) one_key
      (succeeded refl (failing (foreign "Key not found") refl (succeeded refl unchanged)))

seen_waiting :
    (m : ℕ)
    → m < 2
    → (cs : List Condition) × (small.conditions_of user (after small m start.cluster) ≡ ok cs)
      × (is_available cs ≡ false)
unfolding is_available text
seen_waiting zero h = (condition_at 0 ∷ [], refl, refl)
seen_waiting (suc zero) h = (condition_at 1 ∷ [], refl, refl)
seen_waiting (suc (suc m)) h = absurd (omega arith)

wait_ready_iff_example : (wait_ready small (named_deployment user) start.cluster).0 ≡ ok true
unfolding is_available text
wait_ready_iff_example = (wait_ready_iff small (named_deployment user) start.cluster).1 (
  2,
  omega arith,
  record {
    conditions = condition_at 2 ∷ [];
    seen = refl;
    available = refl;
    waited = λ m h. seen_waiting m h;
  },
)

str_eq_ne : (a b : Str) → b ≢ a → str_eq a b ≡ false
str_eq_ne a b n = elim (Bool-cases (str_eq a b)) [
  | inl same ↦ absurd (n (sym ((str_eq_iff a b).0 same)))
  | inr apart ↦ apart
]

small_deletions : DeletionLaws small
small_deletions = record {
  other_law = λ name other_name s n. rw (str_eq_ne name other_name n) refl;
  service_law = λ name other_name s. refl;
}

abbrev page : Page
page = record { url_path = ok (text "/a.yml"); content_length = ok (pos 1048576); body = ok user }

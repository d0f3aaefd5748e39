-- ===== src/K8s/Client.antt =====
-- What computing/docker/k8s_service.go calls of client-go, and the objects that pass between them,
-- with the fields that the service reads or writes.
use computing_api.Base.{
  Exec, List, Option, Result, Str, [], if◌then◌else◌, none, ok, some, str_eq, ◌∷◌, ◌≡◌,
}
use computing_api.Base.Int.{ℤ}

-- A map of Go from texts to texts, its newest entry first.
abbrev pub Labels : Type 0
Labels = List (Str × Str)

unfoldable pub label_of : Str → Labels → Option Str
label_of key [] = none
label_of key ((k, v) ∷ labels) =
    let rest = label_of key labels in if str_eq k key then some v else rest

pub record ServicePort : Type 0 where
  pub name : Str
  pub port : ℤ
  -- `TargetPort`, which is the port itself where it is not set
  pub target_port : Option ℤ

pub record Service : Type 0 where
  pub kind : Str
  pub api_version : Str
  pub name : Str
  pub namespace : Str
  pub type : Str
  pub ports : List ServicePort
  pub selector : Labels

-- An ingress with one rule of one path.
pub record Ingress : Type 0 where
  pub name : Str
  pub annotations : Labels
  pub class_name : Str
  pub host : Str
  pub path : Str
  pub path_type : Str
  pub service_name : Str
  pub service_port : ℤ

pub record ConfigMap : Type 0 where
  pub name : Str
  pub entries : Labels

-- A policy with one rule, which lets in what comes from the namespaces with these labels.
pub record NetworkPolicy : Type 0 where
  pub name : Str
  pub namespace : Str
  pub policy_types : List Str
  pub from_namespaces : Labels

pub record Pod : Type 0 where
  pub name : Str
  pub node_name : Str
  pub status_images : List Str

pub record Container : Type 0 where
  pub image : Str

-- A deployment, with the containers of its template.
pub record Deployment : Type 0 where
  pub name : Str
  pub containers : List Container

pub record Namespace : Type 0 where
  pub name : Str

-- The labels of a node are a map that may be nil (`none`).
pub record Node : Type 0 where
  pub name : Str
  pub labels : Option Labels

-- The calls of the client set; the first text of a call is its namespace, and a label selector is
-- the text that it is given as.
pub record ClientSet : Type 1 where
  pub State : Type 0
  pub create_service : Str → Service → Exec State Service
  pub create_ingress : Str → Ingress → Exec State Ingress
  pub create_config_map : Str → ConfigMap → Exec State ConfigMap
  pub create_network_policy : Str → NetworkPolicy → Exec State NetworkPolicy
  pub create_deployment : Str → Deployment → Exec State Deployment
  pub delete_deployment : Str → Str → Exec State (Unit {0})
  pub get_service : Str → Str → State → Result Service
  pub delete_service : Str → Str → Exec State (Unit {0})
  pub delete_ingress : Str → Str → Exec State (Unit {0})
  pub create_namespace : Namespace → Exec State Namespace
  pub get_namespace : Str → State → Result Namespace
  pub delete_namespace : Str → Exec State (Unit {0})
  pub delete_pods : Str → Str → Exec State (Unit {0})
  pub delete_replica_sets : Str → Str → Exec State (Unit {0})
  pub get_deployment : Str → Str → State → Result Deployment
  pub list_pods : Str → Str → State → Result (List Pod)
  pub list_namespaces : State → Result (List Namespace)
  -- `GetLogs` of a pod with the options of one tail line, and `Stream`; then `io.Copy` of what it gives.
  pub stream_log : Str → Str → State → Result Str
  pub read_all : Str → Result Str
  pub get_node : Str → State → Result Node
  pub update_node : Node → Exec State (Unit {0})
  -- `retry.RetryOnConflict` with its default steps
  pub retry_on_conflict : Exec State (Unit {0}) → Exec State (Unit {0})

-- What the service relies on: a node that is updated is the one that is got, and a retried call that
-- ends well has ended well in its last attempt.
pub record NodeLaws (k : ClientSet) : Type 0 where
  pub name_law : (name : Str) (n : Node) (s : k.State) → k.get_node name s ≡ ok n → n.name ≡ name
  pub update_law :
      (n : Node) (s s' : k.State) → k.update_node n s ≡ (ok tt, s') → k.get_node n.name s' ≡ ok n
  pub retry_law :
      (call : Exec k.State (Unit {0})) (s s' : k.State)
      → k.retry_on_conflict call s ≡ (ok tt, s')
      → (s1 : k.State) × (call s1 ≡ (ok tt, s'))

-- ===== src/Kube.antt =====
-- The Kubernetes cluster as computing/deploy and computing/docker/k8s_service.go call it through
-- client-go, which is not part of the repository; all calls are in the namespace "default". Of the
-- objects the records hold the fields that the program reads or writes.
use computing_api.Base.{Exec, List, Option, Result, Str, ℕ}

pub record Container : Type 0 where
  pub image : Str
  pub ports : List ℕ

-- A pod's node selector is a map that may be nil (`none`).
pub record Deployment : Type 0 where
  pub name : Str
  pub kind : Str
  pub containers : List Container
  pub node_selector : Option (List (Str × Str))

pub record Service : Type 0 where
  pub name : Str
  pub kind : Str

-- What `CreateNodePortService` asks for, and what it returns.
pub record NodePortSpec : Type 0 where
  pub name : Str
  pub port : ℕ
  pub target_port : ℕ

pub record NodePortService : Type 0 where
  pub name : Str
  pub external_ips : List Str
  pub node_ports : List ℕ

pub record Condition : Type 0 where
  pub type : Str
  pub status : Str

pub record Kube : Type 1 where
  pub State : Type 0
  -- The name in the service that a `Get` returns: empty beside an error.
  pub service_name : Str → State → Str
  pub create_deployment : Deployment → Exec State (Unit {0})
  pub create_service : Service → Exec State (Unit {0})
  pub create_node_port : NodePortSpec → Exec State NodePortService
  pub conditions_of : Str → State → Result (List Condition)
  pub delete_deployment : Str → Exec State (Unit {0})
  pub delete_service : Str → Exec State (Unit {0})
  -- One second passes.
  pub sleep : State → State
  -- `strings.ToLower`, on any text.
  pub to_lower : Str → Str

-- ===== src/Deploy.antt =====
-- computing/deploy/deploy.go: deploying applications on the cluster, waiting for them, and cleaning.
pub mod Ready
pub mod Cleaning
use computing_api.Base.{
  Bool, Exec, List, Result, Str, String, [], branch, err, false, if◌then◌else◌, ignore, lift, new,
  ok, panic, pure, raise, str_eq, suc, text, true, wrap, zero, ℕ, ◌&&◌, ◌++◌, ◌>>=◌, ◌>>◌, ◌∷◌,
}
use computing_api.Kube.{Condition, Container, Deployment, Kube, NodePortService, Service}

pub record EndPoint : Type 0 where
  pub ips : List Str
  pub node_port : ℕ

abbrev pub svc_prefix : Str
svc_prefix = b's' ∷ b'v' ∷ b'c' ∷ b'-' ∷ []

-- The names that `Deploy` gives to the deployments that its argument points to, before it does
-- anything else that can fail.
unfoldable pub rename : Str → List Deployment → List Deployment
rename lower [] = []
rename lower (dep ∷ deps) = record dep { name = dep.name ++ b'-' ∷ lower } ∷ rename lower deps

unfoldable pub is_available : List Condition → Bool
is_available [] = false
is_available (c ∷ conditions) =
    if str_eq c.type (text "Available") && str_eq c.status (text "True")
    then true
    else is_available conditions

abbrev crash_index : String
crash_index = "index out of range [0] with length 0"

module _ (k : Kube) where
  -- The loop of `WaitReady` with the tries that are left.
  unfoldable pub wait_tries : ℕ → Str → Exec k.State Bool
  wait_tries zero name s = (ok false, s)
  wait_tries (suc tries) name s =
      let again = wait_tries tries name (k.sleep s) in
      branch (k.conditions_of name s)
        (λ e. raise (wrap "failed to get latest version of deployment" e))
        (λ conditions s'. if is_available conditions then (ok true, s') else again) s

  unfoldable pub wait_ready : Deployment → Exec k.State Bool
  unfolding wait_tries is_available
  wait_ready d = wait_tries 60 d.name

  -- The port of the first container; with no container or no port the index is out of range.
  unfoldable pub container_port : List Container → Result ℕ
  container_port [] = panic crash_index
  container_port (c ∷ containers) = elim c.ports [ [] ↦ panic crash_index | port ∷ ports ↦ ok port ]

  unfoldable pub create_node_port_svc : Deployment → Exec k.State NodePortService
  unfolding container_port
  create_node_port_svc d = do
    port ← lift (container_port d.containers)
    k.create_node_port (record { name = svc_prefix ++ d.name; port = port; target_port = port })

  unfoldable pub create_deployments : List Deployment → Exec k.State (Unit {0})
  create_deployments [] = pure tt
  create_deployments (dep ∷ deps) = k.create_deployment dep >> create_deployments deps

  -- The errors of these calls are thrown away.
  unfoldable pub create_services : List Service → Exec k.State (Unit {0})
  create_services [] = pure tt
  create_services (svc ∷ svcs) = ignore (k.create_service svc) >> create_services svcs

  -- Waits for each deployment in turn, up to the first that is not ready.
  unfoldable pub wait_all : List Deployment → Exec k.State Bool
  unfolding wait_ready
  wait_all [] = pure true
  wait_all (d ∷ deps) =
      wait_ready d >>= λ is_ready. elim is_ready [ true ↦ wait_all deps | false ↦ pure false ]

  unfoldable pub node_port_of : NodePortService → Result ℕ
  node_port_of svc = elim svc.node_ports [ [] ↦ panic crash_index | port ∷ ports ↦ ok port ]

  abbrev finish : NodePortService → ℕ → Bool → Exec k.State EndPoint
  finish svc port true = pure (record { ips = svc.external_ips; node_port = port })
  finish svc port false = raise (new "deployment is failed to be ready after retrys")

  -- `Deploy` on deployments that have their new names; the first one is `dep`.
  unfoldable pub deploy_renamed :
      Deployment → List Deployment → List Service → Exec k.State EndPoint
  unfolding create_deployments create_services create_node_port_svc wait_all node_port_of
  deploy_renamed dep deps svcs s =
      let svc_name = svc_prefix ++ dep.name in
      if str_eq (k.service_name svc_name s) svc_name
      then (err (new "svc exists, deploy cancelled"), s)
      else (do
        create_deployments (dep ∷ deps)
        create_services svcs
        np_svc ← create_node_port_svc dep
        port ← lift (node_port_of np_svc)
        all_ready ← wait_all (dep ∷ deps)
        finish np_svc port all_ready)
          s

  unfoldable pub deploy : List Deployment → List Service → Str → Exec k.State EndPoint
  unfolding rename deploy_renamed
  deploy [] svcs user = raise (new "no deployment passed in")
  deploy (dep ∷ deps) svcs user =
      let lower = k.to_lower user in
      deploy_renamed (record dep { name = dep.name ++ b'-' ∷ lower }) (rename lower deps) svcs

  unfoldable pub del_deploy : Str → Exec k.State (Unit {0})
  del_deploy dep_name = k.delete_deployment dep_name >> k.delete_service (svc_prefix ++ dep_name)

  -- The loop returns in its first round.
  unfoldable pub clean : List Deployment → Exec k.State (Unit {0})
  unfolding del_deploy
  clean [] = pure tt
  clean (dep ∷ deps) = del_deploy dep.name

-- ===== src/K8s/Queries.antt =====
-- computing/docker/k8s_service.go: what the service reads from the cluster, and what it deletes by label.
pub mod Laws
use computing_api.Base.{
  Bool, Exec, List, Result, Str, [], bind, if◌then◌else◌, length, ltb, not, ok, str_eq, text, ◌++◌,
  ◌∷◌,
}
use computing_api.K8s.Client.{ClientSet, Container, Labels, Namespace, Pod}

-- `fmt.Sprintf("lad_app=%s", spaceName)`
unfoldable pub lad_app : Str → Str
unfolding text
lad_app space_name = text "lad_app=" ++ space_name

-- The loop of `ListUsedImage` over the pods and the statuses of their containers.
unfoldable pub used_images : List Pod → List Str
used_images [] = []
used_images (item ∷ items) = item.status_images ++ used_images items

-- The loops of `GetDeploymentImages` and `ListNamespace`.
unfoldable pub images_of : List Container → List Str
images_of [] = []
images_of (container ∷ containers) = container.image ∷ images_of containers

unfoldable pub names_of : List Namespace → List Str
names_of [] = []
names_of (item ∷ items) = item.name ∷ names_of items

-- A map from node names to logs: the entry of a key is the newest.
unfoldable pub set_log : Str → Str → Labels → Labels
set_log node log [] = (node, log) ∷ []
set_log node log ((n, l) ∷ logs) =
    let rest = set_log node log logs in if str_eq n node then (n, log) ∷ logs else (n, l) ∷ rest

module _ (k : ClientSet) where
  unfoldable pub delete_pod : Str → Str → Exec k.State (Unit {0})
  unfolding lad_app
  delete_pod namespace space_name = k.delete_pods namespace (lad_app space_name)

  unfoldable pub delete_deploy_rs : Str → Str → Exec k.State (Unit {0})
  unfolding lad_app
  delete_deploy_rs namespace space_name = k.delete_replica_sets namespace (lad_app space_name)

  unfoldable pub get_deployment_images : Str → Str → k.State → Result (List Str)
  unfolding images_of
  get_deployment_images namespace deployment_name s =
      bind (k.get_deployment namespace deployment_name s)
        λ deployment. ok (images_of deployment.containers)

  -- Whether a pod of the space runs; with no space name, whether any pod runs.
  unfoldable pub get_pods : Str → Str → k.State → Result Bool
  unfolding lad_app
  get_pods namespace space_name s =
      bind (k.list_pods namespace (if not (str_eq space_name []) then lad_app space_name else []) s)
        λ pods. ok (ltb 0 (length pods))

  unfoldable pub list_used_image : Str → k.State → Result (List Str)
  unfolding used_images
  list_used_image name_space s = bind (k.list_pods name_space [] s) λ l. ok (used_images l)

  unfoldable pub list_namespace : k.State → Result (List Str)
  unfolding names_of
  list_namespace s = bind (k.list_namespaces s) λ l. ok (names_of l)

  unfoldable pub read_log : Str → Str → k.State → Result Str
  read_log namespace pod s = bind (k.stream_log namespace pod s) k.read_all

  -- The loop of `GetPodLog`: the first log that cannot be read ends it.
  unfoldable pub pod_logs : List Pod → Labels → k.State → Result Labels
  unfolding read_log set_log text
  pod_logs [] result s = ok result
  pod_logs (pod ∷ pods) result s =
      bind (read_log (text "kube-system") pod.name s)
        λ buf. pod_logs pods (set_log pod.node_name buf result) s

  unfoldable pub get_pod_log : k.State → Result Labels
  unfolding pod_logs text
  get_pod_log s =
      bind (k.list_pods (text "kube-system") (text "app=resource-exporter") s)
        λ pods. pod_logs pods [] s

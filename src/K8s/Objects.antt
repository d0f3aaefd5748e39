-- ===== src/K8s/Objects.antt =====
-- computing/docker/k8s_service.go: the objects that the service creates.
pub mod Laws
use computing_api.Base.{
  Exec, Option, Result, Str, [], if◌then◌else◌, length, lift, none, pure, some, take, text, ℕ, ◌++◌,
  ◌-◌, ◌==◌, ◌>>=◌, ◌>>◌, ◌∷◌,
}
use computing_api.Base.Int.{ℤ}
use computing_api.K8s.Random.{generate_string}
use computing_api.K8s.Client.{ClientSet, ConfigMap, Ingress, NetworkPolicy, Service}

abbrev pub service_prefix : Str
service_prefix = b's' ∷ b'v' ∷ b'c' ∷ b'-' ∷ []

abbrev pub ingress_prefix : Str
ingress_prefix = b'i' ∷ b'n' ∷ b'g' ∷ b'-' ∷ []

-- The loop of `filepath.Ext`: the text from the last dot behind the last slash.
unfoldable pub ext_behind : Option Str → Str → Option Str
ext_behind found [] = found
ext_behind found (c ∷ s) =
    if c == b'/'
    then ext_behind none s
    else if c == b'.'
    then ext_behind (some (c ∷ s)) s
    else ext_behind found s

unfoldable pub ext : Str → Str
unfolding ext_behind
ext path = elim (ext_behind none path) [ none ↦ [] | some e ↦ e ]

-- The service that `CreateNodePortService` asks for; its selector does not depend on the application.
unfoldable pub node_port_object : Str → Str → ℤ → ℤ → Service
unfolding text
node_port_object name_space app_name port container_port = record {
  kind = text "Service";
  api_version = text "v1";
  name = service_prefix ++ app_name;
  namespace = name_space;
  type = text "NodePort";
  ports = record { name = text "http"; port = port; target_port = some container_port } ∷ [];
  selector = (text "app.kubernetes.io/name", text "load-balancer-example") ∷ [];
}

module _ (k : ClientSet) where
  unfoldable pub create_service : Str → Str → ℤ → Exec k.State Service
  unfolding text
  create_service name_space space_name container_port = k.create_service name_space (record {
    kind = text "Service";
    api_version = text "v1";
    name = service_prefix ++ space_name;
    namespace = name_space;
    type = [];
    ports = record { name = text "http"; port = container_port; target_port = none } ∷ [];
    selector = (text "app", space_name) ∷ [];
  })

  unfoldable pub create_node_port_service : Str → Str → ℤ → ℤ → Exec k.State Service
  unfolding node_port_object
  create_node_port_service name_space app_name port container_port = do
    res ← k.create_service name_space (node_port_object name_space app_name port container_port)
    pure res

  unfoldable pub create_ingress : Str → Str → Str → ℤ → Exec k.State Ingress
  unfolding text
  create_ingress k8s_name_space space_name host_name port =
      k.create_ingress k8s_name_space (record {
        name = ingress_prefix ++ space_name;
        annotations = (text "nginx.ingress.kubernetes.io/use-regex", text "true") ∷ [];
        class_name = text "nginx";
        host = host_name;
        path = text "/*";
        path_type = text "Prefix";
        service_name = service_prefix ++ space_name;
        service_port = port;
      })

  -- `read_file`, `join` and `base` are those of `os` and `path/filepath`; `draw` is the random source.
  unfoldable pub create_config_map :
      (Str → Result Str)
      → (Str → Str → Str)
      → (Str → Str)
      → (ℕ → ℕ)
      → Str
      → Str
      → Str
      → Str
      → Exec k.State ConfigMap
  unfolding ext generate_string
  create_config_map read_file join base draw k8s_name_space space_name base_path config_name = do
    ini_data ← lift (read_file (join base_path config_name))
    random ← lift (generate_string draw 4)
    k.create_config_map k8s_name_space (record {
      name =
          space_name
          ++ (b'-' ∷ base (take (length config_name - length (ext config_name)) config_name))
          ++ (b'-' ∷ random);
      entries = (config_name, ini_data) ∷ [];
    })

  unfoldable pub create_network_policy : (ℕ → ℕ) → Str → Exec k.State NetworkPolicy
  unfolding generate_string text
  create_network_policy draw namespace = do
    random ← lift (generate_string draw 4)
    k.create_network_policy namespace (record {
      name = namespace ++ b'-' ∷ random;
      namespace = namespace;
      policy_types = text "Ingress" ∷ [];
      from_namespaces = (text "kubernetes.io/metadata.name", text "ingress-nginx") ∷ [];
    })

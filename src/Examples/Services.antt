-- ===== src/Examples/Services.antt =====
-- A cluster, a docker engine, a validator and connections, each as small as the theorems allow.
use computing_api.Base.{
  Bool-cases, List, Result, Str, [], ap, arith, err, false, foreign, if◌then◌else◌, inl, inr, none,
  ok, ok-injective, refl, some, str_eq, str_eq_iff, str_eq_refl, sym, text, true, ◌++◌, ◌∙◌, ◌∷◌,
  ◌≡◌, ◌⊎◌,
}
use computing_api.K8s.Version.{is_kubernetes_version_greater_than}
use computing_api.K8s.Version.Order.{Release, git_version, is_kubernetes_version_greater_than_iff}
use computing_api.K8s.Queries.{get_pod_log, pod_logs, read_log, set_log}
use computing_api.K8s.Queries.Laws.{get_pod_log_lem, last_on}
use computing_api.K8s.Setup.{
  Globals, K8sService, Platform, connect, load_config, new_k8s_service, new_k8s_service-again,
}
use computing_api.K8s.Client.{ClientSet, Labels, Node, NodeLaws, Pod, label_of}
use computing_api.K8s.Labels.{add_node_label, generate_label, label_key, true_text}
use computing_api.K8s.Labels.Laws.{Matches, add_node_label-generate_label}

-- A version with a suffix, and an older one.
abbrev newer : Release
newer = record { major = 1; minor = 27; patch = 3; suffix = text "+k3s1" }

abbrev older : Release
older = record { major = 1; minor = 9; patch = 30; suffix = [] }

is_kubernetes_version_greater_than_iff_example :
    is_kubernetes_version_greater_than (git_version newer) (git_version older) ≡ true
unfolding text
is_kubernetes_version_greater_than_iff_example =
    (is_kubernetes_version_greater_than_iff newer older
        (
          omega arith,
          omega arith,
          omega arith,
          refl,
          (
            (omega arith, omega arith),
            (
              (omega arith, omega arith),
              (
                (omega arith, omega arith),
                ((omega arith, omega arith), ((omega arith, omega arith), tt)),
              ),
            ),
          ),
        )
        (omega arith, omega arith, omega arith, refl, tt)).1
      (inr (refl, inl (omega arith)))

-- The nodes of a cluster, the newest state of each first.
abbrev node_named : List Node → Str → Result Node
node_named [] name = err (foreign "not found")
node_named (n ∷ nodes) name =
    let rest = node_named nodes name in if str_eq n.name name then ok n else rest

abbrev nodes : ClientSet
nodes = record {
  State = List Node;
  create_service = λ ns o s. (ok o, s);
  create_ingress = λ ns o s. (ok o, s);
  create_config_map = λ ns o s. (ok o, s);
  create_network_policy = λ ns o s. (ok o, s);
  delete_pods = λ ns selector s. (ok tt, s);
  delete_replica_sets = λ ns selector s. (ok tt, s);
  create_deployment = λ ns o s. (ok o, s);
  delete_deployment = λ ns name s. (ok tt, s);
  get_service = λ ns name s. err (foreign "not found");
  delete_service = λ ns name s. (ok tt, s);
  delete_ingress = λ ns name s. (ok tt, s);
  create_namespace = λ o s. (ok o, s);
  get_namespace = λ name s. ok (record { name = name });
  delete_namespace = λ name s. (ok tt, s);
  get_deployment = λ ns name s. ok (record { name = name; containers = [] });
  list_pods = λ ns selector s. ok [];
  list_namespaces = λ s. ok [];
  stream_log = λ ns pod s. ok [];
  read_all = ok;
  get_node = λ name s. node_named s name;
  update_node = λ n s. (ok tt, n ∷ s);
  retry_on_conflict = λ call. call;
}

node_named_name : (s : List Node) (name : Str) (n : Node) → node_named s name ≡ ok n → n.name ≡ name
node_named_name [] name n h = absurd (cc)
node_named_name (m ∷ s) name n h = elim (Bool-cases (str_eq m.name name)) [
  | inl same ↦
      ap (λ (x : Node). x.name) (sym (ok-injective (rw same at h)))
      ∙ (str_eq_iff m.name name).0 same
  | inr apart ↦ node_named_name s name n (rw apart at h)
]

nodes_laws : NodeLaws nodes
nodes_laws = record {
  name_law = λ name n s h. node_named_name s name n h;
  update_law =
      λ n s s' h. ap (λ l. node_named l n.name) (λ i. (sym h i).1) ∙ rw (str_eq_refl n.name) refl;
  retry_law = λ call s s' h. (s, h);
}

abbrev worker : Node
worker = record { name = b'w' ∷ []; labels = some [] }

abbrev labelled : Node
unfolding label_key text
labelled = record { name = b'w' ∷ []; labels = some ((label_key (text "my gpu"), true_text) ∷ []) }

add_node_label-generate_label_example :
    (n : Node) × (labels : Labels) × (nodes.get_node (b'w' ∷ []) (labelled ∷ worker ∷ []) ≡ ok n)
    × (n.labels ≡ some labels)
    × Matches (generate_label (text "my gpu")) labels
unfolding add_node_label label_key text
add_node_label-generate_label_example =
    add_node_label-generate_label nodes nodes_laws (b'w' ∷ []) (text "my gpu") (worker ∷ [])
      (labelled ∷ worker ∷ []) refl

-- A machine outside of a cluster, whose configuration names a server.
abbrev laptop : Platform
laptop = record {
  Config = Str;
  Clientset = Str;
  in_cluster_config = err (foreign "not in a cluster");
  home_dir = text "/root";
  default_path = λ home. home ++ text "/.kube/config";
  kube_config = ok;
  build_config = ok;
  new_for_config = ok;
  server_version = λ c. ok (text "v1.27.3");
}

abbrev kube_path : Str
unfolding text
kube_path = text "/root" ++ text "/.kube/config"

abbrev at_first : Globals laptop
at_first = record { client_set = none; once = false }

abbrev served : Globals laptop
served = record { client_set = some kube_path; once = true }

abbrev first_service : K8sService laptop
first_service = record { client_set = some kube_path; version = text "v1.27.3" }

new_k8s_service-again_example :
    (new_k8s_service laptop served
      ≡ (ok (record { client_set = some kube_path; version = [] }), served))
    × (is_kubernetes_version_greater_than [] (text "v1.9.0") ≡ false)
unfolding new_k8s_service connect load_config text
new_k8s_service-again_example =
    new_k8s_service-again laptop at_first served first_service (text "v1.9.0") refl

-- Two exporters on one node, each with its name as its log.
abbrev exporter : Str → Pod
exporter name = record { name = name; node_name = text "gpu"; status_images = [] }

abbrev exporters : List Pod
exporters = exporter (text "first") ∷ exporter (text "second") ∷ []

abbrev exporting : ClientSet
exporting = record nodes {
  list_pods = λ ns selector s. ok exporters;
  stream_log = λ ns pod s. ok pod;
}

get_pod_log_lem_example :
    (pods : List Pod) × (exporting.list_pods (text "kube-system") (text "app=resource-exporter") []
      ≡ ok pods)
    × (((last_on (text "gpu") pods ≡ none)
          × (label_of (text "gpu") ((text "gpu", text "second") ∷ []) ≡ none))
        ⊎ ((pod : Pod) × (log : Str) × (last_on (text "gpu") pods ≡ some pod)
            × (read_log exporting (text "kube-system") pod.name [] ≡ ok log)
            × (label_of (text "gpu") ((text "gpu", text "second") ∷ []) ≡ some log)))
unfolding get_pod_log pod_logs set_log read_log text
get_pod_log_lem_example =
    get_pod_log_lem exporting [] ((text "gpu", text "second") ∷ []) (text "gpu") refl

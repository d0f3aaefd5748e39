-- ===== src/K8s/Labels.antt =====
-- computing/docker/k8s_service.go: the label of a node, and the selector that asks for it.
pub mod Laws
use computing_api.Base.{
  Exec, Option, Result, Str, [], attempt, if◌then◌else◌, lift, none, not, ok, panic, pure, raise,
  reads, some, str_eq, wrap, ◌>>=◌, ◌>>◌, ◌∷◌,
}
use computing_api.Std.Strings.Split.{replace_all}
use computing_api.K8s.Client.{ClientSet, Labels}

abbrev pub true_text : Str
true_text = b't' ∷ b'r' ∷ b'u' ∷ b'e' ∷ []

-- `strings.ReplaceAll(name, " ", "-")`
unfoldable pub label_key : Str → Str
label_key name = replace_all b' ' (b'-' ∷ []) name

unfoldable pub generate_label : Str → Labels
unfolding label_key
generate_label name = if not (str_eq name []) then (label_key name, true_text) ∷ [] else []

-- `node.Labels[key] = "true"`, which a nil map does not take.
unfoldable pub set_label : Str → Option Labels → Result (Option Labels)
set_label key none = panic "assignment to entry in nil map"
set_label key (some labels) = ok (some ((key, true_text) ∷ labels))

-- All retries write the node that was read before them.
unfoldable pub add_node_label : (k : ClientSet) → Str → Str → Exec k.State (Unit {0})
unfolding label_key set_label
add_node_label k node_name key = do
  node ← reads (k.get_node node_name)
  labels ← lift (set_label (label_key key) node.labels)
  attempt (k.retry_on_conflict (k.update_node (record node { labels = labels })))
      (λ e. raise (wrap "failed update node label" e)) pure

-- ===== src/K8s/Labels/Laws.antt =====
-- A deployment with the generated selector runs on the node that was labelled.
use computing_api.Base.{
  All, Option, Str, [], ap, lift->>=-eq-ok, none, ok, ok-injective, reads->>=-eq-ok, refl, some,
  str_eq_refl, sym, wrap, wrapped-attempt-eq-ok, ◌∙◌, ◌∷◌, ◌≡◌,
}
use computing_api.K8s.Client.{ClientSet, Labels, Node, NodeLaws, label_of}
use computing_api.K8s.Labels.{add_node_label, generate_label, label_key, set_label, true_text}

-- The scheduler's test: each entry of the selector is a label of the node.
abbrev pub Matches : Labels → Labels → Type 0
Matches selector labels = All (λ (e : Str × Str). label_of e.0 labels ≡ some e.1) selector

set_label_lem :
    (key : Str) (old fresh : Option Labels)
    → set_label key old ≡ ok fresh
    → (labels : Labels) × (fresh ≡ some labels) × (label_of key labels ≡ some true_text)
unfolding set_label label_of
set_label_lem key none fresh h = absurd (cc)
set_label_lem key (some old) fresh h =
    ((key, true_text) ∷ old, sym (ok-injective h), rw (str_eq_refl key) refl)

generate_label-Matches :
    (name : Str) (labels : Labels)
    → label_of (label_key name) labels ≡ some true_text
    → Matches (generate_label name) labels
unfolding generate_label
generate_label-Matches [] labels h = tt
generate_label-Matches (c ∷ name) labels h = (h, tt)

module _ (k : ClientSet) (laws : NodeLaws k) where
  -- After a label is added with no error the node can be got and has the label, so that it matches
  -- the selector that is generated from the same name.
  pub add_node_label-generate_label :
      (node_name name : Str) (s s' : k.State)
      → add_node_label k node_name name s ≡ (ok tt, s')
      → (n : Node) × (labels : Labels) × (k.get_node node_name s' ≡ ok n)
        × (n.labels ≡ some labels)
        × Matches (generate_label name) labels
  unfolding add_node_label
  add_node_label-generate_label node_name name s s' h =
      let (node, got, h1) = reads->>=-eq-ok (k.get_node node_name) _ s h in
      let (fresh, set, h2) = lift->>=-eq-ok (set_label (label_key name) node.labels) _ s h1 in
      let (labels, same, has) = set_label_lem (label_key name) node.labels fresh set in
      let update = k.update_node (record node { labels = fresh }) in
      let written =
        wrapped-attempt-eq-ok (k.retry_on_conflict update) (wrap "failed update node label") s h2 in
      let (s1, last) = laws.retry_law update s s' written in
      (
        record node { labels = fresh },
        labels,
        ap (λ n. k.get_node n s') (sym (laws.name_law node_name node s got))
            ∙ laws.update_law (record node { labels = fresh }) s1 s' last,
        same,
        generate_label-Matches name labels has,
      )

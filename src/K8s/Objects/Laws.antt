-- ===== src/K8s/Objects/Laws.antt =====
-- What the objects lead to.
use mathlib.Core.Path.{subst}
use computing_api.Base.{
  >>=-eq-ok, Str, [], ap, map, ok, ok-injective, pure, sym, text, ◌↔◌, ◌∙◌, ◌∷◌, ◌≡◌,
}
use computing_api.Base.Int.{ℤ}
use computing_api.K8s.Client.{ClientSet, Ingress, Labels, Service, ServicePort}
use computing_api.K8s.Labels.Laws.{Matches}
use computing_api.K8s.Objects.{
  create_ingress, create_node_port_service, create_service, node_port_object,
}

-- Kubernetes gives back the objects that it has created.
pub record ObjectLaws (k : ClientSet) : Type 0 where
  pub service_law :
      (ns : Str) (o r : Service) (s s' : k.State) → k.create_service ns o s ≡ (ok r, s') → r ≡ o
  pub ingress_law :
      (ns : Str) (o r : Ingress) (s s' : k.State) → k.create_ingress ns o s ≡ (ok r, s') → r ≡ o

module _ (k : ClientSet) (laws : ObjectLaws k) where
  -- The ingress of a space sends the requests of its host to the service that was created for the
  -- space, at the port that the service listens on.
  create_ingress-create_service :
      (ns space host : Str) (port : ℤ) (svc : Service) (ing : Ingress) (s s1 s2 : k.State)
      → create_service k ns space port s ≡ (ok svc, s1)
      → create_ingress k ns space host port s1 ≡ (ok ing, s2)
      → (ing.host ≡ host)
        × (ing.service_name ≡ svc.name)
        × (svc.namespace ≡ ns)
        × (map (λ (p : ServicePort). p.port) svc.ports ≡ ing.service_port ∷ [])
        × (svc.selector ≡ (text "app", space) ∷ [])
  unfolding create_service create_ingress
  create_ingress-create_service ns space host port svc ing s s1 s2 h k' =
      let made = laws.service_law ns _ svc s s1 h in
      let routed = laws.ingress_law ns _ ing s1 s2 k' in
      (
        ap (λ (i : Ingress). i.host) routed,
        ap (λ (i : Ingress). i.service_name) routed ∙ ap (λ (v : Service). v.name) (sym made),
        ap (λ (v : Service). v.namespace) made,
        ap (λ (v : Service). map (λ (p : ServicePort). p.port) v.ports) made
            ∙ ap (λ (i : Ingress). i.service_port ∷ []) (sym routed),
        ap (λ (v : Service). v.selector) made,
      )

  node_port_selector :
      (ns app : Str) (port target : ℤ) (svc : Service) (s s' : k.State)
      → create_node_port_service k ns app port target s ≡ (ok svc, s')
      → svc.selector ≡ (text "app.kubernetes.io/name", text "load-balancer-example") ∷ []
  unfolding create_node_port_service node_port_object
  node_port_selector ns app port target svc s s' h =
      let o = node_port_object ns app port target in
      let (r, s1, made, end) = >>=-eq-ok (k.create_service ns o) pure s h in
      ap (λ (v : Service). v.selector)
        (ok-injective (λ i. (sym end i).0) ∙ laws.service_law ns o r s s1 made)

  -- The node-port services of any two applications select the same pods, those that have the label
  -- of an example, whatever the names of the applications are.
  create_node_port_service_selects :
      (ns app other_app : Str) (port target : ℤ) (svc other_svc : Service) (s s1 s2 : k.State)
      → create_node_port_service k ns app port target s ≡ (ok svc, s1)
      → create_node_port_service k ns other_app port target s1 ≡ (ok other_svc, s2)
      → (pod_labels : Labels)
      → Matches svc.selector pod_labels ↔ Matches other_svc.selector pod_labels
  create_node_port_service_selects ns app other_app port target svc other_svc s s1 s2 h h' l =
      let same =
        node_port_selector ns app port target svc s s1 h
        ∙ sym (node_port_selector ns other_app port target other_svc s1 s2 h') in
      (subst (λ sel. Matches sel l) same, subst (λ sel. Matches sel l) (sym same))

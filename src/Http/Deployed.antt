-- ===== src/Http/Deployed.antt =====
-- What a deployment by the identifier of an application has done where it is reported as done.
use computing_api.Base.{
  >>=-eq-ok, Error, List, Str, String, [], arith, ignore, lift, lift->>=-eq-ok, ok, refl, ℕ, ◌>>=◌,
  ◌∙◌, ◌∷◌, ◌≡◌, ◌≢◌,
}
use computing_api.Kv.{Badger}
use computing_api.Chain.{Chain, Order}
use computing_api.Kube.{Deployment, Kube, Service}
use computing_api.Deploy.{clean}
use computing_api.World.{World, on_cluster}
use computing_api.Gateway.{GatewayApi}
use computing_api.Http.{Body, Reply, Request, Site, cookies_of, msg, msg_error, reply, user_of}
use computing_api.Http.Answered.{attempt-answered, not_missing, reads-answered, replied-apart}
use computing_api.Http.Deploying.{
  clean_up, deploy_and_set, deploy_on_node, first_name, handler_deploy_id, path_by_id, select_node,
}
use computing_api.Utils.{or_zero, string_to_uint64, uint64_to_string}
use computing_api.Yaml.{Objects, parse_yaml_file}

abbrev pub deploy_ok : Reply
deploy_ok = record { status = 200; body = msg "[ACK] deploy ok" }

module _ {b : Badger} {k : Kube} {ch : Chain} (site : Site b k ch)
    (gw : GatewayApi (World b k ch)) where
  cleaned-apart :
      (deps : List Deployment) (why : String) (e : Error) (w w' : World b k ch)
      → clean_up site gw deps why e w ≢ (ok deploy_ok, w')
  unfolding clean_up
  cleaned-apart deps why e w w' h =
      let (_, w1, _, rest) =
        >>=-eq-ok (ignore (on_cluster (clean k deps))) (λ _. reply 500 (msg_error why e)) w h in
      replied-apart 500 (msg_error why e) deploy_ok w1 w' (λ same. absurd (omega arith)) rest

  -- What `deploy_and_set` has done where it answers that the deployment is done.
  abbrev Deployed : ℕ → List Deployment → List Service → Str → World b k ch → World b k ch → Type 0
  Deployed oid deps svcs user w w' =
      (w1 : World b k ch) × (name : Str) × (gw.deploy deps svcs user w ≡ (ok tt, w1))
      × (first_name (gw.renamed deps user) ≡ ok name)
      × (gw.set_app oid name w1 ≡ (ok tt, w'))

  deploy_and_set_lem :
      (oid : ℕ) (deps : List Deployment) (svcs : List Service) (user : Str) (w w' : World b k ch)
      → deploy_and_set site gw oid deps svcs user w ≡ (ok deploy_ok, w')
      → Deployed oid deps svcs user w w'
  unfolding deploy_and_set
  deploy_and_set_lem oid deps svcs user w w' h =
      let named = gw.renamed deps user in
      let (_, w1, ran, h1) =
        attempt-answered (gw.deploy deps svcs user) _ _ w w' deploy_ok
          (λ e v. cleaned-apart named "[Fail] Failed to deploy" e v w') h in
      let (_, w2, set, h2) =
        attempt-answered (lift (first_name named) >>= λ name. gw.set_app oid name) _ _ w1 w'
          deploy_ok (λ e v. cleaned-apart named "[Fail] Failed to set app" e v w') h1 in
      let (name, first, recorded) = lift->>=-eq-ok (first_name named) _ w1 set in
      (w1, name, ran, first, recorded ∙ λ i. (ok tt, (h2 i).1))

  -- What `deploy_on_node` has done: the first deployment is placed on the node of the order.
  abbrev Placed :
      ℕ → List Deployment → List Service → Str → Order → World b k ch → World b k ch → Type 0
  Placed oid deps svcs user order w w' =
      (dep placed : Deployment) × (rest : List Deployment) × (deps ≡ dep ∷ rest)
      × (select_node (uint64_to_string order.node_id) dep ≡ ok placed)
      × Deployed oid (placed ∷ rest) svcs user w w'

  deploy_on_node_lem :
      (oid : ℕ) (deps : List Deployment) (svcs : List Service) (user : Str) (order : Order)
      (w w' : World b k ch)
      → deploy_on_node site gw oid deps svcs user order w ≡ (ok deploy_ok, w')
      → Placed oid deps svcs user order w w'
  unfolding deploy_on_node
  deploy_on_node_lem oid [] svcs user order w w' h = absurd (cc)
  deploy_on_node_lem oid (dep ∷ rest) svcs user order w w' h =
      let (placed, chosen, h1) =
        lift->>=-eq-ok (select_node (uint64_to_string order.node_id) dep) _ w h in
      (dep, placed, rest, refl, chosen, deploy_and_set_lem oid (placed ∷ rest) svcs user w w' h1)

  not_400 : (body : Body) (w w' : World b k ch) → reply 400 body w ≢ (ok deploy_ok, w')
  not_400 body w w' = replied-apart 400 body deploy_ok w w' (λ same. absurd (omega arith))

  pub handler_deploy_id_sound :
      (c : Request) (w w' : World b k ch)
      → handler_deploy_id site gw c w ≡ (ok deploy_ok, w')
      → (user p : Str) × (objects : Objects) × (order : Order) × (user_of site
            (cookies_of site c.cookie_headers)
            w
          ≡ ok user)
        × (path_by_id site gw c.id w ≡ ok p)
        × (parse_yaml_file site.decoder (site.read_file p w) ≡ ok objects)
        × (gw.get_order (or_zero (string_to_uint64 c.oid)) w ≡ ok order)
        × (dep placed : Deployment) × (rest : List Deployment) × (objects.deps ≡ dep ∷ rest)
        × (select_node (uint64_to_string order.node_id) dep ≡ ok placed)
        × (w1 : World b k ch) × (name : Str) × (gw.deploy (placed ∷ rest) objects.svcs user w
            ≡ (ok tt, w1))
        × (first_name (gw.renamed (placed ∷ rest) user) ≡ ok name)
        × (gw.set_app (or_zero (string_to_uint64 c.oid)) name w1 ≡ (ok tt, w'))
  unfolding handler_deploy_id
  handler_deploy_id_sound c w w' h =
      let oid = or_zero (string_to_uint64 c.oid) in
      let h1 =
        not_missing c.id (reply 400 (msg "[Fail] missing yaml id in request")) _ w w' deploy_ok
          (not_400 _ w w') h in
      let (user, known, h2) =
        reads-answered (user_of site (cookies_of site c.cookie_headers)) _ _ w w' deploy_ok
          (λ e v. not_400 _ v w') h1 in
      let (p, path, h3) =
        reads-answered (path_by_id site gw c.id) _ _ w w' deploy_ok (λ e v. not_400 _ v w') h2 in
      let (objects, parsed, h4) =
        reads-answered (λ v. parse_yaml_file site.decoder (site.read_file p v)) _ _ w w' deploy_ok
          (λ e v. not_400 _ v w') h3 in
      let (order, got, h5) =
        reads-answered (gw.get_order oid) _ _ w w' deploy_ok (λ e v. not_400 _ v w') h4 in
      let (dep, placed, rest, first, chosen, deployed) =
        deploy_on_node_lem oid objects.deps objects.svcs user order w w' h5 in
      let (w1, name, ran, called, recorded) = deployed in
      (
        user, p, objects, order, known, path, parsed, got, dep, placed, rest, first, chosen, w1,
        name, ran, called, recorded,
      )

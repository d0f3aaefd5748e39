-- ===== src/Http/Forwarded.antt =====
-- Where the requests of a user go whose application the handlers deployed.
use mathlib.Core.Path.{subst}
use computing_api.Base.{
  Exec, List, Str, ap, ok, ok-injective, refl, some, str_eq_refl, sym, text, ◌++◌, ◌∙◌, ◌∷◌, ◌≡◌,
}
use computing_api.Std.Strconv.{format_uint}
use computing_api.Kv.{Badger, get}
use computing_api.Kv.Laws.{BadgerLaws, get_sound}
use computing_api.Chain.{Chain}
use computing_api.Kube.{Deployment, Kube, Service}
use computing_api.Deploy.{EndPoint, deploy}
use computing_api.World.{World, on_chain}
use computing_api.Remote.{set_app}
use computing_api.Utils.{or_zero, string_to_uint64}
use computing_api.Local.{deploy_app, entrance_of, entrance_prefix, get_entrance, prefix_key}
use computing_api.Local.Records.{deploy_app_records}
use computing_api.Compose.{Settings, computing_gateway}
use computing_api.Http.{Request, Site, Url, cookies_of, forwarded, user_of}
use computing_api.Http.Computing.{direct, handler_compute}
use computing_api.Http.Deploying.{handler_deploy_id}
use computing_api.Http.Access.{handler_compute_iff}
use computing_api.Http.Deployed.{deploy_ok, handler_deploy_id_sound}

on_chain_ok :
    {b : Badger} {k : Kube} {ch : Chain} {A : Type 0} (m : Exec ch.State A) (w w' : World b k ch)
    (a : A)
    → on_chain m w ≡ (ok a, w')
    → (w'.db ≡ w.db) × (w'.cluster ≡ w.cluster)
on_chain_ok m w w' a h = (λ i. (sym h i).1.db, λ i. (sym h i).1.cluster)

-- The address of a node port on the gateway's own host.
unfoldable pub at_port : EndPoint → Url
unfolding format_uint text
at_port ep = record { scheme = text "http"; host = text "localhost:" ++ format_uint ep.node_port }

direct-at_port : (ep : EndPoint) → direct (at_port ep) ≡ at_port ep
unfolding direct at_port text
direct-at_port ep = refl

-- What is relied on of `url.Parse`: an entrance is read as what it says.
abbrev pub ReadsEntrances : {b : Badger} {k : Kube} {ch : Chain} → Site b k ch → Type 0
ReadsEntrances {b} {k} {ch} site =
    (ep : EndPoint) → site.parse_url (entrance_of b k ch ep) ≡ ok (at_port ep)

module _ {b : Badger} (laws : BadgerLaws b) {k : Kube} {ch : Chain} (site : Site b k ch)
    (settings : Settings) where
  open laws use {contents}

  -- Let `handlerDeployID` of the gateway outside tests answer that the deployment of a user is
  -- done, and later, while the entrance of that user in the database is as it was left, let
  -- `handlerCompute` forward a request of that user. Then the target is the node port, on the
  -- gateway's host, that a deployment on the cluster for this user gave, from the state before the
  -- first request to the one after it (where the entrances are URLs that are read as they say).
  pub handler_compute-handler_deploy_id :
      (c c' : Request) (w w1 w2 w3 : World b k ch) (user : Str) (target : Url)
      → ReadsEntrances site
      → handler_deploy_id site (computing_gateway site.crypto b k ch settings) c w
        ≡ (ok deploy_ok, w1)
      → user_of site (cookies_of site c.cookie_headers) w ≡ ok user
      → contents w2.db (prefix_key user entrance_prefix)
        ≡ contents w1.db (prefix_key user entrance_prefix)
      → user_of site (cookies_of site c'.cookie_headers) w2 ≡ ok user
      → handler_compute site (computing_gateway site.crypto b k ch settings) c' w2
        ≡ (ok (record { status = 200; body = forwarded target }), w3)
      → (deps : List Deployment) × (svcs : List Service) × (ep : EndPoint) × (deploy k deps svcs
            user w.cluster
          ≡ (ok ep, w1.cluster))
        × (target ≡ at_port ep)
  unfolding computing_gateway get_entrance
  handler_compute-handler_deploy_id c c' w w1 w2 w3 user target as_they_say h known kept known' h' =
      let gw = computing_gateway site.crypto b k ch settings in
      let key = prefix_key user entrance_prefix in
      let (u, _, objects, _, named, _, _, _, _, placed, rest, _, _, wm, name, ran, _, recorded) =
        handler_deploy_id_sound site gw c w w1 h in
      let (u', _, ent, url, named', _, _, _, there, parsed, went, _) =
        (handler_compute_iff site gw c' w2 w3 target).0 h' in
      let (same_db, same_cluster) =
        on_chain_ok (set_app ch settings.wallet_sk (or_zero (string_to_uint64 c.oid)) name) wm w1 tt
          recorded in
      let deployed : deploy_app b k ch (placed ∷ rest) objects.svcs user w ≡ (ok tt, wm) =
        subst (λ v. deploy_app b k ch (placed ∷ rest) objects.svcs v w ≡ (ok tt, wm))
          (ok-injective (sym named ∙ known)) ran in
      let (ep, ran_on, entries) =
        deploy_app_records b laws k ch (placed ∷ rest) objects.svcs user w wm deployed in
      let held : contents w2.db key ≡ some (entrance_of b k ch ep) =
        kept ∙ ap (λ d. contents d key) same_db ∙ entries key ∙ rw (str_eq_refl key) refl in
      let got : contents w2.db key ≡ some ent = get_sound b laws key ent w2.db (
        subst (λ v. get b (prefix_key v entrance_prefix) w2.db ≡ ok ent)
          (ok-injective (sym named' ∙ known')) there) in
      let same_ent : ent ≡ entrance_of b k ch ep = cc in
      let same_url : url ≡ at_port ep =
        ok-injective (sym parsed ∙ ap site.parse_url same_ent ∙ as_they_say ep) in
      (
        placed ∷ rest,
        objects.svcs,
        ep,
        ran_on ∙ (λ i. (ok ep, sym same_cluster i)),
        went ∙ ap direct same_url ∙ direct-at_port ep,
      )

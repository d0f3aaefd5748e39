-- ===== src/Http/Redeploy.antt =====
-- What a second deployment by the same user does, on the gateway that runs outside tests.
use computing_api.Base.{
  List, Str, [], err, new, not_empty, ok, refl, str_eq_refl, ◌++◌, ◌∷◌, ◌≡◌, ◌≢◌,
}
use computing_api.Auth.{Crypto}
use computing_api.Kv.{Badger}
use computing_api.Kube.{Deployment, Kube, Service}
use computing_api.Chain.{Chain}
use computing_api.Deploy.{clean, del_deploy, deploy, deploy_renamed, rename, svc_prefix}
use computing_api.Yaml.{parse_yaml_url}
use computing_api.World.{World}
use computing_api.Local.{deploy_app}
use computing_api.Compose.{Settings, computing_gateway}
use computing_api.Http.{Request, Site, inject_cookie, msg_error, user_of}
use computing_api.Http.Deploying.{clean_up, handler_deploy_url}

module _ (k : Kube) where
  -- The name that a user's deployment gets.
  abbrev pub deployed_name : Str → Str → Str
  deployed_name name user = name ++ b'-' ∷ k.to_lower user

  deploy_refused :
      (dep : Deployment) (deps : List Deployment) (svcs : List Service) (user : Str) (s : k.State)
      → k.service_name (svc_prefix ++ deployed_name dep.name user) s
        ≡ svc_prefix ++ deployed_name dep.name user
      → deploy k (dep ∷ deps) svcs user s ≡ (err (new "svc exists, deploy cancelled"), s)
  unfolding deploy deploy_renamed
  deploy_refused dep deps svcs user s there =
      rw (there, str_eq_refl (svc_prefix ++ deployed_name dep.name user)) refl

module _ (c : Crypto) {b : Badger} {k : Kube} {ch : Chain} (settings : Settings)
    (site : Site b k ch) where
  -- Let the cookies name a user, the yaml at a URL that is not empty be parsed, and the service of
  -- the user's application of that name exist already. `handlerDeployUrl` answers with status 500
  -- and has the deployment of that name and then the service deleted: where both deletions succeed,
  -- the cluster is as they leave it, and nothing else of the world has changed.
  pub handler_deploy_url-exists :
      (r : Request) (w : World b k ch) (user : Str) (dep : Deployment) (deps : List Deployment)
      (svcs : List Service) (s s' : k.State)
      → user_of site (inject_cookie site r) w ≡ ok user
      → r.url ≢ []
      → parse_yaml_url site.decoder (site.page r.url w)
        ≡ ok (record { deps = dep ∷ deps; svcs = svcs })
      → k.service_name (svc_prefix ++ deployed_name k dep.name user) w.cluster
        ≡ svc_prefix ++ deployed_name k dep.name user
      → k.delete_deployment (deployed_name k dep.name user) w.cluster ≡ (ok tt, s)
      → k.delete_service (svc_prefix ++ deployed_name k dep.name user) s ≡ (ok tt, s')
      → handler_deploy_url site (computing_gateway c b k ch settings) r w ≡ (
        ok (record {
          status = 500;
          body = msg_error "[Fail] Failed to deploy" (new "svc exists, deploy cancelled");
        }),
        record w { cluster = s' },
      )
  unfolding handler_deploy_url computing_gateway deploy_app clean_up clean rename del_deploy
  handler_deploy_url-exists r w user dep deps svcs s s' named url parsed there gone gone' =
      rw
        (
          named,
          not_empty r.url url,
          parsed,
          deploy_refused k dep deps svcs user w.cluster there,
          gone,
          gone',
        )
        refl

-- ===== src/Http/Deploying.antt =====
-- The handlers of handler.go that deploy, clean and show applications.
use computing_api.Base.{
  Bool, Error, Exec, List, Result, Str, String, [], attempt, crash, false, if◌then◌else◌, ignore,
  lift, none, ok, panic, reads, some, str_eq, text, ℕ, ◌&&◌, ◌>>=◌, ◌>>◌, ◌||◌, ◌∷◌,
}
use computing_api.Utils.{get_path_by_id, or_zero, string_to_uint64, uint64_to_string}
use computing_api.Kv.{Badger}
use computing_api.Chain.{Chain, Order}
use computing_api.Kube.{Condition, Deployment, Kube, Service}
use computing_api.Deploy.{clean, del_deploy}
use computing_api.Yaml.{parse_yaml_file, parse_yaml_url}
use computing_api.World.{World, on_cluster}
use computing_api.Gateway.{GatewayApi}
use computing_api.Http.{
  Reply, Request, Site, cookies_of, err_error, inject_cookie, msg, msg_error, reply, shown, user_of,
}

-- `deps[0].Spec.Template.Spec.NodeSelector["id"] = …`: a nil map cannot be written.
unfoldable pub select_node : Str → Deployment → Result Deployment
select_node node dep = elim dep.node_selector [
  | none ↦ panic "assignment to entry in nil map"
  | some selector ↦ ok (record dep { node_selector = some ((text "id", node) ∷ selector) })
]

-- `deps[0].Name`
unfoldable pub first_name : List Deployment → Result Str
first_name [] = panic "index out of range [0] with length 0"
first_name (dep ∷ deps) = ok dep.name

-- Whether a condition of a type has the status "True".
unfoldable pub has_condition : Str → List Condition → Bool
has_condition type [] = false
has_condition type (c ∷ conditions) =
    (str_eq c.type type && str_eq c.status (text "True")) || has_condition type conditions

module _ {b : Badger} {k : Kube} {ch : Chain} (site : Site b k ch)
    (gw : GatewayApi (World b k ch)) where
  -- After an error of a deployment: `deploy.Clean(deps)`, whose error is thrown away, and the reply.
  unfoldable pub clean_up : List Deployment → String → Error → Exec (World b k ch) Reply
  clean_up deps why e = do ignore (on_cluster (clean k deps)); reply 500 (msg_error why e)

  -- `handlerDeployUrl`
  unfoldable pub handler_deploy_url : Request → Exec (World b k ch) Reply
  unfolding clean_up
  handler_deploy_url c =
      attempt (reads (user_of site (inject_cookie site c)))
        (λ e. reply 400 (err_error "invalid cookie" e))
        (λ addr.
          if str_eq c.url []
          then reply 400 (msg "[Fail] missing yaml url in request")
          else attempt (reads (λ w. parse_yaml_url site.decoder (site.page c.url w)))
              (λ e. reply 400 (msg_error "parse yaml url failed" e))
              (λ objects.
                attempt (gw.deploy objects.deps objects.svcs addr)
                  (λ e. clean_up (gw.renamed objects.deps addr) "[Fail] Failed to deploy" e)
                  (λ _. reply 200 (msg "[ACK] deploy from url ok"))))

  -- From the deployment in `handlerDeployID` on; `named` is what the deployments are after it.
  unfoldable pub deploy_and_set :
      ℕ → List Deployment → List Service → Str → Exec (World b k ch) Reply
  unfolding clean_up first_name
  deploy_and_set oid deps svcs user =
      let named = gw.renamed deps user in
      attempt (gw.deploy deps svcs user) (λ e. clean_up named "[Fail] Failed to deploy" e)
        (λ _.
          attempt (lift (first_name named) >>= λ name. gw.set_app oid name)
            (λ e. clean_up named "[Fail] Failed to set app" e)
            (λ _. reply 200 (msg "[ACK] deploy ok")))

  -- The first deployment is put on the node of the order; with no deployment the index is out of
  -- range.
  unfoldable pub deploy_on_node :
      ℕ → List Deployment → List Service → Str → Order → Exec (World b k ch) Reply
  unfolding deploy_and_set select_node
  deploy_on_node oid [] svcs user order = crash "index out of range [0] with length 0"
  deploy_on_node oid (dep ∷ deps) svcs user order =
      lift (select_node (uint64_to_string order.node_id) dep) >>= λ placed.
      deploy_and_set oid (placed ∷ deps) svcs user

  -- The path of the yaml file that an id stands for, read in the list file.
  abbrev pub path_by_id : Str → World b k ch → Result Str
  path_by_id id w = get_path_by_id site.unmarshal_models (site.read_file (text "./list.json") w) id

  -- `handlerDeployID`
  unfoldable pub handler_deploy_id : Request → Exec (World b k ch) Reply
  unfolding deploy_on_node
  handler_deploy_id c =
      let oid = or_zero (string_to_uint64 c.oid) in
      if str_eq c.id []
      then reply 400 (msg "[Fail] missing yaml id in request")
      else attempt (reads (user_of site (cookies_of site c.cookie_headers)))
          (λ e. reply 400 (err_error "[Fail] invalid cookie" e))
          (λ user.
            attempt (reads (path_by_id c.id))
              (λ e. reply 400 (msg_error "[Fail] invalid yaml id" e))
              (λ p.
                attempt (reads (λ w. parse_yaml_file site.decoder (site.read_file p w)))
                  (λ e. reply 400 (msg_error "parse yaml failed" e))
                  (λ objects.
                    attempt (reads (gw.get_order oid))
                      (λ e. reply 400 (msg_error "[Fail] get order info from contract failed" e))
                      (λ order. deploy_on_node oid objects.deps objects.svcs user order))))

  -- `handlerClean`: the result of the deletion is thrown away.
  unfoldable pub handler_clean : Request → Exec (World b k ch) Reply
  handler_clean c =
      let oid = or_zero (string_to_uint64 c.oid) in
      attempt (reads (user_of site (cookies_of site c.cookie_headers)))
        (λ e. reply 400 (err_error "[Fail] invalid cookie" e))
        (λ user.
          attempt (reads (gw.get_order oid))
            (λ e. reply 400 (msg_error "[Fail] get order info from contract failed" e))
            (λ order.
              ignore (on_cluster (del_deploy k order.app_name))
              >> reply 200 (msg "[ACK] clean ok")))

  -- `handlerShow`
  unfoldable pub handler_show : Request → Exec (World b k ch) Reply
  unfolding has_condition
  handler_show c =
      let oid = or_zero (string_to_uint64 c.oid) in
      attempt (reads (user_of site (cookies_of site c.cookie_headers)))
        (λ e. reply 400 (err_error "[Fail] invalid cookie" e))
        (λ user.
          attempt (reads (gw.get_order oid))
            (λ e. reply 400 (msg_error "[Fail] get order info from contract failed" e))
            (λ order.
              if str_eq order.app_name []
              then reply 400 (msg "[Fail] no app deployed for this order")
              else attempt (reads (λ w. k.conditions_of order.app_name w.cluster))
                  (λ e. reply 400 (msg_error "[Fail] get deployment info failed" e))
                  (λ conditions. reply 200 (
                    shown order.app_name (has_condition (text "Available") conditions)
                      (has_condition (text "Progressing") conditions)))))

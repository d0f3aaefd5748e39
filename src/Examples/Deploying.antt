-- ===== src/Examples/Deploying.antt =====
-- A deployment by the identifier of an application.
use computing_api.Std.Strings.{split_dashes}
use computing_api.Base.{
  List, [], drop, false, if◌then◌else◌, ok, refl, some, str_eq, text, true, ◌∷◌, ◌≡◌,
}
use computing_api.Kv.Memory.{memory, memory_laws}
use computing_api.Http.Computing.{direct, forward, handler_compute}
use computing_api.Http.Forwarded.{ReadsEntrances, at_port, handler_compute-handler_deploy_id}
use computing_api.Kube.{Deployment, Service}
use computing_api.Http.{Site, cookies_of, forwarded, user_of}
use computing_api.Http.Deploying.{
  deploy_and_set, deploy_on_node, first_name, handler_deploy_id, select_node,
}
use computing_api.Http.Deployed.{deploy_ok}
use computing_api.Examples.Serving.{user_is_u}
use computing_api.Examples.{
  Here, gateway, ledger, request, set_at, settings, site, small, start, user,
}
use computing_api.Std.Strconv.{format_uint, parse_uint}
use computing_api.Utils.{
  find_path, get_path_by_id, load_model, or_zero, string_to_uint64, uint64_to_string,
}
use computing_api.Yaml.{add_object, parse_documents, parse_yaml, parse_yaml_file, with_deployment}
use computing_api.Kv.{get, put}
use computing_api.Remote.{
  confirm, expire_check, get_order, open_market, order_end, out_of_int64, set_app,
}
use computing_api.Deploy.{
  EndPoint, container_port, create_deployments, create_node_port_svc, create_services, deploy,
  deploy_renamed, is_available, node_port_of, rename, wait_all, wait_ready, wait_tries,
}
use computing_api.Local.{deploy_app, entrance_of, get_entrance}
use computing_api.Compose.{computing_gateway}
use computing_api.Base.Int.{of_bits, to_bits, wrap64, ◌+ℤ◌}

-- The list file names one application, whose yaml file is "a"; a URL has "http://" before its host.
abbrev listed : Site memory small ledger
unfolding text
listed = record site {
  unmarshal_models =
      λ s. ok (record { name = []; id = 1; path = b'a' ∷ []; gpu = []; mem = []; disk = [] } ∷ []);
  parse_url = λ s. ok (record { scheme = text "http"; host = drop 7 s });
}

-- A cluster with nothing on it that has been up for two seconds.
abbrev before : Here
before = record start { cluster = record { time = 2; running = λ n. false; serving = λ n. false } }

abbrev asked : Here
asked = record before {
  db = λ j. if str_eq (b'e' ∷ user) j then some (text "http://localhost:30080") else before.db j;
  cluster = record {
    time = 2;
    running = set_at (b'a' ∷ b'-' ∷ b'u' ∷ []) true (λ n. false);
    serving = set_at (text "svc-a-u") true (λ n. false);
  };
  chain = 1;
}

user_known : user_of listed (cookies_of listed request.cookie_headers) before ≡ ok user
unfolding user_of cookies_of listed
user_known = user_is_u

answered : handler_deploy_id listed gateway request before ≡ (ok deploy_ok, asked)
unfolding handler_deploy_id text get_path_by_id load_model find_path string_to_uint64 parse_uint
    or_zero parse_yaml_file parse_yaml parse_documents split_dashes add_object with_deployment
    deploy_on_node deploy_and_set select_node first_name uint64_to_string format_uint gateway
    computing_gateway get_order set_app open_market confirm deploy_app deploy rename deploy_renamed
    create_deployments create_services create_node_port_svc container_port node_port_of wait_all
    wait_ready wait_tries is_available put entrance_of
answered = rw user_known refl

user_known_later : user_of listed (cookies_of listed request.cookie_headers) asked ≡ ok user
unfolding user_of cookies_of listed
user_known_later = user_is_u

forwarded_later : handler_compute listed gateway request asked ≡ (
  ok (record {
    status = 200;
    body = forwarded (record { scheme = text "http"; host = text "localhost:30080" });
  }),
  asked,
)
unfolding handler_compute forward direct text string_to_uint64 parse_uint or_zero gateway
    computing_gateway get_order expire_check out_of_int64 order_end wrap64 to_bits of_bits ◌+ℤ◌
    get_entrance get
forwarded_later = rw user_known_later refl

entrances_read : ReadsEntrances listed
unfolding entrance_of text at_port format_uint
entrances_read ep = refl

handler_compute-handler_deploy_id_example :
    (deps : List Deployment) × (svcs : List Service) × (ep : EndPoint) × (deploy small deps svcs
        user before.cluster
      ≡ (ok ep, asked.cluster))
    × (record { scheme = text "http"; host = text "localhost:30080" } ≡ at_port ep)
unfolding computing_gateway gateway listed
handler_compute-handler_deploy_id_example =
    handler_compute-handler_deploy_id memory_laws listed settings request request before asked asked
      asked user (record { scheme = text "http"; host = text "localhost:30080" }) entrances_read
      answered user_known refl user_known_later forwarded_later

-- ===== src/Examples/Serving.antt =====
-- Requests to the servers, on the gateway over the small instances.
use computing_api.Http.Server.{Handler, Registration, Router, routes, serve}
use computing_api.Http.Server.Access.{ByKey, serve-Unknown}
use computing_api.Backend.{Session, process}
use computing_api.Backend.Service.Empty.{Service, process-service}
use computing_api.Std.Strings.{split_dashes}
use computing_api.Base.{
  Bool, List, Option, Str, [], arith, false, if◌then◌else◌, new, none, ok, refl, some, str_eq, text,
  true, ◌&&◌, ◌++◌, ◌∷◌, ◌≡◌, ◌⊎◌,
}
use computing_api.Base.Int.{of_bits, pos, to_bits, wrap64, ◌+ℤ◌}
use computing_api.Std.Strconv.{parse_uint}
use computing_api.Utils.{Model, string_to_uint64}
use computing_api.Cookie.{find_cookie}
use computing_api.Cookie.Issue.{find_cookie-make_cookie}
use computing_api.Kv.{get}
use computing_api.Kv.Memory.{memory}
use computing_api.Yaml.{
  add_object, parse_documents, parse_yaml, parse_yaml_url, path_ext, read_yaml_url, with_deployment,
}
use computing_api.Remote.{expire_check, get_order, order_end, out_of_int64}
use computing_api.Deploy.{svc_prefix}
use computing_api.Local.{check_auth_info, compute, get_entrance, test_whitelist_msg}
use computing_api.Compose.{computing_gateway}
use computing_api.Http.{Request, Site, cookies_of, forwarded, inject_cookie, msg_error, user_of}
use computing_api.Http.Deploying.{handler_deploy_url}
use computing_api.Http.Computing.{direct, handler_compute}
use computing_api.Http.Access.{handler_compute_iff}
use computing_api.Http.Redeploy.{deployed_name, handler_deploy_url-exists}
use computing_api.Examples.{
  Cluster, active_order, cookies, gateway, ledger, named_deployment, plain_documents, request,
  set_at, settings, site, small, toy, user, start,
}

-- At second 1050 the cookie header "u" names the user "u".
pub user_is_u : user_of site (cookies_of site (user ∷ [])) start ≡ ok user
unfolding user_of cookies_of ◌+ℤ◌
user_is_u =
    (find_cookie-make_cookie toy cookies (pos 1000) (pos 1050) user [] (omega arith, omega arith)).1
      (omega arith)

-- A request for compute whose id is 1.
handler_compute_iff_example : handler_compute site gateway request start ≡ (
  ok (record {
    status = 200;
    body = forwarded (record { scheme = text "http"; host = b'h' ∷ [] });
  }),
  start,
)
unfolding string_to_uint64 parse_uint get_order expire_check out_of_int64 order_end wrap64 to_bits
    of_bits ◌+ℤ◌ get_entrance get direct text computing_gateway
handler_compute_iff_example =
    (handler_compute_iff site gateway request start start
        (record { scheme = text "http"; host = b'h' ∷ [] })).1
      (
        user,
        active_order,
        b'h' ∷ [],
        record { scheme = []; host = b'h' ∷ [] },
        user_is_u,
        refl,
        refl,
        refl,
        refl,
        refl,
        refl,
        refl,
      )

abbrev stranger : Request
stranger = record request { cookie_headers = [] }

-- The application of the user is deleted from the cluster.
abbrev unserved : Cluster
unserved = record start.cluster {
  running = set_at (deployed_name small request.url user) false start.cluster.running;
}

abbrev deleted : Cluster
deleted = record unserved {
  serving = set_at (svc_prefix ++ deployed_name small request.url user) false unserved.serving;
}

handler_deploy_url-exists_example : handler_deploy_url site gateway request start ≡ (
  ok (record {
    status = 500;
    body = msg_error "[Fail] Failed to deploy" (new "svc exists, deploy cancelled");
  }),
  record start { cluster = deleted },
)
unfolding inject_cookie text parse_yaml_url parse_yaml read_yaml_url path_ext split_dashes
    parse_documents add_object with_deployment computing_gateway
handler_deploy_url-exists_example =
    handler_deploy_url-exists toy settings site request start user (named_deployment request.url) []
      [] unserved deleted user_is_u (λ e. cc) refl refl refl refl

abbrev no_answer : Str
no_answer = []

-- A list file with one model, whose yaml file holds no deployment.
abbrev listed : Model
listed = record { name = []; id = 1; path = b'p' ∷ []; gpu = []; mem = []; disk = [] }

abbrev bare_site : Site memory small ledger
bare_site = record site {
  decoder = record plain_documents { kind_of = λ j. some [] };
  unmarshal_models = λ s. ok (listed ∷ []);
}

-- A router that compares the texts.
abbrev takes : Option Str → Str → Bool
takes none method = true
takes (some m) method = str_eq m method

abbrev find_route : List Registration → Str → Str → Option Handler
find_route [] method path = none
find_route (r ∷ rs) method path =
    let rest = find_route rs method path in
    if takes r.method method && str_eq r.path path then some r.handler else rest

abbrev pub router : Router
router = record { find = find_route; no_route = λ method path. 404 }

serve-Unknown_example :
    ((h : Handler) × (router.find routes (text "GET") (text "/greet/clean") ≡ some h) × ByKey h)
    ⊎ ((serve router site gateway (text "GET") (text "/greet/clean") [] stranger start).1 ≡ start)
unfolding user_of cookies_of inject_cookie find_cookie
serve-Unknown_example =
    serve-Unknown router site gateway (text "GET") (text "/greet/clean") [] stranger start
      (refl, refl)

abbrev nothing_back : Str
nothing_back = []

abbrev caller : Session (Service toy memory small ledger settings)
caller = record {
  cp = record { c = some 0; c_close_func = some 0; greet_to = pos 1; process_to = pos 1 };
  net = start;
}

process-service_example :
    (check_auth_info toy
        (pos 300)
        (pos 1050)
        (record { address = user; sig = []; msg = test_whitelist_msg })
      ≡ ok true)
    × (nothing_back ≡ [])
    × (caller.net ≡ caller.net)
    × (caller.cp ≡ caller.cp)
unfolding process computing_gateway check_auth_info get_entrance get compute text
    computing_api.Rpc.process
process-service_example =
    process-service toy memory small ledger settings user test_whitelist_msg [] nothing_back caller
      caller refl

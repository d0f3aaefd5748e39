-- ===== src/Yaml.antt =====
-- computing/deploy/decyaml/decyaml.go: deployments and services out of the documents of a yaml file.
pub mod Laws
use computing_api.Base.{
  Bool, List, Option, Result, Str, [], bind, err, false, if◌then◌else◌, new, none, not, ok, panic,
  rescue, some, str_eq, text, wrap, ◌&&◌, ◌*◌, ◌==◌, ◌||◌, ◌∷◌,
}
use computing_api.Std.Strings.{is_empty, split_dashes}
use computing_api.Kube.{Deployment, Service}
use computing_api.Base.Int.{ltb_ℤ, pos, ℤ}

-- `ToJSON`, `json.Unmarshal` and the web are parameters.
pub record Decoder : Type 1 where
  pub Json : Type 0
  pub to_json : Str → Result Json
  -- The value of "kind" if the document is a map (empty if the map has none); `none` if it is no map.
  pub kind_of : Json → Option Str
  pub deployment_of : Json → Result Deployment
  pub service_of : Json → Result Service

pub record Objects : Type 0 where
  pub deps : List Deployment
  pub svcs : List Service

abbrev pub no_objects : Objects
no_objects = record { deps = []; svcs = [] }

abbrev pub deployment_kind : Str
deployment_kind = text "Deployment"

abbrev pub service_kind : Str
service_kind = text "Service"

unfoldable pub with_deployment : Deployment → Objects → Objects
with_deployment dep o =
    if str_eq dep.kind deployment_kind then record o { deps = dep ∷ o.deps } else o

unfoldable pub with_service : Service → Objects → Objects
with_service svc o = if str_eq svc.kind service_kind then record o { svcs = svc ∷ o.svcs } else o

module _ (dec : Decoder) where
  -- A document's object in front of the objects of the documents behind it. An error of a decoder
  -- ends the process (`log.Fatal`).
  unfoldable pub add_object : Str → dec.Json → Result Objects → Result Objects
  unfolding with_deployment with_service
  add_object kind obj rest =
      if str_eq kind deployment_kind
      then rescue (dec.deployment_of obj) (λ _. panic "log.Fatal")
          (λ dep. bind rest (λ o. ok (with_deployment dep o)))
      else if str_eq kind service_kind
      then rescue (dec.service_of obj) (λ _. panic "log.Fatal")
          (λ svc. bind rest (λ o. ok (with_service svc o)))
      else rest

  abbrev pub by_kind : dec.Json → Result Objects → Option Str → Result Objects
  by_kind obj rest none = panic "failed to parse JSON"
  by_kind obj rest (some kind) = add_object kind obj rest

  unfoldable pub parse_documents : List Str → Result Objects
  unfolding add_object
  parse_documents [] = ok no_objects
  parse_documents (value ∷ values) =
      let rest = parse_documents values in
      rescue (dec.to_json value) (λ _. panic "log.Fatal")
        (λ obj. by_kind obj rest (dec.kind_of obj))

  unfoldable pub parse_yaml : Str → Result Objects
  unfolding parse_documents split_dashes
  parse_yaml contents = parse_documents (split_dashes [] contents)

abbrev has_slash : Str → Bool
has_slash [] = false
has_slash (c ∷ s) = c == b'/' || has_slash s

-- `path.Ext`: from the last dot of the last element of the path.
unfoldable pub path_ext : Str → Str
path_ext [] = []
path_ext (c ∷ s) =
    let later = path_ext s in
    if not (is_empty later) then later else if c == b'.' && not (has_slash s) then c ∷ s else []

-- What the web answers for a url: its path, the length that a HEAD request is told (-1 for an unknown
-- one), and the body.
pub record Page : Type 0 where
  pub url_path : Result Str
  pub content_length : Result ℤ
  pub body : Result Str

-- `ReadYamlUrl`; the limit is 1 MiB.
unfoldable pub read_yaml_url : Page → Result Str
unfolding path_ext
read_yaml_url page = bind page.url_path λ url_path.
    if not (str_eq (path_ext url_path) (text ".yaml"))
      && not (str_eq (path_ext url_path) (text ".yml"))
    then err (new "file ext in url is invalid, should be .yaml or .yml file")
    else bind page.content_length λ fsize.
      if ltb_ℤ (pos (1024 * 1024)) fsize
      then err (new "yaml file is too big, limited to 1 Mib")
      else page.body

-- The decoder that `GetDecoder` makes, into a deployment and into a namespace, of which the name is
-- kept.
pub record ObjectDecoder : Type 0 where
  pub decode_deployment : Str → Result Deployment
  pub decode_namespace : Str → Result Str

unfoldable dec_deployment : ObjectDecoder → Str → Result Deployment
dec_deployment decoder content = bind (decoder.decode_deployment content) ok

unfoldable dec_namespace : ObjectDecoder → (Str → Result Str) → Str → Result Str
dec_namespace decoder read_file yaml =
    bind (read_file yaml) λ namespace_yaml. bind (decoder.decode_namespace namespace_yaml) ok

unfoldable read_yaml_file : (Str → Result Str) → Str → Result Str
read_yaml_file read_file file = bind (read_file file) ok

-- `ParseYamlFile` and `ParseYamlUrl` of computing/deploy/deploy.go.
unfoldable pub parse_yaml_file : Decoder → Result Str → Result Objects
parse_yaml_file dec file =
    bind file
      λ contents. rescue (parse_yaml dec contents) (λ e. err (wrap "parse yaml failed" e)) ok

unfoldable pub parse_yaml_url : Decoder → Page → Result Objects
parse_yaml_url dec page = bind (read_yaml_url page) (parse_yaml dec)

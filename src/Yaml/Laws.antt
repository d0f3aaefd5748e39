-- ===== src/Yaml/Laws.antt =====
-- Which pages are read.
use computing_api.Base.{
  Bool, Error, Result, Str, arith, bind-eq-ok, err, if◌then◌else◌, not, ok, str_eq, text, true,
  ◌&&◌, ◌*◌, ◌||◌, ◌↔◌, ◌≡◌,
}
use computing_api.Yaml.{Page, path_ext, read_yaml_url}
use computing_api.Base.Int.{ltb_ℤ, pos, ℤ, ◌≤ℤ◌}

read_guard :
    (yaml yml : Bool) (e : Error) (next : Result Str) {body : Str}
    → (if not yaml && not yml then err e else next) ≡ ok body
    → ((yaml || yml) ≡ true) × (next ≡ ok body)
read_guard yaml yml e next h = ground arith

size_guard :
    (fsize : ℤ) (e : Error) (next : Result Str) {body : Str}
    → (if ltb_ℤ (pos (1024 * 1024)) fsize then err e else next) ≡ ok body
    → (fsize ≤ℤ pos 1048576) × (next ≡ ok body)
size_guard fsize e next h = ground arith

-- `ReadYamlUrl` returns a text exactly when the URL parses to a path that ends in .yaml or .yml, the
-- answer to the HEAD request is a length of at most 1 MiB (or an unknown one), and the body is that
-- text, whatever its own length.
read_yaml_url_iff :
    (page : Page) (body : Str)
    → (read_yaml_url page ≡ ok body) ↔ (
        (url_path : Str) × (fsize : ℤ) × (page.url_path ≡ ok url_path)
        × ((str_eq (path_ext url_path) (text ".yaml") || str_eq (path_ext url_path) (text ".yml"))
            ≡ true)
        × (page.content_length ≡ ok fsize)
        × (fsize ≤ℤ pos 1048576)
        × (page.body ≡ ok body))
unfolding read_yaml_url
read_yaml_url_iff page body = (
  λ h.
      let (path, named, h1) = bind-eq-ok page.url_path _ h in
      let (ext, h2) =
        read_guard (str_eq (path_ext path) (text ".yaml")) (str_eq (path_ext path) (text ".yml")) _
          _ h1 in
      let (fsize, asked, h3) = bind-eq-ok page.content_length _ h2 in
      let (small, h4) = size_guard fsize _ _ h3 in (path, fsize, named, ext, asked, small, h4),
  λ (path, fsize, named, ext, asked, small, got). ground arith,
)

-- ===== src/Utils.antt =====
-- lib/utils/utils.go: numbers in text, and the list file that names the yaml files.
pub mod Laws
use computing_api.Base.{
  Exec, List, Result, Str, [], attempt, bind, err, if◌then◌else◌, new, ok, panic, pure, raise,
  rescue, wrap, ℕ, ◌==◌, ◌∷◌,
}
use computing_api.Std.Strconv.{format_uint, parse_uint}

-- `StringToUint64` gives 0 beside its error; callers that ignore the error go on with `or_zero`.
unfoldable pub string_to_uint64 : Str → Result ℕ
string_to_uint64 s = parse_uint s

unfoldable pub or_zero : Result ℕ → ℕ
or_zero (ok n) = n
or_zero _ = 0

unfoldable pub uint64_to_string : ℕ → Str
uint64_to_string u = format_uint u

pub record Model : Type 0 where
  pub name : Str
  pub id : ℕ
  pub path : Str
  pub gpu : Str
  pub mem : Str
  pub disk : Str

-- `LoadModel`: `os.ReadFile`, its error under a text of its own.
unfoldable pub load_model : Result Str → Result Str
load_model read = rescue read (λ e. err (wrap "error reading JSON" e)) ok

-- `SaveYaml`, given how `os.WriteFile` ends.
unfoldable pub save_yaml :
    {W : Type 0} → (Str → Str → Exec W (Unit {0})) → Str → Str → Exec W (Unit {0})
save_yaml write_file encoded path =
    attempt (write_file path encoded) (λ e. raise (wrap "error writing JSON" e)) pure

-- The loop over the models of the list file.
unfoldable pub find_path : ℕ → List Model → Result Str
find_path id [] = err (new "yaml id not found")
find_path id (yaml ∷ models) = if yaml.id == id then ok yaml.path else find_path id models

-- `GetPathByID`, given the list file (or the error of reading it) and `json.Unmarshal`. A list file
-- that is no list of models is a panic.
unfoldable pub get_path_by_id : (Str → Result (List Model)) → Result Str → Str → Result Str
unfolding load_model find_path
get_path_by_id unmarshal file id = bind (string_to_uint64 id) λ u.
    bind (load_model file)
      λ list_data. rescue (unmarshal list_data) (λ _. panic "json.Unmarshal") (find_path u)

-- ===== src/Config.antt =====
-- computing/config/config.go: the configuration, its required fields, and writing it back.
pub mod Laws
use computing_api.Base.{
  Bool, Exec, List, Result, Str, String, [], bind, err, if◌then◌else◌, not, ok, panic, rescue, true,
  wrap, ◌>>=◌, ◌>>◌, ◌∷◌,
}
use computing_api.Base.Int.{ℤ}

-- The configuration's sections, flat: `[Grpc] Listen`, `[Http] Listen, HSKey, CookieExpire`,
-- `[Local] DBPath, SignExpire`, `[Remote] KeyStore, Wallet`, `[Validator] Url`.
pub record GatewayConfig : Type 0 where
  pub grpc_listen : Str
  pub http_listen : Str
  pub hs_key : Str
  pub cookie_expire : ℤ
  pub db_path : Str
  pub sign_expire : ℤ
  pub key_store : Str
  pub wallet : Str
  pub validator_url : Str

-- What the toml library makes of a file: the configuration, and which keys the file has.
pub record Decoded : Type 0 where
  pub config : GatewayConfig
  pub is_defined : List String → Bool

-- The file config.toml in the working directory, and the toml library at work on it.
pub record Toml : Type 1 where
  pub State : Type 0
  pub decode_file : State → Result Decoded
  -- `OpenFile` with `O_WRONLY|O_TRUNC`: the file is empty after it.
  pub open_truncated : Exec State (Unit {0})
  pub encode : GatewayConfig → Exec State (Unit {0})

abbrev pub required_fields : List (List String)
required_fields =
    ("Grpc" ∷ [])
    ∷ ("Local" ∷ [])
    ∷ ("Remote" ∷ [])
    ∷ ("Http" ∷ [])
    ∷ ("Grpc" ∷ "Listen" ∷ [])
    ∷ ("Http" ∷ "Listen" ∷ [])
    ∷ ("Http" ∷ "HSKey" ∷ [])
    ∷ ("Http" ∷ "CookieExpire" ∷ [])
    ∷ ("Local" ∷ "DBPath" ∷ [])
    ∷ ("Local" ∷ "SignExpire" ∷ [])
    ∷ ("Remote" ∷ "KeyStore" ∷ [])
    ∷ ("Remote" ∷ "Wallet" ∷ [])
    ∷ ("Validator" ∷ "Url" ∷ [])
    ∷ []

-- The loop over the required fields: the first one that is missing ends the process.
unfoldable pub fields_are_given : (List String → Bool) → List (List String) → Result Bool
fields_are_given is_defined [] = ok true
fields_are_given is_defined (v ∷ fields) =
    let rest = fields_are_given is_defined fields in
    if not (is_defined v) then panic "log.Fatal: Required fields" else rest

unfoldable pub required_fields_are_given : (List String → Bool) → Result Bool
unfolding fields_are_given
required_fields_are_given is_defined = fields_are_given is_defined required_fields

module _ (toml : Toml) where
  -- `InitConfig`, whose error ends the process at start-up.
  unfoldable pub init_config : toml.State → Result GatewayConfig
  unfolding required_fields_are_given
  init_config s =
      rescue (toml.decode_file s) (λ e. err (wrap "failed load config file" e))
        λ loaded. bind (required_fields_are_given loaded.is_defined) λ given.
          if not given then panic "log.Fatal: Required fields not given" else ok loaded.config

  -- `init`: what `GetConfig` returns from then on.
  unfoldable start_config : toml.State → Result GatewayConfig
  unfolding init_config
  start_config s = rescue (init_config s) (λ _. panic "log.Fatalf: failed to init the config") ok

  unfoldable pub write_conf : GatewayConfig → Exec toml.State (Unit {0})
  write_conf conf = do toml.open_truncated; toml.encode conf

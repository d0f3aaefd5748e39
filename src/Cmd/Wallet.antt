-- ===== src/Cmd/Wallet.antt =====
-- computing/app/http/cmd/wallet.go: the wallet commands, over the key store and the configuration.
pub mod Laws
use computing_api.Base.{
  Exec, List, Result, Str, [], if◌then◌else◌, ignore, lift, new, not, pure, raise, reads, str_eq,
  ◌>>=◌, ◌>>◌,
}
use computing_api.Keystore.Files.{Files}
use computing_api.Keystore.Store.{
  Codec, KeyInfo, address_of, delete, exist, get, import_key, list, new_key, new_key_store, put,
  sk_of,
}
use computing_api.Config.{GatewayConfig, Toml, write_conf}

-- The key files, the configuration in memory, and the configuration file.
pub record Home (fs : Files) (toml : Toml) : Type 0 where
  pub files : fs.State
  pub conf : GatewayConfig
  pub saved : toml.State

module _ {fs : Files} {toml : Toml} {A : Type 0} where
  abbrev pub on_files : Exec fs.State A → Exec (Home fs toml) A
  on_files m h = let (r, s) = m h.files in (r, record h { files = s })

  abbrev pub on_saved : Exec toml.State A → Exec (Home fs toml) A
  on_saved m h = let (r, s) = m h.saved in (r, record h { saved = s })

module _ (fs : Files) (toml : Toml) (codec : Codec) (address_of_secret : Str → Str)
    (repo_path : Str) where
  -- Sets the wallet in memory and writes the configuration file, whose error is thrown away.
  unfoldable pub save_wallet : Str → Exec (Home fs toml) (Unit {0})
  save_wallet address h =
      let h' : Home fs toml = record h { conf = record h.conf { wallet = address } } in
      ignore (on_saved (write_conf toml h'.conf)) h'

  -- What `init` and `import` do with a key; the error of `Put` is thrown away.
  unfoldable pub store_key : Str → Str → Str → KeyInfo → Exec (Home fs toml) (Unit {0})
  unfolding save_wallet
  store_key salt iv pw ki = do
    ignore (on_files (put fs codec repo_path salt iv (address_of address_of_secret ki) pw ki))
    save_wallet (address_of address_of_secret ki)

  -- `initCmd`; the key is what the generation of a key gives, and `salt` and `iv` are random.
  unfoldable pub init_cmd : Result Str → Str → Str → Str → Exec (Home fs toml) (Unit {0})
  unfolding store_key
  init_cmd generated salt iv pw =
      if str_eq pw []
      then raise (new "the password of the wallet must be given")
      else (on_files (new_key_store fs repo_path) >> lift (new_key generated) >>= λ ki.
          store_key salt iv pw ki)

  -- `importCmd`
  unfoldable pub import_cmd : Str → Str → Str → Str → Exec (Home fs toml) (Unit {0})
  unfolding store_key
  import_cmd salt iv sk pw =
      if str_eq sk []
      then raise (new "a sk must be given")
      else if str_eq pw []
      then raise (new "the password of the wallet must be given")
      else (on_files (new_key_store fs repo_path) >> lift (import_key sk) >>= λ ki.
          store_key salt iv pw ki)

  -- `useCmd`
  unfoldable pub use_cmd : Str → Exec (Home fs toml) (Unit {0})
  unfolding save_wallet
  use_cmd addr =
      if str_eq addr []
      then raise (new "an wallet address must be given")
      else (on_files (new_key_store fs repo_path)
          >> reads (λ h. exist fs codec repo_path addr h.files)
          >>= λ b. if not b then raise (new "this wallet is not exists") else save_wallet addr)

  -- `showCmd`: the text that is printed.
  unfoldable pub show_cmd : Str → Str → Exec (Home fs toml) Str
  show_cmd addr pw =
      if str_eq addr []
      then raise (new "a sk must be given")
      else (on_files (new_key_store fs repo_path)
          >> reads (λ h. get fs codec repo_path addr pw h.files)
          >>= λ ki. pure (sk_of ki))

  -- `listCmd`: the names that are printed.
  unfoldable pub list_cmd : Exec (Home fs toml) (List Str)
  list_cmd = on_files (new_key_store fs repo_path) >> reads (λ h. list fs codec repo_path h.files)

  -- `delCmd`: the configuration keeps the address.
  unfoldable pub del_cmd : Str → Str → Exec (Home fs toml) (Unit {0})
  del_cmd addr pw =
      if str_eq addr []
      then raise (new "an wallet address must be given")
      else (on_files (new_key_store fs repo_path) >> on_files (delete fs codec repo_path addr pw))

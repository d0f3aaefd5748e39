-- ===== src/Keystore/Store.antt =====
-- keystore/keystore.go, keyinfo.go and types.go: the store of keys in a directory.
pub mod Laws
pub mod Reading
use computing_api.Base.{
  Bool, Exec, List, Result, Str, [], attempt, bind, branch, crash, err, false, if◌then◌else◌,
  ignore, lift, new, not, ok, pure, raise, reads, rescue, str_eq, text, wrap, ℕ, ◌++◌, ◌>>=◌, ◌>>◌,
  ◌||◌, ◌∷◌,
}
use computing_api.Std.Hex.{hex_decode, hex_encode}
use computing_api.Keystore.Passphrase.{
  Sealing, decrypt_key, encrypt_key, standard_scrypt_n, standard_scrypt_p,
}
use computing_api.Keystore.Files.{Files}

pub record KeyInfo : Type 0 where
  pub type : ℕ
  pub secret_key : Str

-- `Secp256k1`, the second of the key types
abbrev pub secp256k1 : ℕ
secp256k1 = 1

-- `NewKey`, given what the generation of a key gives.
unfoldable pub new_key : Result Str → Result KeyInfo
new_key generated = bind generated λ b. ok (record { type = secp256k1; secret_key = b })

unfoldable pub import_key : Str → Result KeyInfo
import_key sk = bind (hex_decode sk) λ b. ok (record { type = secp256k1; secret_key = b })

-- `KeyInfo.SK`
unfoldable pub sk_of : KeyInfo → Str
sk_of ki = hex_encode ki.secret_key

-- `KeyInfo.Address`; `address_of_secret` is the work of btcec and go-ethereum.
unfoldable pub address_of : (Str → Str) → KeyInfo → Str
address_of address_of_secret ki = address_of_secret ki.secret_key

-- The libraries: encryption, and the JSON of a `KeyInfo`.
pub record Codec : Type 0 where
  pub sealing : Sealing
  pub marshal_info : KeyInfo → Result Str
  pub unmarshal_info : Str → Result KeyInfo

module _ (fs : Files) where
  unfoldable pub join_path : Str → Str → Str
  join_path dir filename = if fs.is_abs filename then filename else fs.join dir filename

  -- A write that fails removes the temporary file, and its error is thrown away.
  unfoldable pub write_temporary_key_file : Str → Str → Exec fs.State Str
  write_temporary_key_file file content = do
    fs.mkdir_all (fs.dir_of file)
    name ← fs.temp_file (fs.dir_of file) (b'.' ∷ fs.base_of file ++ text ".tmp")
    attempt (fs.write name content) (λ e. ignore (fs.remove name) >> raise e) (λ _. pure name)

  unfoldable pub write_key_file : Str → Str → Exec fs.State (Unit {0})
  unfolding write_temporary_key_file
  write_key_file file content = do name ← write_temporary_key_file file content; fs.rename name file

  unfoldable pub new_key_store : Str → Exec fs.State Str
  new_key_store path = do fs.mkdir_all path; pure path

  -- `init`: the store of the configured path.
  unfoldable open_repo : Str → Exec fs.State Str
  unfolding new_key_store
  open_repo repo_path = attempt (new_key_store repo_path) (λ _. crash "NewKeyStore") pure

  -- `Close` does nothing.
  unfoldable close : Exec fs.State (Unit {0})
  close = pure tt

module _ (fs : Files) (codec : Codec) (path : Str) where
  -- A file that is there is kept as it is, and the call succeeds. `salt` and `iv` are random.
  unfoldable pub put : Str → Str → Str → Str → KeyInfo → Exec fs.State (Unit {0})
  unfolding write_key_file join_path
  put salt iv name auth info = do
    s_data ← lift (codec.marshal_info info)
    key_json ← lift (
        encrypt_key codec.sealing salt iv (record { address = name; secret_value = s_data }) auth
          standard_scrypt_n standard_scrypt_p)
    (λ s.
        branch (fs.stat (join_path fs path name) s)
          (λ _. write_key_file fs (join_path fs path name) key_json) (λ _. pure tt) s)

  unfoldable pub get : Str → Str → fs.State → Result KeyInfo
  unfolding join_path
  get name auth s = bind (fs.read_file (join_path fs path name) s) λ key_json.
      bind (decrypt_key codec.sealing key_json auth) λ key.
        if not (str_eq key.address name)
        then err (new "key content mismatch")
        else rescue (codec.unmarshal_info key.secret_value) (λ e. err (wrap "decoding key" e)) ok

  unfoldable pub list : fs.State → Result (List Str)
  list s = fs.read_dir path s

  abbrev pub has_name : Str → List Str → Bool
  has_name name [] = false
  has_name name (v ∷ l) = str_eq v name || has_name name l

  unfoldable pub exist : Str → fs.State → Result Bool
  unfolding list
  exist name s = bind (list s) λ l. ok (has_name name l)

  unfoldable pub delete : Str → Str → Exec fs.State (Unit {0})
  unfolding get join_path
  delete name auth = do ki ← reads (get name auth); fs.remove (join_path fs path name)

-- `LoadKeyFile`: the secret of a key file in hex, or all that the file seals where that is no
-- `KeyInfo`.
unfoldable pub load_key_file : (fs : Files) → Codec → Str → Str → fs.State → Result Str
load_key_file fs codec password path s = bind (fs.read_file path s) λ key_json.
    bind (decrypt_key codec.sealing key_json password) λ key.
      rescue (codec.unmarshal_info key.secret_value) (λ _. ok (hex_encode key.secret_value))
        (λ res. ok (hex_encode res.secret_key))

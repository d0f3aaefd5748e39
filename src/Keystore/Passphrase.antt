-- ===== src/Keystore/Passphrase.antt =====
-- keystore/passphrase.go: the encryption of a key under a password, and its decryption.
pub mod Laws
use computing_api.Base.{
  Result, Str, [], bind, drop, err, if◌then◌else◌, length, ltb, new, not, ok, panic, str_eq, take,
  ◌++◌, ◌^◌, ◌∷◌,
}
use computing_api.Base.Int.{eq_ℤ, pos, ℤ}
use computing_api.Std.Hex.{hex_decode, hex_encode}

pub record Key : Type 0 where
  pub address : Str
  pub secret_value : Str

-- An `interface{}` in the parameters of the key derivation. A number that JSON was read into is a
-- float64; of it stands here the integer that `int(…)` makes of it.
pub data Value : Type 0 where
  int : ℤ → Value
  float64 : ℤ → Value
  string : Str → Value
  other : Value

pub record KdfParams : Type 0 where
  pub n : Value
  pub r : Value
  pub p : Value
  pub dklen : Value
  pub salt : Value

-- `encryptedKeyJSONV3` with its `cryptoJSON` and `cipherparamsJSON`.
pub record EncryptedKey : Type 0 where
  pub address : Str
  pub cipher : Str
  pub cipher_text : Str
  pub iv : Str
  pub kdf : Str
  pub kdf_params : KdfParams
  pub mac : Str
  pub version : ℤ

-- A block cipher: what its key stream, in counter mode from an initial vector (`cipher.NewCTR`, a
-- panic for a vector of another length than a block), makes of a text.
pub record Block : Type 0 where
  pub xor_key_stream : Str → Str → Result Str

-- The libraries. `scrypt` gives the array behind the derived key, up to its capacity.
pub record Sealing : Type 0 where
  pub scrypt : Str → Str → ℤ → ℤ → ℤ → ℤ → Result Str
  pub blake3 : Str → Str
  pub new_cipher : Str → Result Block
  pub marshal : EncryptedKey → Result Str
  pub unmarshal : Str → Result EncryptedKey

abbrev pub aes_128_ctr : Str
aes_128_ctr = b'a' ∷ b'e' ∷ b's' ∷ b'-' ∷ b'1' ∷ b'2' ∷ b'8' ∷ b'-' ∷ b'c' ∷ b't' ∷ b'r' ∷ []

abbrev pub key_header_kdf : Str
key_header_kdf = b's' ∷ b'c' ∷ b'r' ∷ b'y' ∷ b'p' ∷ b't' ∷ []

abbrev pub key_version : ℤ
key_version = pos 3

abbrev pub standard_scrypt_n : ℤ
standard_scrypt_n = pos (2 ^ 18)

abbrev pub standard_scrypt_p : ℤ
standard_scrypt_p = pos 1

abbrev pub scrypt_r : ℤ
scrypt_r = pos 8

abbrev pub scrypt_dk_len : ℤ
scrypt_dk_len = pos 32

-- `derivedKey[16:32]` and `derivedKey[:16]`
abbrev pub mac_key : Str → Result Str
mac_key dk =
    if ltb (length dk) 32 then panic "slice bounds out of range" else ok (take 16 (drop 16 dk))

abbrev pub cipher_key : Str → Result Str
cipher_key dk = if ltb (length dk) 16 then panic "slice bounds out of range" else ok (take 16 dk)

unfoldable pub ensure_int : Value → Result ℤ
ensure_int (int z) = ok z
ensure_int (float64 z) = ok z
ensure_int _ = panic "interface conversion: interface {} is not float64"

abbrev pub ensure_string : Value → Result Str
ensure_string (string s) = ok s
ensure_string _ = panic "interface conversion: interface {} is not string"

module _ (lib : Sealing) where
  unfoldable pub aes_ctr_xor : Str → Str → Str → Result Str
  aes_ctr_xor key in_text iv =
      bind (lib.new_cipher key) λ aes_block. aes_block.xor_key_stream iv in_text

  -- `salt` and `iv` are what `getEntropyCSPRNG` gives in this call.
  unfoldable pub encrypt_key : Str → Str → Key → Str → ℤ → ℤ → Result Str
  unfolding aes_ctr_xor
  encrypt_key salt iv key password scrypt_n scrypt_p =
      bind (lib.scrypt password salt scrypt_n scrypt_r scrypt_p scrypt_dk_len) λ derived_key.
        bind (cipher_key derived_key) λ encrypt_key.
          bind (aes_ctr_xor encrypt_key key.secret_value iv) λ cipher_text.
            bind (mac_key derived_key) λ half. lib.marshal (record {
              address = key.address;
              cipher = aes_128_ctr;
              cipher_text = hex_encode cipher_text;
              iv = hex_encode iv;
              kdf = key_header_kdf;
              kdf_params = record {
                n = int scrypt_n;
                r = int scrypt_r;
                p = int scrypt_p;
                dklen = int scrypt_dk_len;
                salt = string (hex_encode salt);
              };
              mac = hex_encode (lib.blake3 (half ++ cipher_text));
              version = key_version;
            })

  unfoldable pub get_kdf_key : EncryptedKey → Str → Result Str
  unfolding ensure_int
  get_kdf_key k password = bind (ensure_string k.kdf_params.salt) λ encoded.
      bind (hex_decode encoded) λ salt. bind (ensure_int k.kdf_params.dklen) λ dk_len.
        if str_eq k.kdf key_header_kdf
        then (bind (ensure_int k.kdf_params.n) λ n.
            bind (ensure_int k.kdf_params.r)
              λ r. bind (ensure_int k.kdf_params.p) λ p. lib.scrypt password salt n r p dk_len)
        else err (new "unsupported KDF")

  unfoldable pub decrypt_key_v3 : EncryptedKey → Str → Result Str
  unfolding get_kdf_key aes_ctr_xor
  decrypt_key_v3 k password =
      if not (eq_ℤ k.version key_version)
      then err (new "version not supported")
      else if not (str_eq k.cipher aes_128_ctr)
      then err (new "cipher not supported")
      else bind (hex_decode k.mac) λ mac. bind (hex_decode k.iv) λ iv.
        bind (hex_decode k.cipher_text) λ cipher_text. bind (get_kdf_key k password) λ derived_key.
          bind (mac_key derived_key) λ half.
            if not (str_eq (lib.blake3 (half ++ cipher_text)) mac)
            then err (new "could not decrypt key with given passphrase")
            else bind (cipher_key derived_key) λ key. aes_ctr_xor key cipher_text iv

  unfoldable pub decrypt_key : Str → Str → Result Key
  unfolding decrypt_key_v3
  decrypt_key key_json password = bind (lib.unmarshal key_json) λ k.
      bind (decrypt_key_v3 k password)
        λ key_bytes. ok (record { address = k.address; secret_value = key_bytes })

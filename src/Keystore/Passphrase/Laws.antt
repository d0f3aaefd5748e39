-- ===== src/Keystore/Passphrase/Laws.antt =====
-- What a password opens.
use computing_api.Base.{IsAscii, IsBytes, Str, arith, bind-eq-ok, ok, refl, str_eq_refl, ◌++◌, ◌≡◌}
use computing_api.Base.Int.{pos, ℤ, ◌≤ℤ◌}
use computing_api.Std.Hex.{hex_encode}
use computing_api.Std.Hex.RoundTrip.{hex_decode-hex_encode, hex_encode-IsAscii}
use computing_api.Keystore.Passphrase.{
  Block, EncryptedKey, Key, Sealing, Value, aes_128_ctr, aes_ctr_xor, cipher_key, decrypt_key,
  encrypt_key, float64, int, key_header_kdf, key_version, mac_key, scrypt_dk_len, scrypt_r, string,
}

-- JSON gives a number back as a float64.
abbrev pub reread_value : Value → Value
reread_value (int z) = float64 z
reread_value v = v

abbrev pub reread : EncryptedKey → EncryptedKey
reread k = record k {
  kdf_params = record {
    n = reread_value k.kdf_params.n;
    r = reread_value k.kdf_params.r;
    p = reread_value k.kdf_params.p;
    dklen = reread_value k.kdf_params.dklen;
    salt = reread_value k.kdf_params.salt;
  };
}

-- A number that a float64 keeps as it is.
abbrev pub IsExact : ℤ → Type 0
IsExact z = (pos 0 ≤ℤ z) × (z ≤ℤ pos 9007199254740992)

-- A number or a text that JSON keeps.
pub data IsKept : Value → Type 0 where
  kept_int : {z : ℤ} → IsExact z → IsKept (int z)
  kept_string : {s : Str} → IsAscii s → IsKept (string s)

-- A sealed key that JSON keeps: its texts are ASCII (encoding/json replaces what is not UTF-8), and
-- its numbers are small enough for a float64.
pub record IsPlain (k : EncryptedKey) : Type 0 where
  pub address : IsAscii k.address
  pub cipher : IsAscii k.cipher
  pub cipher_text : IsAscii k.cipher_text
  pub iv : IsAscii k.iv
  pub kdf : IsAscii k.kdf
  pub mac : IsAscii k.mac
  pub n : IsKept k.kdf_params.n
  pub r : IsKept k.kdf_params.r
  pub p : IsKept k.kdf_params.p
  pub dklen : IsKept k.kdf_params.dklen
  pub salt : IsKept k.kdf_params.salt

-- What the program relies on: AES in counter mode undoes itself, a plain key that JSON was made from
-- is read back from it, and what the libraries give are bytes.
pub record SealingLaws (lib : Sealing) : Type 0 where
  pub aes_law :
      (key : Str) (block : Block) (plain iv cipher : Str)
      → lib.new_cipher key ≡ ok block
      → block.xor_key_stream iv plain ≡ ok cipher
      → block.xor_key_stream iv cipher ≡ ok plain
  pub json_law :
      (k : EncryptedKey) (j : Str)
      → IsPlain k
      → lib.marshal k ≡ ok j
      → lib.unmarshal j ≡ ok (reread k)
  pub aes-IsBytes :
      (key : Str) (block : Block) (plain iv cipher : Str)
      → lib.new_cipher key ≡ ok block
      → block.xor_key_stream iv plain ≡ ok cipher
      → IsBytes cipher
  pub blake3-IsBytes : (s : Str) → IsBytes (lib.blake3 s)

abbrev sealed_key : Sealing → Str → Str → Key → ℤ → ℤ → Str → Str → EncryptedKey
sealed_key lib salt iv key n p ct mk = record {
  address = key.address;
  cipher = aes_128_ctr;
  cipher_text = hex_encode ct;
  iv = hex_encode iv;
  kdf = key_header_kdf;
  kdf_params = record {
    n = int n;
    r = int scrypt_r;
    p = int p;
    dklen = int scrypt_dk_len;
    salt = string (hex_encode salt);
  };
  mac = hex_encode (lib.blake3 (mk ++ ct));
  version = key_version;
}

-- `aesCTRXOR` of what it gave is what it was given.
aes_ctr_xor-again :
    (lib : Sealing) (laws : SealingLaws lib) (key plain iv cipher : Str)
    → aes_ctr_xor lib key plain iv ≡ ok cipher
    → (aes_ctr_xor lib key cipher iv ≡ ok plain) × IsBytes cipher
unfolding aes_ctr_xor
aes_ctr_xor-again lib laws key plain iv cipher h =
    let (block, made, sealed) = bind-eq-ok (lib.new_cipher key) _ h in
    (
      rw made (laws.aes_law key block plain iv cipher made sealed),
      laws.aes-IsBytes key block plain iv cipher made sealed,
    )

sealed_key-IsPlain :
    (lib : Sealing) (laws : SealingLaws lib) (salt iv : Str) (key : Key) (n p : ℤ) (ct mk : Str)
    → IsAscii key.address
    → IsExact n
    → IsExact p
    → IsBytes salt
    → IsBytes iv
    → IsBytes ct
    → IsPlain (sealed_key lib salt iv key n p ct mk)
sealed_key-IsPlain lib laws salt iv key n p ct mk ascii hn hp hs hi hc = record {
  address = ascii;
  cipher = search arith;
  cipher_text = hex_encode-IsAscii ct hc;
  iv = hex_encode-IsAscii iv hi;
  kdf = search arith;
  mac = hex_encode-IsAscii _ (laws.blake3-IsBytes (mk ++ ct));
  n = kept_int hn;
  r = kept_int (omega arith, omega arith);
  p = kept_int hp;
  dklen = kept_int (omega arith, omega arith);
  salt = kept_string (hex_encode-IsAscii salt hs);
}

opens :
    (lib : Sealing) (laws : SealingLaws lib) (salt iv : Str) (key : Key) (password : Str) (n p : ℤ)
    (dk ek ct mk j : Str)
    → IsAscii key.address
    → IsExact n
    → IsExact p
    → IsBytes salt
    → IsBytes iv
    → lib.scrypt password salt n scrypt_r p scrypt_dk_len ≡ ok dk
    → cipher_key dk ≡ ok ek
    → aes_ctr_xor lib ek key.secret_value iv ≡ ok ct
    → mac_key dk ≡ ok mk
    → lib.marshal (sealed_key lib salt iv key n p ct mk) ≡ ok j
    → decrypt_key lib j password ≡ ok key
unfolding decrypt_key
opens lib laws salt iv key password n p dk ek ct mk j ascii hn hp hs hi derived cut sealed half
      made =
    let (again, ct-IsBytes) = aes_ctr_xor-again lib laws ek key.secret_value iv ct sealed in
    rw
      (
        laws.json_law _ j
            (sealed_key-IsPlain lib laws salt iv key n p ct mk ascii hn hp hs hi ct-IsBytes) made,
        hex_decode-hex_encode _ (laws.blake3-IsBytes (mk ++ ct)),
        hex_decode-hex_encode iv hi,
        hex_decode-hex_encode ct ct-IsBytes,
        hex_decode-hex_encode salt hs,
        derived,
        half,
        str_eq_refl (lib.blake3 (mk ++ ct)),
        cut,
        again,
      )
      refl

-- A key with an ASCII address that was encrypted under a password, with a salt and an initial vector
-- of bytes, is decrypted under that password, whatever the parameters of the derivation below 2^53.
pub decrypt_key-encrypt_key :
    (lib : Sealing) (laws : SealingLaws lib) (salt iv : Str) (key : Key) (password : Str) (n p : ℤ)
    (j : Str)
    → IsAscii key.address
    → IsExact n
    → IsExact p
    → IsBytes salt
    → IsBytes iv
    → encrypt_key lib salt iv key password n p ≡ ok j
    → decrypt_key lib j password ≡ ok key
unfolding encrypt_key
decrypt_key-encrypt_key lib laws salt iv key password n p j ascii hn hp hs hi h =
    let (dk, derived, h1) = bind-eq-ok (lib.scrypt password salt n scrypt_r p scrypt_dk_len) _ h in
    let (ek, cut, h2) = bind-eq-ok (cipher_key dk) _ h1 in
    let (ct, sealed, h3) = bind-eq-ok (aes_ctr_xor lib ek key.secret_value iv) _ h2 in
    let (mk, half, h4) = bind-eq-ok (mac_key dk) _ h3 in
    opens lib laws salt iv key password n p dk ek ct mk j ascii hn hp hs hi derived cut sealed half
      h4

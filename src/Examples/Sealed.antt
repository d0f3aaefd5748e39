-- ===== src/Examples/Sealed.antt =====
-- A sealing of keys: its JSON is a list of fields with their lengths.
use mathlib.Core.Path.{subst}
use computing_api.Base.{
  Bool, IsBytes, Result, Str, [], ap, arith, drop, drop-append, err, false, foreign, if◌then◌else◌,
  length, ltb, ok, ok-injective, refl, suc, sym, take, take-append, true, zero, ◌%◌, ◌&&◌, ◌++◌,
  ◌∙◌, ◌∷◌, ◌≡◌,
}
use computing_api.Base.Int.{negsuc, pos, ℤ}
use computing_api.Keystore.Passphrase.{
  Block, EncryptedKey, Sealing, Value, float64, int, other, string,
}
use computing_api.Keystore.Passphrase.Laws.{SealingLaws, reread, reread_value}
use computing_api.Keystore.Store.{Codec, KeyInfo}
use computing_api.Keystore.Store.Laws.{CodecLaws}

unfoldable pub put_field : Str → Str → Str
put_field s rest = length s ∷ (s ++ rest)

unfoldable pub get_field : {A : Type 0} → Str → (Str → Str → Result A) → Result A
get_field [] next = err (foreign "json")
get_field (n ∷ s) next = next (take n s) (drop n s)

unfoldable pub put_int : ℤ → Str → Str
put_int (pos n) rest = 0 ∷ n ∷ rest
put_int (negsuc n) rest = 1 ∷ n ∷ rest

unfoldable pub get_int : {A : Type 0} → Str → (ℤ → Str → Result A) → Result A
get_int (zero ∷ n ∷ s) next = next (pos n) s
get_int (suc zero ∷ n ∷ s) next = next (negsuc n) s
get_int _ next = err (foreign "json")

unfoldable pub put_value : Value → Str → Str
unfolding put_int put_field
put_value (int z) rest = 0 ∷ put_int z rest
put_value (float64 z) rest = 0 ∷ put_int z rest
put_value (string s) rest = 1 ∷ put_field s rest
put_value other rest = 2 ∷ rest

unfoldable pub get_value : {A : Type 0} → Str → (Value → Str → Result A) → Result A
unfolding get_int get_field
get_value (zero ∷ s) next = get_int s (λ z. next (float64 z))
get_value (suc zero ∷ s) next = get_field s (λ t. next (string t))
get_value (suc (suc zero) ∷ s) next = next other s
get_value _ next = err (foreign "json")

abbrev pub write_key : EncryptedKey → Str
write_key k = put_field k.address (
    put_field k.cipher (
      put_field k.cipher_text (
        put_field k.iv (
          put_field k.kdf (
            put_field k.mac (
              put_int k.version (
                put_value k.kdf_params.n (
                  put_value k.kdf_params.r (
                    put_value k.kdf_params.p
                      (put_value k.kdf_params.dklen (put_value k.kdf_params.salt [])))))))))))

abbrev pub read_key : Str → Result EncryptedKey
read_key s0 = get_field s0 λ address s1. get_field s1 λ cipher s2. get_field s2 λ cipher_text s3.
    get_field s3 λ iv s4. get_field s4 λ kdf s5. get_field s5 λ mac s6. get_int s6 λ version s7.
      get_value s7 λ n s8. get_value s8 λ r s9. get_value s9 λ p s10. get_value s10 λ dklen s11.
        get_value s11 λ salt s12. ok (record {
          address = address;
          cipher = cipher;
          cipher_text = cipher_text;
          iv = iv;
          kdf = kdf;
          kdf_params = record { n = n; r = r; p = p; dklen = dklen; salt = salt };
          mac = mac;
          version = version;
        })

module _ {A : Type 0} where
  get_field_put :
      (s rest : Str) (next : Str → Str → Result A) → get_field (put_field s rest) next ≡ next s rest
  unfolding get_field put_field
  get_field_put s rest next = rw (take-append s rest, drop-append s rest) refl

  get_int_put :
      (z : ℤ) (rest : Str) (next : ℤ → Str → Result A) → get_int (put_int z rest) next ≡ next z rest
  unfolding get_int put_int
  get_int_put (pos n) rest next = refl
  get_int_put (negsuc n) rest next = refl

  get_value_put :
      (v : Value) (rest : Str) (next : Value → Str → Result A)
      → get_value (put_value v rest) next ≡ next (reread_value v) rest
  unfolding get_value put_value
  get_value_put (int z) rest next = get_int_put z rest (λ y. next (float64 y))
  get_value_put (float64 z) rest next = get_int_put z rest (λ y. next (float64 y))
  get_value_put (string s) rest next = get_field_put s rest (λ t. next (string t))
  get_value_put other rest next = refl

read_key-write_key : (k : EncryptedKey) → read_key (write_key k) ≡ ok (reread k)
read_key-write_key k =
    get_field_put k.address _ _
    ∙ get_field_put k.cipher _ _
    ∙ get_field_put k.cipher_text _ _
    ∙ get_field_put k.iv _ _
    ∙ get_field_put k.kdf _ _
    ∙ get_field_put k.mac _ _
    ∙ get_int_put k.version _ _
    ∙ get_value_put k.kdf_params.n _ _
    ∙ get_value_put k.kdf_params.r _ _
    ∙ get_value_put k.kdf_params.p _ _
    ∙ get_value_put k.kdf_params.dklen _ _
    ∙ get_value_put k.kdf_params.salt _ _

abbrev pub bytes_only : Str → Bool
bytes_only [] = true
bytes_only (c ∷ s) = ltb c 256 && bytes_only s

bytes_only-IsBytes : (s : Str) → bytes_only s ≡ true → IsBytes s
bytes_only-IsBytes [] h = tt
bytes_only-IsBytes (c ∷ s) h = ground (arith, bytes_only-IsBytes s)

-- A cipher that leaves bytes as they are and takes nothing else.
abbrev plain_block : Block
plain_block = record {
  xor_key_stream = λ iv plain. if bytes_only plain then ok plain else err (foreign "not bytes");
}

-- The derived key is 32 bytes, the first of which is the length of the password.
abbrev pub open_sealing : Sealing
open_sealing = record {
  scrypt = λ password salt n r p len. ok (
      (length password % 256)
      ∷ 0
      ∷ 0
      ∷ 0
      ∷ 0
      ∷ 0
      ∷ 0
      ∷ 0
      ∷ 0
      ∷ 0
      ∷ 0
      ∷ 0
      ∷ 0
      ∷ 0
      ∷ 0
      ∷ 0
      ∷ (length password % 256)
      ∷ 0
      ∷ 0
      ∷ 0
      ∷ 0
      ∷ 0
      ∷ 0
      ∷ 0
      ∷ 0
      ∷ 0
      ∷ 0
      ∷ 0
      ∷ 0
      ∷ 0
      ∷ 0
      ∷ 0
      ∷ []);
  blake3 = λ s. (length s % 256) ∷ [];
  new_cipher = λ key. ok plain_block;
  marshal = λ k. ok (write_key k);
  unmarshal = read_key;
}

kept_bytes :
    (b : Bool) (plain cipher : Str)
    → (if b then ok plain else err (foreign "not bytes")) ≡ ok cipher
    → (b ≡ true) × (plain ≡ cipher)
kept_bytes true plain cipher h = (refl, ok-injective h)
kept_bytes false plain cipher h = absurd (cc)

plain_again :
    (plain cipher : Str)
    → (if bytes_only plain then ok plain else err (foreign "not bytes")) ≡ ok cipher
    → (if bytes_only cipher then ok cipher else err (foreign "not bytes")) ≡ ok plain
plain_again plain cipher h =
    let (bytes, same) = kept_bytes (bytes_only plain) plain cipher h in
    subst (λ c. (if bytes_only c then ok c else err (foreign "not bytes")) ≡ ok c) same
      (rw bytes refl)
    ∙ ap ok (sym same)

plain-IsBytes :
    (plain cipher : Str)
    → (if bytes_only plain then ok plain else err (foreign "not bytes")) ≡ ok cipher
    → IsBytes cipher
plain-IsBytes plain cipher h =
    let (bytes, same) = kept_bytes (bytes_only plain) plain cipher h in
    subst IsBytes same (bytes_only-IsBytes plain bytes)

pub open_sealing_laws : SealingLaws open_sealing
open_sealing_laws = record {
  aes_law = λ key block plain iv cipher made.
      subst
        (λ (b : Block).
          b.xor_key_stream iv plain ≡ ok cipher → b.xor_key_stream iv cipher ≡ ok plain)
        (ok-injective made) (plain_again plain cipher);
  json_law = λ k j plain h. ap read_key (sym (ok-injective h)) ∙ read_key-write_key k;
  aes-IsBytes = λ key block plain iv cipher made.
      subst (λ (b : Block). b.xor_key_stream iv plain ≡ ok cipher → IsBytes cipher)
        (ok-injective made) (plain-IsBytes plain cipher);
  blake3-IsBytes = λ s. (omega arith, tt);
}

abbrev pub read_info : Str → Result KeyInfo
read_info [] = err (foreign "json")
read_info (t ∷ s) = ok (record { type = t; secret_key = s })

abbrev pub codec : Codec
codec = record {
  sealing = open_sealing;
  marshal_info = λ ki. ok (ki.type ∷ ki.secret_key);
  unmarshal_info = read_info;
}

pub codec_laws : CodecLaws codec
codec_laws = record {
  sealing_laws = open_sealing_laws;
  info_law = λ ki j h. ap read_info (sym (ok-injective h));
}

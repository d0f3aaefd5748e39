-- ===== src/Auth.antt =====
-- lib/auth: signatures of wallets (auth.go) and tokens signed by HMAC (hmac.go).
pub mod Token
use computing_api.Base.{
  Bool, Error, IsBytes, Result, Str, [], bind, err, if◌then◌else◌, length, ltb, new, ok, panic,
  rescue, str_eq, text, ◌%◌, ◌++◌, ◌-◌, ◌∷◌,
}
use computing_api.Std.Strings.{repeat, trim_right}
use computing_api.Std.Strconv.{format_uint}
use computing_api.Std.Base64.{decode, encode}

-- What the program uses of cryptographic and hex libraries, with what it relies on: an HMAC is a
-- text of bytes.
pub record Crypto : Type 0 where
  pub hmac_sha256 : Str → Str → Str
  pub keccak256 : Str → Str
  pub sig_to_pub : Str → Str → Result Str
  pub pubkey_to_address : Str → Str
  pub hex_decode : Str → Result Str
  pub hex_to_ecdsa : Str → Result Str
  pub crypto_sign : Str → Str → Result Str
  pub ecrecover : Str → Str → Result Str
  pub public_key : Str → Str
  pub hmac_sha256-IsBytes : (key msg : Str) → IsBytes (hmac_sha256 key msg)

-- The key of a token is an `interface{}`: a byte slice, or of another type.
pub data Key : Type 0 where
  bytes : Str → Key
  not_bytes : Key

abbrev pub err_token_invalid : Error
err_token_invalid = new "token is invalid"

abbrev pub err_invalid_key_type : Error
err_invalid_key_type = new "HS256 key is invalid"

unfoldable pub encode_segment : Str → Str
encode_segment seg = trim_right b'=' (encode seg)

unfoldable pub decode_segment : Str → Result Str
decode_segment seg =
    if ltb 0 (length seg % 4) then decode (seg ++ repeat b'=' (4 - length seg % 4)) else decode seg

-- `sig[len(sig)-1] %= 27`
unfoldable pub normalize_last : Str → Str
normalize_last [] = []
normalize_last (v ∷ []) = (v % 27) ∷ []
normalize_last (v ∷ w ∷ sig) = v ∷ normalize_last (w ∷ sig)

unfoldable pub enclose_eth : Str → Str
enclose_eth msg = 0x19 ∷ text "Ethereum Signed Message:" ++ 10 ∷ format_uint (length msg) ++ msg

module _ (c : Crypto) where
  unfoldable pub verify_token : Str → Str → Key → Result (Unit {0})
  verify_token signing signature (bytes key) =
      bind (decode_segment signature)
        λ sig. if str_eq sig (c.hmac_sha256 key signing) then ok tt else err err_token_invalid
  verify_token signing signature not_bytes = err err_invalid_key_type

  unfoldable pub sign_token : Str → Key → Result Str
  sign_token signing (bytes key) = ok (encode_segment (c.hmac_sha256 key signing))
  sign_token signing not_bytes = err err_invalid_key_type

  unfoldable pub hash : Str → Str
  hash msg = c.keccak256 msg

  -- An empty signature has no last byte: the index is out of range. A signature from which no key
  -- is recovered gives the nil slice.
  unfoldable pub sig_to_address : Str → Str → Result Str
  unfolding normalize_last
  sig_to_address digest [] = panic "index out of range [-1]"
  sig_to_address digest (v ∷ sig) =
      rescue (c.sig_to_pub digest (normalize_last (v ∷ sig))) (λ _. ok [])
        (λ pub_key. ok (c.pubkey_to_address pub_key))

  unfoldable pub sign : Str → Str → Result Str
  sign digest sk =
      rescue (c.hex_to_ecdsa sk) (λ _. panic "log.Fatal") (λ key. c.crypto_sign digest key)

  unfoldable pub verify : Str → Str → Str → Result Bool
  verify signature digest pub_key =
      bind (c.ecrecover digest signature) λ sig_pub. ok (str_eq sig_pub pub_key)

  unfoldable pub get_pub_key : Str → Result Str
  get_pub_key sk = bind (c.hex_to_ecdsa sk) λ key. ok (c.public_key key)

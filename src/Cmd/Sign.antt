-- ===== src/Cmd/Sign.antt =====
-- computing/app/http/cmd/sign.go: the request for a cookie that the sign command prints.
use mathlib.Core.Path.{subst}
use computing_api.Base.{
  IsBytes, Result, Str, [], arith, bind, bind-eq-ok, err, inr, ok, ok-injective, panic, rescue,
  rescue-eq-ok, true, ℕ, ◌<◌, ◌^◌, ◌∷◌, ◌≡◌,
}
use computing_api.Base.Int.{pos, wrap64, ℤ, ◌+ℤ◌, ◌<ℤ◌}
use computing_api.Std.Hex.{hex_encode}
use computing_api.Std.Strconv.{format_int, parse_int, signed}
use computing_api.Utils.{uint64_to_string}
use computing_api.Auth.{Crypto, enclose_eth, hash, normalize_last, sig_to_address, sign}
use computing_api.Model.{AuthInfo}
use computing_api.Local.{check_auth_info}
use computing_api.Std.Strconv.RoundTrip.{parse_int-format_int}
use computing_api.Local.Access.{check_auth_info_iff, check_signature_iff}

abbrev pub hex_prefix : Str → Str
hex_prefix s = b'0' ∷ b'x' ∷ s

pub parsed : (n : ℕ) → n < 2 ^ 63 → parse_int (uint64_to_string n) ≡ ok (pos n)
unfolding uint64_to_string format_int
parsed n h = parse_int-format_int (pos n) (h, omega arith)

module _ (c : Crypto) where
  -- The query of the printed URL. `timestamp` is the clock as a uint64; an error of `Sign` is a panic.
  unfoldable pub sign_cmd : ℕ → Str → Result AuthInfo
  unfolding uint64_to_string
  sign_cmd timestamp sk =
      let ts = uint64_to_string timestamp in
      let digest = hash c (enclose_eth ts) in
      rescue (sign c digest sk) (λ _. panic "sign")
        λ sig. bind (sig_to_address c digest sig) λ address. ok (record {
          address = hex_prefix (hex_encode address);
          sig = hex_prefix (hex_encode sig);
          msg = ts;
        })

  -- What the program relies on of the libraries: hexutil reads bytes back from their text, and
  -- signatures and addresses are bytes.
  pub record HexLaws : Type 0 where
    pub hex_law : (s : Str) → IsBytes s → c.hex_decode (hex_prefix (hex_encode s)) ≡ ok s
    pub sign-IsBytes : (digest key sig : Str) → c.crypto_sign digest key ≡ ok sig → IsBytes sig
    pub address-IsBytes : (key : Str) → IsBytes (c.pubkey_to_address key)

  sign-IsBytes_lem :
      (laws : HexLaws) (digest sk sig : Str) → sign c digest sk ≡ ok sig → IsBytes sig
  unfolding sign
  sign-IsBytes_lem laws digest sk sig h =
      let (key, read, made) = rescue-eq-ok (c.hex_to_ecdsa sk) "log.Fatal" _ h in
      laws.sign-IsBytes digest key sig made

  address_of_ok :
      (laws : HexLaws) (r : Result Str) (address : Str)
      → rescue r (λ _. ok []) (λ key. ok (c.pubkey_to_address key)) ≡ ok address
      → IsBytes address
  address_of_ok laws (ok key) address h = subst IsBytes (ok-injective h) (laws.address-IsBytes key)
  address_of_ok laws (err e) address h = subst IsBytes (ok-injective h) tt
  address_of_ok laws (panic why) address h = absurd cc

  sig_to_address-IsBytes :
      (laws : HexLaws) (digest sig address : Str)
      → sig_to_address c digest sig ≡ ok address
      → IsBytes address
  unfolding sig_to_address
  sig_to_address-IsBytes laws digest [] address h = absurd cc
  sig_to_address-IsBytes laws digest (v ∷ sig) address h =
      address_of_ok laws (c.sig_to_pub digest (normalize_last (v ∷ sig))) address h

  -- The request that the sign command prints at one time is authenticated at every later time before
  -- its expiry, if its time is an int64: its address is the one that its own signature gives.
  pub sign_cmd-check_auth_info :
      (laws : HexLaws) (timestamp : ℕ) (sk : Str) (sign_expire later_on : ℤ) (ainfo : AuthInfo)
      → timestamp < 2 ^ 63
      → sign_cmd timestamp sk ≡ ok ainfo
      → later_on <ℤ wrap64 (pos timestamp +ℤ sign_expire)
      → check_auth_info c sign_expire later_on ainfo ≡ ok true
  unfolding sign_cmd
  sign_cmd-check_auth_info laws timestamp sk sign_expire later_on ainfo small h fresh =
      let digest = hash c (enclose_eth (uint64_to_string timestamp)) in
      let (sig, signed, h1) = rescue-eq-ok (sign c digest sk) "sign" _ h in
      let (address, found, h2) = bind-eq-ok (sig_to_address c digest sig) _ h1 in
      let passes =
        (check_signature_iff c (hex_prefix (hex_encode sig)) (hex_prefix (hex_encode address))
            (uint64_to_string timestamp)).1
          (
            sig,
            address,
            laws.hex_law sig (sign-IsBytes_lem laws digest sk sig signed),
            laws.hex_law address (sig_to_address-IsBytes laws digest sig address found),
            found,
          ) in
      subst (λ info. check_auth_info c sign_expire later_on info ≡ ok true) (ok-injective h2)
        ((check_auth_info_iff c sign_expire later_on (record {
          address = hex_prefix (hex_encode address);
          sig = hex_prefix (hex_encode sig);
          msg = uint64_to_string timestamp;
        })).1
          (inr (pos timestamp, parsed timestamp small, fresh, λ e. cc, λ e. cc, passes)))

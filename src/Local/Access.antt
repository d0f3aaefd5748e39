-- ===== src/Local/Access.antt =====
-- Who is authenticated.
use computing_api.Base.{
  Bool, Bool-cases, Error, Result, Str, [], ap, arith, bind-eq-ok, err, false, if◌then◌else◌, inl,
  inr, new, not, ok, ok-injective, panic, refl, rescue, str_eq, str_eq_iff, str_eq_refl, true, ℕ,
  ◌||◌, ◌↔◌, ◌∙◌, ◌∷◌, ◌≡◌, ◌≢◌, ◌⊎◌,
}
use computing_api.Std.Strconv.{parse_int}
use computing_api.Auth.{Crypto, enclose_eth, hash, normalize_last, sig_to_address}
use computing_api.Model.{AuthInfo}
use computing_api.Local.{check_auth_info, check_expire, check_signature, test_whitelist_msg}
use computing_api.Base.Int.{ltb_ℤ, wrap64, ℤ, ◌+ℤ◌, ◌<ℤ◌}

same_address :
    (ab found : Str)
    → (if str_eq ab found then ok true else err (new "signature check failed")) ≡ ok true
    → ab ≡ found
same_address ab found h = ground (arith, str_eq_iff ab found)

rescue-eq-true :
    {A : Type 0} (r : Result A) (next : A → Result Bool)
    → rescue r (λ _. ok false) next ≡ ok true
    → (a : A) × (r ≡ ok a) × (next a ≡ ok true)
rescue-eq-true (ok a) next h = (a, refl, h)
rescue-eq-true (err e) next h = cc
rescue-eq-true (panic why) next h = cc

-- What follows the check of the time in `check_auth_info`.
abbrev after_time : Bool → Str → Str → Result Bool → Result Bool
after_time in_time address sig passes =
    if not in_time
    then ok false
    else if str_eq address [] || str_eq sig []
    then ok false
    else rescue passes (λ _. ok false) ok

after_time_ok :
    (in_time : Bool) (address sig : Str) (passes : Result Bool)
    → after_time in_time address sig passes ≡ ok true
    → (in_time ≡ true) × (address ≢ []) × (sig ≢ []) × (passes ≡ ok true)
after_time_ok true (a ∷ address) (s ∷ sig) (ok b) h = (refl, λ e. cc, λ e. cc, h)
after_time_ok true (a ∷ address) (s ∷ sig) (err e) h = cc
after_time_ok true (a ∷ address) (s ∷ sig) (panic why) h = cc
after_time_ok true (a ∷ address) [] passes h = cc
after_time_ok true [] sig passes h = cc
after_time_ok false address sig passes h = cc

after_time_passes :
    (in_time : Bool) (address sig : Str) (passes : Result Bool)
    → in_time ≡ true
    → address ≢ []
    → sig ≢ []
    → after_time in_time address sig passes ≡ rescue passes (λ _. ok false) ok
after_time_passes true (a ∷ address) (s ∷ sig) passes t n m = refl
after_time_passes true (a ∷ address) [] passes t n m = absurd (m refl)
after_time_passes true [] sig passes t n m = absurd (n refl)
after_time_passes false address sig passes t n m = cc

fresh_of : (now z : ℤ) → ltb_ℤ now z ≡ true → now <ℤ z
fresh_of now z h = ground arith

is_fresh : (now z : ℤ) → now <ℤ z → ltb_ℤ now z ≡ true
is_fresh now z h = ground arith

in_time_of :
    (expire : Str) (within now stamp : ℤ)
    → parse_int expire ≡ ok stamp
    → now <ℤ wrap64 (stamp +ℤ within)
    → check_expire now expire within ≡ ok true
unfolding check_expire
in_time_of expire within now stamp num fresh =
    rw num (ap ok (is_fresh now (wrap64 (stamp +ℤ within)) fresh))

plain_of : (msg : Str) → msg ≢ test_whitelist_msg → str_eq msg test_whitelist_msg ≡ false
plain_of msg n = elim (Bool-cases (str_eq msg test_whitelist_msg)) [
  | inl e ↦ absurd (n ((str_eq_iff msg test_whitelist_msg).0 e))
  | inr e ↦ e
]

module _ (c : Crypto) where
  -- The text that a wallet has signed, hashed.
  abbrev pub digest_of : Str → Str
  digest_of msg = hash c (enclose_eth msg)

  check_signature_sound :
      (sig addr msg : Str)
      → check_signature c sig addr msg ≡ ok true
      → (sig_byte : Str) × (addr_byte : Str) × (c.hex_decode sig ≡ ok sig_byte)
        × (c.hex_decode addr ≡ ok addr_byte)
        × (sig_to_address c (digest_of msg) sig_byte ≡ ok addr_byte)
  unfolding check_signature
  check_signature_sound sig addr msg h =
      let (sb, hs, h1) = bind-eq-ok (c.hex_decode sig) _ h in
      let (ab, ha, h2) = bind-eq-ok (c.hex_decode addr) _ h1 in
      let (found, same, h3) = bind-eq-ok (sig_to_address c (digest_of msg) sb) _ h2 in
      (sb, ab, hs, ha, rw (same_address ab found h3) same)

  -- A signature passes exactly when it and the address can be decoded and the address that is
  -- recovered from it (nothing, where none can be recovered) is the decoded address.
  pub check_signature_iff :
      (sig addr msg : Str)
      → (check_signature c sig addr msg ≡ ok true) ↔ (
          (sig_byte : Str) × (addr_byte : Str) × (c.hex_decode sig ≡ ok sig_byte)
          × (c.hex_decode addr ≡ ok addr_byte)
          × (sig_to_address c (digest_of msg) sig_byte ≡ ok addr_byte))
  check_signature_iff sig addr msg = (
    check_signature_sound sig addr msg,
    λ (sb, ab, hs, ha, same).
        unfold check_signature in rw (hs, ha, same) (ground (arith, str_eq_refl ab)),
  )

  check_auth_info_sound :
      (sign_expire now : ℤ) (ainfo : AuthInfo)
      → check_auth_info c sign_expire now ainfo ≡ ok true
      → (ainfo.msg ≡ test_whitelist_msg)
        ⊎ ((stamp : ℤ) × (parse_int ainfo.msg ≡ ok stamp)
            × (now <ℤ wrap64 (stamp +ℤ sign_expire))
            × (ainfo.address ≢ [])
            × (ainfo.sig ≢ [])
            × (check_signature c ainfo.sig ainfo.address ainfo.msg ≡ ok true))
  unfolding check_auth_info check_expire
  check_auth_info_sound sign_expire now ainfo h =
      elim (Bool-cases (str_eq ainfo.msg test_whitelist_msg)) [
        | inl white ↦ inl ((str_eq_iff ainfo.msg test_whitelist_msg).0 white)
        | inr other ↦
            let (fresh, e1, h1) =
              rescue-eq-true (check_expire now ainfo.msg sign_expire) _ (rw other at h) in
            let (stamp, num, h2) = bind-eq-ok (parse_int ainfo.msg) _ e1 in
            let (t, a, s, passes) = after_time_ok fresh ainfo.address ainfo.sig _ h1 in
            inr (
              stamp,
              num,
              fresh_of now (wrap64 (stamp +ℤ sign_expire)) (ok-injective h2 ∙ t),
              a,
              s,
              passes,
            )
      ]

  -- A stamped, signed request is answered by the check of its signature.
  check_auth_info_stamped :
      (sign_expire now stamp : ℤ) (ainfo : AuthInfo)
      → ainfo.msg ≢ test_whitelist_msg
      → parse_int ainfo.msg ≡ ok stamp
      → now <ℤ wrap64 (stamp +ℤ sign_expire)
      → ainfo.address ≢ []
      → ainfo.sig ≢ []
      → check_auth_info c sign_expire now ainfo
        ≡ rescue (check_signature c ainfo.sig ainfo.address ainfo.msg) (λ _. ok false) ok
  unfolding check_auth_info
  check_auth_info_stamped sign_expire now stamp ainfo plain num fresh a s =
      rw (plain_of ainfo.msg plain, in_time_of ainfo.msg sign_expire now stamp num fresh)
        (after_time_passes true ainfo.address ainfo.sig _ refl a s)

  -- An authentication succeeds exactly in two cases: the message is the word of the white list,
  -- whatever the address and the signature; or it is a time that lies later than now once the
  -- expiry of signatures is added (as an int64), the address and the signature are not empty, and
  -- the signature passes.
  pub check_auth_info_iff :
      (sign_expire now : ℤ) (ainfo : AuthInfo)
      → (check_auth_info c sign_expire now ainfo ≡ ok true) ↔ (
          (ainfo.msg ≡ test_whitelist_msg)
          ⊎ ((stamp : ℤ) × (parse_int ainfo.msg ≡ ok stamp)
              × (now <ℤ wrap64 (stamp +ℤ sign_expire))
              × (ainfo.address ≢ [])
              × (ainfo.sig ≢ [])
              × (check_signature c ainfo.sig ainfo.address ainfo.msg ≡ ok true)))
  check_auth_info_iff sign_expire now ainfo = (
    check_auth_info_sound sign_expire now ainfo,
    elim [
      | inl white ↦
          unfold check_auth_info in
          ground (arith, (str_eq_iff ainfo.msg test_whitelist_msg).1 white)
      | inr (stamp, num, fresh, a, s, passes) ↦
          elim (Bool-cases (str_eq ainfo.msg test_whitelist_msg)) [
            | inl white ↦ unfold check_auth_info in ground (arith, white)
            | inr plain ↦
                check_auth_info_stamped sign_expire now stamp ainfo
                  (λ e. cc (str_eq_refl test_whitelist_msg, plain)) num fresh a s
                ∙ rw passes refl
          ]
    ],
  )

  -- A signature from which no key can be recovered passes for an address that decodes to no bytes.
  pub check_signature-no_address :
      (sig addr msg : Str) (v : ℕ) (rest : Str) (e : Error)
      → c.hex_decode sig ≡ ok (v ∷ rest)
      → c.hex_decode addr ≡ ok []
      → c.sig_to_pub (digest_of msg) (normalize_last (v ∷ rest)) ≡ err e
      → check_signature c sig addr msg ≡ ok true
  unfolding check_signature sig_to_address
  check_signature-no_address sig addr msg v rest e hs ha he = rw (hs, ha, he)

  -- When the message is a time that has not expired, and the address and the signature are not
  -- empty and decode, a signature that decodes to no bytes is an index out of range: the
  -- authentication panics.
  check_auth_info-panics :
      (sign_expire now stamp : ℤ) (ainfo : AuthInfo) (addr_byte : Str)
      → ainfo.msg ≢ test_whitelist_msg
      → parse_int ainfo.msg ≡ ok stamp
      → now <ℤ wrap64 (stamp +ℤ sign_expire)
      → ainfo.address ≢ []
      → ainfo.sig ≢ []
      → c.hex_decode ainfo.sig ≡ ok []
      → c.hex_decode ainfo.address ≡ ok addr_byte
      → check_auth_info c sign_expire now ainfo ≡ panic "index out of range [-1]"
  unfolding check_signature sig_to_address
  check_auth_info-panics sign_expire now stamp ainfo addr_byte plain num fresh a s hs ha =
      check_auth_info_stamped sign_expire now stamp ainfo plain num fresh a s ∙ rw (hs, ha) refl

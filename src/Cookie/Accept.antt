-- ===== src/Cookie/Accept.antt =====
-- What `FindCookie` accepts.
use computing_api.Base.{
  List, Str, [], arith, bind-eq-ok, drop, err, false, if◌then◌else◌, length, new, not, ok, refl,
  sym, true, ◌++◌, ◌∙◌, ◌∷◌, ◌≡◌,
}
use computing_api.Std.Strings.{has_prefix, split_n2}
use computing_api.Std.Strconv.{parse_int}
use computing_api.Auth.{Crypto, bytes, decode_segment, verify_token}
use computing_api.Auth.Token.{verify_token_iff}
use computing_api.Cookie.{
  CookieManager, HttpCookie, check_cookie, check_parts, find_cookie, token_prefix,
}
use computing_api.Base.Int.{ltb_ℤ, ℤ, ◌<ℤ◌}

-- The first cookie whose name has the prefix.
pub data FirstToken : List HttpCookie → HttpCookie → Type 0 where
  at_head :
      {ck : HttpCookie} {cks : List HttpCookie}
      → has_prefix ck.name token_prefix ≡ true
      → FirstToken (ck ∷ cks) ck
  behind :
      {ck found : HttpCookie} {cks : List HttpCookie}
      → has_prefix ck.name token_prefix ≡ false
      → FirstToken cks found
      → FirstToken (ck ∷ cks) found

module _ (c : Crypto) (cm : CookieManager) where
  -- A cookie is good for `user` at the time `now`: its name is the prefix and the user, its value is
  -- a time and the MAC of user and time, and that time is later than `now`.
  pub record IsGood (now : ℤ) (ck : HttpCookie) (user : Str) : Type 0 where
    pub ts : Str
    pub sig : Str
    pub stamp : ℤ
    pub named : user ≡ drop (length token_prefix) ck.name
    pub parts : split_n2 b'_' ck.value ≡ ts ∷ sig ∷ []
    pub number : parse_int ts ≡ ok stamp
    pub signed : decode_segment sig ≡ ok (c.hmac_sha256 cm.sign_key (user ++ ts))
    pub fresh : now <ℤ stamp

  pub find_cookie-here :
      (now : ℤ) (ck : HttpCookie) (cks : List HttpCookie)
      → has_prefix ck.name token_prefix ≡ true
      → find_cookie c cm now (ck ∷ cks) ≡ check_cookie c cm now ck
  unfolding find_cookie
  find_cookie-here now ck cks h = rw h

  find_cookie-later :
      (now : ℤ) (ck : HttpCookie) (cks : List HttpCookie)
      → has_prefix ck.name token_prefix ≡ false
      → find_cookie c cm now (ck ∷ cks) ≡ find_cookie c cm now cks
  unfolding find_cookie
  find_cookie-later now ck cks h = rw h

  fresh_of_check :
      (now stamp : ℤ) (user found : Str)
      → (if not (ltb_ℤ now stamp) then err (new "the cookie's expire time is end") else ok user)
        ≡ ok found
      → (now <ℤ stamp) × (found ≡ user)
  fresh_of_check now stamp user found h = ground arith

  check_parts_sound :
      (now : ℤ) (ck : HttpCookie) (parts : List Str) (user found : Str)
      → user ≡ drop (length token_prefix) ck.name
      → split_n2 b'_' ck.value ≡ parts
      → check_parts c cm now user parts ≡ ok found
      → IsGood now ck user × (found ≡ user)
  unfolding check_parts
  check_parts_sound now ck (ts ∷ sig ∷ []) user found e p h =
      let (stamp, number, h1) = bind-eq-ok (parse_int ts) _ h in
      let (_, verified, h2) =
        bind-eq-ok (verify_token c (user ++ ts) sig (bytes cm.sign_key)) _ h1 in
      let (fresh, same) = fresh_of_check now stamp user found h2 in
      (
        record {
          ts = ts;
          sig = sig;
          stamp = stamp;
          named = e;
          parts = p;
          number = number;
          signed = (verify_token_iff c (user ++ ts) sig cm.sign_key).0 verified;
          fresh = fresh;
        },
        same,
      )
  check_parts_sound now ck _ user found e p h = cc

  check_cookie_complete :
      {now : ℤ} {ck : HttpCookie} {user : Str}
      → IsGood now ck user
      → check_cookie c cm now ck ≡ ok user
  unfolding check_cookie
  check_cookie_complete {now} {ck} {user} g =
      rw
        (
          g.parts,
          ← g.named,
          g.number,
          (verify_token_iff c (user ++ g.ts) g.sig cm.sign_key).1 g.signed,
        )
        (ground arith)

  check_cookie-eq :
      (now : ℤ) (ck : HttpCookie)
      → check_cookie c cm now ck
        ≡ check_parts c cm now (drop (length token_prefix) ck.name) (split_n2 b'_' ck.value)
  unfolding check_cookie
  check_cookie-eq now ck = refl

  pub check_cookie_sound :
      (now : ℤ) (ck : HttpCookie) (user : Str)
      → check_cookie c cm now ck ≡ ok user
      → IsGood now ck user
  check_cookie_sound now ck user h =
      let (good, same) =
        check_parts_sound now ck (split_n2 b'_' ck.value) _ user refl refl
          (rw check_cookie-eq at h) in
      rw same good

  pub find_cookie_complete :
      {now : ℤ} {cks : List HttpCookie} {ck : HttpCookie} {user : Str}
      → FirstToken cks ck
      → IsGood now ck user
      → find_cookie c cm now cks ≡ ok user
  find_cookie_complete (at_head named) good =
      find_cookie-here _ _ _ named ∙ check_cookie_complete good
  find_cookie_complete (behind other first) good =
      find_cookie-later _ _ _ other ∙ find_cookie_complete first good

  -- A cookie that has the prefix hides all cookies behind it: what `FindCookie` returns, an error or
  -- a user, does not depend on them.
  find_cookie_shadow :
      (now : ℤ) (ck : HttpCookie) (cks cks' : List HttpCookie)
      → has_prefix ck.name token_prefix ≡ true
      → find_cookie c cm now (ck ∷ cks) ≡ find_cookie c cm now (ck ∷ cks')
  find_cookie_shadow now ck cks cks' h =
      find_cookie-here now ck cks h ∙ sym (find_cookie-here now ck cks' h)

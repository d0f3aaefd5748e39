-- ===== src/Local.antt =====
-- computing/gateway/local: authentication, leases, deployments and entrances of users (local.go and
-- auxiliary.go).
pub mod Access
pub mod Records
pub mod Users
pub mod Fake
use computing_api.Base.{
  Bool, Exec, List, Result, Str, [], bind, err, false, if◌then◌else◌, lift, new, not, ok, pure,
  raise, reads, rescue, str_eq, text, true, ◌++◌, ◌>>=◌, ◌>>◌, ◌||◌, ◌∷◌,
}
use computing_api.Std.Strconv.{format_uint, parse_int}
use computing_api.Auth.{Crypto, enclose_eth, hash, sig_to_address}
use computing_api.Kv.{Badger, get, has, multi_delete, put}
use computing_api.Chain.{Chain}
use computing_api.Kube.{Deployment, Kube, Service}
use computing_api.Deploy.{EndPoint, deploy}
use computing_api.Model.{AuthInfo, Lease}
use computing_api.World.{World, on_cluster, on_db}
use computing_api.Base.Int.{ltb_ℤ, wrap64, ℤ, ◌+ℤ◌}

abbrev pub lease_prefix : Str
lease_prefix = b'l' ∷ []

abbrev pub entrance_prefix : Str
entrance_prefix = b'e' ∷ []

abbrev pub prefix_key : Str → Str → Str
prefix_key key prefix = prefix ++ key

abbrev pub test_whitelist_msg : Str
test_whitelist_msg = b'c' ∷ b'h' ∷ b'e' ∷ b'a' ∷ b't' ∷ []

-- `now` is what `time.Now().Unix()` returns in this call; the sum is an int64.
unfoldable pub check_expire : ℤ → Str → ℤ → Result Bool
check_expire now expire within =
    bind (parse_int expire) λ expireunix. ok (ltb_ℤ now (wrap64 (expireunix +ℤ within)))

module _ (c : Crypto) where
  -- The check of a wallet's signature: true, or an error.
  unfoldable pub check_signature : Str → Str → Str → Result Bool
  check_signature sig addr msg = bind (c.hex_decode sig) λ sig_byte.
      bind (c.hex_decode addr) λ addr_byte.
        bind (sig_to_address c (hash c (enclose_eth msg)) sig_byte) λ addr_from_sig.
          if str_eq addr_byte addr_from_sig then ok true else err (new "signature check failed")

  -- `CheckAuthInfo`: errors are logged and answered by false; a panic stays one.
  unfoldable pub check_auth_info : ℤ → ℤ → AuthInfo → Result Bool
  check_auth_info sign_expire now ainfo =
      if str_eq ainfo.msg test_whitelist_msg
      then ok true
      else rescue (check_expire now ainfo.msg sign_expire) (λ _. ok false)
          λ in_time.
            if not in_time
            then ok false
            else if str_eq ainfo.address [] || str_eq ainfo.sig []
            then ok false
            else rescue (check_signature ainfo.sig ainfo.address ainfo.msg) (λ _. ok false) ok

module _ (b : Badger) (k : Kube) (ch : Chain) where
  -- `lease.Encode()` is `json.Marshal`, a parameter.
  unfoldable pub authorize : (Lease → Result Str) → Str → Lease → Exec (World b k ch) (Unit {0})
  authorize encode user lease =
      if str_eq user [] then raise (new "user should not be empty") else do
        there ← reads (λ w. has b (prefix_key user lease_prefix) w.db)
        (if there
            then pure tt
            else (lift (encode lease) >>= λ lb. on_db (put b (prefix_key user lease_prefix) lb)))

  unfoldable pub entrance_of : EndPoint → Str
  unfolding format_uint
  entrance_of ep = text "http://localhost:" ++ format_uint ep.node_port

  -- An entrance is recorded after the deployment; an error of the database leaves it running.
  unfoldable pub deploy_app : List Deployment → List Service → Str → Exec (World b k ch) (Unit {0})
  unfolding entrance_of
  deploy_app deps svcs user = do
    ep ← on_cluster (deploy k deps svcs user)
    on_db (put b (prefix_key user entrance_prefix) (entrance_of ep))

  unfoldable pub get_entrance : Str → World b k ch → Result Str
  get_entrance user w = get b (prefix_key user entrance_prefix) w.db

  unfoldable pub terminate : Str → Exec (World b k ch) (Unit {0})
  terminate user =
      on_db (multi_delete b (prefix_key user entrance_prefix ∷ prefix_key user lease_prefix ∷ []))

  -- `Compute` does nothing: its body is commented out, and the output stays nil.
  unfoldable pub compute : Str → Str → Exec (World b k ch) Str
  compute entrance input = pure []

-- ===== src/Prover/Client.antt =====
-- prover/client/client.go: the prover's requests to the validator; and prover/pow.go.
pub mod Laws
use computing_api.Base.{
  Bool, Exec, Result, Str, String, [], err, if◌then◌else◌, lift, new, not, ok, panic, pure, raise,
  str_eq, take, text, ℕ, ◌++◌, ◌==◌, ◌>>=◌, ◌>>◌,
}
use computing_api.Base.Int.{eq_ℤ, pos, to_bits, ℤ}
use computing_api.Std.Hex.{hex_decode}
use computing_api.Std.Strings.{repeat}
use computing_api.Prover.{NodeId, Proof, Round, node_bytes}

pub record Request : Type 0 where
  pub method : String
  pub url : Str
  pub payload : Str

-- A response: its status, and what `io.ReadAll` of its body gives.
pub record Response : Type 0 where
  pub status : ℕ
  pub body : Result Str

-- `net/http`: the making of a request, which fails on a bad URL, and its exchange for a response; and
-- `encoding/json` on the bodies.
pub record Web : Type 1 where
  pub State : Type 0
  pub new_request : Str → Result (Unit {0})
  pub exchange : Request → Exec State Response
  pub marshal_proof : Proof → Result Str
  pub unmarshal_rnd : Str → Result Str
  pub unmarshal_count : Str → Result ℤ
  pub unmarshal_setting : Str → Result (ℤ × ℤ × ℤ × ℤ)

-- `var rnd [32]byte; copy(rnd[:], rndBytes)`
unfoldable pub copy32 : Str → Str
unfolding repeat
copy32 bytes = take 32 (bytes ++ repeat 0 32)

module _ (web : Web) (base_url : Str) where
  -- The steps that all requests share: the request is made and sent, and a status that is not 200 is an
  -- error.
  unfoldable pub ask : Request → String → Exec web.State Response
  ask req what = do
    lift (web.new_request req.url)
    res ← web.exchange req
    if not (res.status == 200) then raise (new what) else pure res

  unfoldable pub get : Str → String → Exec web.State Str
  unfolding ask
  get path what = do
    res ← ask (record { method = "GET"; url = base_url ++ path; payload = [] }) what
    lift res.body

  -- The URL is that of the random value.
  unfoldable pub get_v1_setting_info : Exec web.State (ℤ × ℤ × ℤ × ℤ)
  unfolding get text
  get_v1_setting_info =
      get (text "/v1/rnd") "Failed to get rnd" >>= λ body. lift (web.unmarshal_setting body)

  unfoldable pub get_rnd : Exec web.State Str
  unfolding get copy32 hex_decode text
  get_rnd = do
    body ← get (text "/v1/rnd") "Failed to get rnd"
    rnd_res ← lift (web.unmarshal_rnd body)
    rnd_bytes ← lift (hex_decode rnd_res)
    pure (copy32 rnd_bytes)

  unfoldable pub submit_proof : Proof → Exec web.State (Unit {0})
  unfolding ask text
  submit_proof proof = do
    b ← lift (web.marshal_proof proof)
    ask (record { method = "POST"; url = base_url ++ text "/v1/proof"; payload = b })
        "Failed to submit proof"
    pure tt

  unfoldable pub get_v1_order_count : Str → Exec web.State ℤ
  unfolding get text
  get_v1_order_count provider =
      get (text "/v1/provider/" ++ provider ++ text "/count") "Failed to get order count"
      >>= λ body. lift (web.unmarshal_count body)

-- `GeneratePOW`; `search` is the C function `generatePOW` on the prefix and the difficulty: what it
-- returns, and what it leaves in `res`. An empty prefix has no first byte to point to.
unfoldable pub generate_pow : (Str → Str) → (Str → ℕ → ℤ × ℤ) → NodeId → Str → ℕ → Result ℤ
unfolding node_bytes
generate_pow hex2bytes search node_id rand diffcult =
    if str_eq (rand ++ node_bytes hex2bytes node_id) []
    then panic "index out of range [0] with length 0"
    else let (failed, res) = search (rand ++ node_bytes hex2bytes node_id) diffcult in
      if not (eq_ℤ failed (pos 0)) then err (new "Unexpected Error") else ok res

-- The nonce as the bits that a proof holds.
abbrev pub nonce_bits : Result ℤ → Result ℕ
nonce_bits (ok z) = ok (to_bits z)
nonce_bits (err e) = err e
nonce_bits (panic why) = panic why

module _ (web : Web) (base_url : Str) (hex2bytes : Str → Str) (search : Str → ℕ → ℤ × ℤ) where
  -- A round of `Start` whose calls are the client's, one after the other.
  unfoldable pub client_round : NodeId → ℤ → Bool → web.State → Round
  unfolding get_v1_order_count get_rnd submit_proof generate_pow
  client_round node now stopped s =
      let (count, s1) = get_v1_order_count web base_url node.address s in
      let (rnd, s2) = get_rnd web base_url s1 in
      record {
        now = now;
        stopped = stopped;
        order_count = count;
        rnd = rnd;
        proof = λ n r d. nonce_bits (generate_pow hex2bytes search n r d);
        submitted = λ proof. (submit_proof web base_url proof s2).0;
      }

-- ===== src/Prover/Client/Laws.antt =====
-- What the client makes of the validator's answers.
use computing_api.Base.{
  >>=-eq-ok, IsBytes, Result, Str, String, [], ap, arith, false, length, length-append,
  lift->>=-eq-ok, ok, ok-injective, refl, suc, sym, take, take-append, text, true, zero, ℕ, ◌++◌,
  ◌∙◌, ◌∷◌, ◌≡◌, ◌≤◌,
}
use computing_api.Std.Strings.{repeat}
use computing_api.Base.Int.{ltb_ℤ, pos, to_bits, ℤ, ◌<ℤ◌}
use computing_api.Std.Hex.{hex_decode, hex_encode}
use computing_api.Std.Hex.RoundTrip.{hex_decode-hex_encode}
use computing_api.Prover.{GridProver, Proof, Round, calculate_wating_time, round, submits}
use computing_api.Prover.Client.{
  Request, Web, ask, client_round, copy32, generate_pow, get, get_rnd, get_v1_order_count,
  nonce_bits, submit_proof,
}

length-take : (n : ℕ) (xs : Str) → n ≤ length xs → length (take n xs) ≡ n
length-take zero xs h = refl
length-take (suc n) [] h = absurd (omega (arith, h))
length-take (suc n) (x ∷ xs) h = ap suc (length-take n xs (omega (arith, h)))

length-repeat : (c n : ℕ) → length (repeat c n) ≡ n
unfolding repeat
length-repeat c zero = refl
length-repeat c (suc n) = ap suc (length-repeat c n)

length-copy32 : (bytes : Str) → length (copy32 bytes) ≡ 32
unfolding copy32
length-copy32 bytes =
    length-take 32 (bytes ++ repeat 0 32)
      (omega (arith, length-append bytes (repeat 0 32), length-repeat 0 32))

positive_ltb : (z : ℤ) → pos 0 <ℤ z → ltb_ℤ (pos 0) z ≡ true
positive_ltb z h = ground arith

-- A round whose calls all succeed submits.
round-submits :
    (p : GridProver) (r : Round) (count : ℤ) (rnd : Str) (nonce : ℕ)
    → r.stopped ≡ false
    → r.order_count ≡ ok count
    → pos 0 <ℤ count
    → r.rnd ≡ ok rnd
    → r.proof p.node rnd p.diffcult ≡ ok nonce
    → r.submitted (record { node = p.node; nonce = nonce }) ≡ ok tt
    → round p r ≡ (
      record p { last = (calculate_wating_time p r.now).0.1 },
      submits (record { node = p.node; nonce = nonce }) true,
    )
unfolding round calculate_wating_time
round-submits p r count rnd nonce goes_on counted some_order drawn made sent =
    rw (goes_on, counted, positive_ltb count some_order, drawn, made, sent) refl

module _ (web : Web) (base_url : Str) where
  -- The random value that the client gives has 32 bytes, whatever the validator answers.
  length-get_rnd :
      (r : Str) (s s' : web.State) → get_rnd web base_url s ≡ (ok r, s') → length r ≡ 32
  unfolding get_rnd
  length-get_rnd r s s' h =
      let (body, s1, _, h1) =
        >>=-eq-ok (get web base_url (text "/v1/rnd") "Failed to get rnd") _ s h in
      let (rnd_res, _, h2) = lift->>=-eq-ok (web.unmarshal_rnd body) _ s1 h1 in
      let (bytes, _, end) = lift->>=-eq-ok (hex_decode rnd_res) _ s1 h2 in
      ap length (ok-injective (λ i. (sym end i).0)) ∙ length-copy32 bytes

  -- The validator answers a request with a body and the status 200.
  abbrev pub Answers : Request → Str → web.State → web.State → Type 0
  Answers req body s s' =
      (web.new_request req.url ≡ ok tt)
      × (web.exchange req s ≡ (ok (record { status = 200; body = ok body }), s'))

  abbrev pub get_of : Str → Request
  get_of path = record { method = "GET"; url = base_url ++ path; payload = [] }

  abbrev pub post_of : Str → Request
  post_of json = record { method = "POST"; url = base_url ++ text "/v1/proof"; payload = json }

  get-Answers :
      (path body : Str) (what : String) (s s' : web.State)
      → Answers (get_of path) body s s'
      → get web base_url path what s ≡ (ok body, s')
  unfolding get ask
  get-Answers path body what s s' (made, answered) = rw (made, answered) refl

  -- A random value of 32 bytes that the validator sends in hex is what the client gives.
  get_rnd-hex_encode :
      (rnd body : Str) (s s' : web.State)
      → IsBytes rnd
      → length rnd ≡ 32
      → web.unmarshal_rnd body ≡ ok (hex_encode rnd)
      → Answers (get_of (text "/v1/rnd")) body s s'
      → get_rnd web base_url s ≡ (ok rnd, s')
  unfolding get_rnd copy32
  get_rnd-hex_encode rnd body s s' bytes long read answer =
      rw
        (
          get-Answers (text "/v1/rnd") body "Failed to get rnd" s s' answer,
          read,
          hex_decode-hex_encode rnd bytes,
          ap (λ n. take n (rnd ++ repeat 0 32)) (sym long) ∙ take-append rnd (repeat 0 32),
        )
        refl

  count-Answers :
      (provider body : Str) (count : ℤ) (s s' : web.State)
      → web.unmarshal_count body ≡ ok count
      → Answers (get_of (text "/v1/provider/" ++ provider ++ text "/count")) body s s'
      → get_v1_order_count web base_url provider s ≡ (ok count, s')
  unfolding get_v1_order_count
  count-Answers provider body count s s' read answer =
      rw
        (
          get-Answers (text "/v1/provider/" ++ provider ++ text "/count") body
              "Failed to get order count" s s' answer,
          read,
        )
        refl

  submit-Answers :
      (proof : Proof) (json reply : Str) (s s' : web.State)
      → web.marshal_proof proof ≡ ok json
      → Answers (post_of json) reply s s'
      → submit_proof web base_url proof s ≡ (ok tt, s')
  unfolding submit_proof ask
  submit-Answers proof json reply s s' made (asked, answered) = rw (made, asked, answered) refl

  module _ (hex2bytes : Str → Str) (search : Str → ℕ → ℤ × ℤ) where
    -- In a round that is not stopped, where the validator knows of orders, sends 32 random bytes in
    -- hex and accepts what is posted, the proof that is submitted is the one of the nonce that was
    -- searched for these bytes, and the prover takes the start of the next cycle as its last.
    pub round-client_round :
        (p : GridProver) (now count nonce : ℤ) (count_body rnd_body rnd json reply : Str)
        (s s1 s2 s3 : web.State)
        → Answers (get_of (text "/v1/provider/" ++ p.node.address ++ text "/count")) count_body s s1
        → web.unmarshal_count count_body ≡ ok count
        → pos 0 <ℤ count
        → Answers (get_of (text "/v1/rnd")) rnd_body s1 s2
        → web.unmarshal_rnd rnd_body ≡ ok (hex_encode rnd)
        → IsBytes rnd
        → length rnd ≡ 32
        → generate_pow hex2bytes search p.node rnd p.diffcult ≡ ok nonce
        → web.marshal_proof (record { node = p.node; nonce = to_bits nonce }) ≡ ok json
        → Answers (post_of json) reply s2 s3
        → round p (client_round web base_url hex2bytes search p.node now false s) ≡ (
          record p { last = (calculate_wating_time p now).0.1 },
          submits (record { node = p.node; nonce = to_bits nonce }) true,
        )
    unfolding client_round
    round-client_round p now count nonce count_body rnd_body rnd json reply s s1 s2 s3 counted
          count_read some_order sent rnd_read bytes long searched made posted =
        let counts = count-Answers p.node.address count_body count s s1 count_read counted in
        let draws : get_rnd web base_url (get_v1_order_count web base_url p.node.address s).1
            ≡ (ok rnd, s2) =
          ap (λ (a : Result ℤ × web.State). get_rnd web base_url a.1) counts
          ∙ get_rnd-hex_encode rnd rnd_body s1 s2 bytes long rnd_read sent in
        let proof : Proof = record { node = p.node; nonce = to_bits nonce } in
        round-submits p (client_round web base_url hex2bytes search p.node now false s) count rnd
          (to_bits nonce) refl (λ i. (counts i).0) some_order (λ i. (draws i).0)
          (ap nonce_bits searched)
          (ap (λ (a : Result Str × web.State). (submit_proof web base_url proof a.1).0) draws ∙ λ i.
            (submit-Answers proof json reply s2 s3 made posted i).0)

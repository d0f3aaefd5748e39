-- ===== src/Prover.antt =====
-- prover/prover.go and prover/types/types.go: when a proof is generated, and what it is bound to.
pub mod Window
pub mod Bytes
pub mod Cycles
pub mod Rounds
pub mod Stopping
pub mod Client
use computing_api.Base.{
  Bool, Result, Str, [], bind, err, false, if◌then◌else◌, new, ok, str_eq, suc, true, zero, ℕ, ◌%◌,
  ◌++◌, ◌+◌, ◌/◌, ◌∷◌,
}
use computing_api.Base.Int.{ltb_ℤ, pos, rem, wrap64, ℤ, ◌+ℤ◌, ◌-ℤ◌}

-- prover/types/types.go; the 64-bit id and nonce are their bit patterns.
pub record NodeId : Type 0 where
  pub address : Str
  pub id : ℕ

pub record Proof : Type 0 where
  pub node : NodeId
  pub nonce : ℕ

-- `binary.LittleEndian.PutUint64`
unfoldable pub put_uint64 : ℕ → ℕ → Str
put_uint64 zero n = []
put_uint64 (suc bytes) n = (n % 256) ∷ put_uint64 bytes (n / 256)

-- `common.Hex2Bytes` is a parameter.
unfoldable pub node_bytes : (Str → Str) → NodeId → Str
unfolding put_uint64
node_bytes hex2bytes n = hex2bytes n.address ++ put_uint64 8 n.id

unfoldable pub proof_bytes : (Str → Str) → Proof → Str
unfolding node_bytes put_uint64
proof_bytes hex2bytes p = node_bytes hex2bytes p.node ++ put_uint64 8 p.nonce

-- The fields of a prover that the loop uses; intervals and times in seconds.
pub record GridProver : Type 0 where
  pub node : NodeId
  pub last : ℤ
  pub prepare_interval : ℕ
  pub prover_interval : ℕ
  pub wait_interval : ℕ
  pub diffcult : ℕ
  pub doned : Bool
  pub validator_url : Str

-- `NewGRIDProver`, given what `crypto.HexToECDSA` and `PubkeyToAddress` make of the secret key; it
-- does not use the chain.
unfoldable pub new_grid_prover :
    (Str → Result Str) → (chain validator_url sk : Str) → ℕ → Result GridProver
new_grid_prover address_of_key chain validator_url sk id =
    if str_eq sk []
    then err (new "sk is required for new Prover")
    else bind (address_of_key sk) λ address. ok (record {
      node = record { address = address; id = id };
      last = pos 0;
      prepare_interval = 10;
      prover_interval = 10;
      wait_interval = 100;
      diffcult = 10;
      doned = false;
      validator_url = validator_url;
    })

unfoldable pub cycle : GridProver → ℕ
cycle p = p.prepare_interval + p.prover_interval + p.wait_interval

-- `over`: where in the cycle the clock stands, negative before `last`.
unfoldable pub over : GridProver → ℤ → ℤ
unfolding cycle
over p now = rem (wrap64 (now -ℤ p.last)) (cycle p)

-- The seconds to wait, and the new `last`.
unfoldable pub waiting : GridProver → ℤ → ℤ → ℤ × ℤ
waiting p now o =
    if ltb_ℤ o (pos p.prepare_interval)
    then (wrap64 (pos p.prepare_interval -ℤ o), wrap64 (now -ℤ o))
    else if ltb_ℤ (pos (p.prepare_interval + p.prover_interval)) o
    then (
      wrap64 (pos (cycle p + p.prepare_interval) -ℤ o),
      wrap64 (wrap64 (now -ℤ o) +ℤ pos (cycle p)),
    )
    else (pos 0, p.last)

-- `CalculateWatingTime`: the seconds to wait, the start of the next cycle, and the prover.
unfoldable pub calculate_wating_time : GridProver → ℤ → (ℤ × ℤ) × GridProver
unfolding over waiting
calculate_wating_time p now =
    let (seconds, last) = waiting p now (over p now) in
    ((seconds, wrap64 (last +ℤ pos (cycle p))), record p { last = last })

-- What one round of the loop of `Start` meets: the time that it reads, whether it is told to stop
-- while it waits, and what the calls return.
pub record Round : Type 0 where
  pub now : ℤ
  pub stopped : Bool
  pub order_count : Result ℤ
  pub rnd : Result Str
  pub proof : NodeId → Str → ℕ → Result ℕ
  pub submitted : Proof → Result (Unit {0})

-- How a round ends: the loop returns, it goes on with nothing submitted, or it has called
-- `ProveToValidator` (whose error is only logged).
pub data Ending : Type 0 where
  returned : Ending
  skipped : Ending
  submits : Proof → Bool → Ending

abbrev succeeded : Result (Unit {0}) → Bool
succeeded (ok _) = true
succeeded _ = false

abbrev pub after_proof : GridProver → ℤ → Round → Result ℕ → GridProver × Ending
after_proof p next r (ok nonce) =
    let proof : Proof = record { node = p.node; nonce = nonce } in
    (record p { last = next }, submits proof (succeeded (r.submitted proof)))
after_proof p next r failed = (p, skipped)

abbrev pub after_rnd : GridProver → ℤ → Round → Result Str → GridProver × Ending
after_rnd p next r (ok rnd) = after_proof p next r (r.proof p.node rnd p.diffcult)
after_rnd p next r failed = (p, skipped)

abbrev pub after_count : GridProver → ℤ → Round → Result ℤ → GridProver × Ending
after_count p next r (ok count) =
    if ltb_ℤ (pos 0) count then after_rnd p next r r.rnd else (p, skipped)
after_count p next r failed = (p, skipped)

unfoldable pub round : GridProver → Round → GridProver × Ending
unfolding calculate_wating_time
round p r =
    let ((seconds, next), p') = calculate_wating_time p r.now in
    if r.stopped
    then (record p' { doned = true }, returned)
    else after_count p' next r r.order_count

-- ===== src/Prover/Rounds.antt =====
-- What a round of the prover submits.
use computing_api.Base.{
  Bool, Result, Str, arith, err, false, if◌then◌else◌, ok, panic, refl, true, ℕ, ◌≡◌,
}
use computing_api.Prover.{
  Ending, GridProver, Proof, Round, after_count, after_proof, after_rnd, calculate_wating_time,
  returned, round, skipped, submits,
}
use computing_api.Base.Int.{ltb_ℤ, pos, ℤ, ◌<ℤ◌}

of_proof :
    (r : Result ℕ) (p p' : GridProver) (next : ℤ) (rd : Round) (proof : Proof) (sent : Bool)
    → after_proof p next rd r ≡ (p', submits proof sent)
    → (r ≡ ok proof.nonce) × (proof.node ≡ p.node) × (p'.last ≡ next)
of_proof (ok nonce) p p' next rd proof sent h = (cc, cc, cc)
of_proof (err e) p p' next rd proof sent h = cc
of_proof (panic why) p p' next rd proof sent h = cc

of_rnd :
    (r : Result Str) (p p' : GridProver) (next : ℤ) (rd : Round) (proof : Proof) (sent : Bool)
    → after_rnd p next rd r ≡ (p', submits proof sent)
    → (rnd : Str) × (r ≡ ok rnd)
      × (rd.proof p.node rnd p.diffcult ≡ ok proof.nonce)
      × (proof.node ≡ p.node)
      × (p'.last ≡ next)
of_rnd (ok rnd) p p' next rd proof sent h =
    let (made, own, last) = of_proof _ p p' next rd proof sent h in (rnd, refl, made, own, last)
of_rnd (err e) p p' next rd proof sent h = cc
of_rnd (panic why) p p' next rd proof sent h = cc

some_orders :
    (found : Bool) (p p' : GridProver) (go : GridProver × Ending) (proof : Proof) (sent : Bool)
    → (if found then go else (p, skipped)) ≡ (p', submits proof sent)
    → (found ≡ true) × (go ≡ (p', submits proof sent))
some_orders true p p' go proof sent h = (refl, h)
some_orders false p p' go proof sent h = cc

positive : (z : ℤ) → ltb_ℤ (pos 0) z ≡ true → pos 0 <ℤ z
positive z h = ground arith

of_count :
    (r : Result ℤ) (p p' : GridProver) (next : ℤ) (rd : Round) (proof : Proof) (sent : Bool)
    → after_count p next rd r ≡ (p', submits proof sent)
    → (count : ℤ) × (rnd : Str) × (r ≡ ok count)
      × (pos 0 <ℤ count)
      × (rd.rnd ≡ ok rnd)
      × (rd.proof p.node rnd p.diffcult ≡ ok proof.nonce)
      × (proof.node ≡ p.node)
      × (p'.last ≡ next)
of_count (ok count) p p' next rd proof sent h =
    let (found, h1) = some_orders (ltb_ℤ (pos 0) count) p p' _ proof sent h in
    let (rnd, got, made, own, last) = of_rnd rd.rnd p p' next rd proof sent h1 in
    (count, rnd, refl, positive count found, got, made, own, last)
of_count (err e) p p' next rd proof sent h = cc
of_count (panic why) p p' next rd proof sent h = cc

not_stopped :
    (stopped : Bool) (p p' : GridProver) (go : GridProver × Ending) (proof : Proof) (sent : Bool)
    → (if stopped then (p, returned) else go) ≡ (p', submits proof sent)
    → (stopped ≡ false) × (go ≡ (p', submits proof sent))
not_stopped true p p' go proof sent h = cc
not_stopped false p p' go proof sent h = (refl, h)

-- A round that submits was not stopped, found at least one order, got a random value, and submits
-- the nonce that was generated for the prover's own node and that value; `last` is then the start
-- of the next cycle, whether the submission succeeded or not.
pub round_submits :
    (p p' : GridProver) (r : Round) (proof : Proof) (sent : Bool)
    → round p r ≡ (p', submits proof sent)
    → (r.stopped ≡ false)
      × (count : ℤ) × (rnd : Str) × (r.order_count ≡ ok count)
      × (pos 0 <ℤ count)
      × (r.rnd ≡ ok rnd)
      × (r.proof p.node rnd p.diffcult ≡ ok proof.nonce)
      × (proof.node ≡ p.node)
      × (p'.last ≡ (calculate_wating_time p r.now).0.1)
unfolding round calculate_wating_time
round_submits p p' r proof sent h =
    let next = (calculate_wating_time p r.now).0.1 in
    let waited = (calculate_wating_time p r.now).1 in
    let (going, h1) = not_stopped r.stopped (record waited { doned = true }) p' _ proof sent h in
    let (count, rnd, counted, some_there, got, made, own, last) =
      of_count r.order_count waited p' next r proof sent h1 in
    (going, count, rnd, counted, some_there, got, made, own, last)

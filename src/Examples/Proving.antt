-- ===== src/Examples/Proving.antt =====
-- The prover at some times.
use computing_api.Base.{Str, [], arith, err, false, foreign, ok, refl, ◌∷◌, ◌≡◌, ◌≤◌}
use computing_api.Prover.{
  GridProver, Proof, Round, calculate_wating_time, cycle, over, round, waiting,
}
use computing_api.Prover.Window.{HasIntervals, calculate_wating_time_lands, phase}
use computing_api.Prover.Cycles.{one_proof_in_cycle}
use computing_api.Prover.Stopping.{
  Run, Steps, after, call_stop, calls, ended, fresh_run, here, launch, launches, leave, leaves,
  poll_stop, polls, work,
}
use computing_api.Prover.Stopping.Laws.{stopped_for_good}
use computing_api.Prover.Stopping.Returns.{stop_can_return, wind_up}
use computing_api.Prover.Rounds.{round_submits}
use computing_api.Examples.{user}
use computing_api.Base.Int.{of_bits, pos, rem, to_bits, wrap64, ℤ, ◌+ℤ◌, ◌-ℤ◌, ◌<ℤ◌, ◌≤ℤ◌}

abbrev prover : GridProver
prover = record {
  node = record { address = user; id = 3 };
  last = pos 1200;
  prepare_interval = 10;
  prover_interval = 10;
  wait_interval = 100;
  diffcult = 10;
  doned = false;
  validator_url = [];
}

prover-HasIntervals : HasIntervals prover
prover-HasIntervals = record { prepare = refl; prove = refl; wait = refl }

calculate_wating_time_lands_example :
    (pos 0 ≤ℤ (calculate_wating_time prover (pos 1250)).0.0)
    × ((calculate_wating_time prover (pos 1250)).0.0 <ℤ pos 130)
    × (10 ≤ phase (pos 1250 -ℤ pos 1200 +ℤ (calculate_wating_time prover (pos 1250)).0.0) 120)
    × (phase (pos 1250 -ℤ pos 1200 +ℤ (calculate_wating_time prover (pos 1250)).0.0) 120 ≤ 20)
calculate_wating_time_lands_example =
    calculate_wating_time_lands prover (pos 1250) prover-HasIntervals (omega arith, omega arith)
      (omega arith, omega arith)

-- From second 1250 the loop waits to 1330 and submits; asked again at 1335 it waits to 1450.
one_proof_in_cycle_example :
    pos 1335
      +ℤ (calculate_wating_time
          (record prover { last = (calculate_wating_time prover (pos 1250)).0.1 })
          (pos 1335)).0.0
    ≡ (calculate_wating_time prover (pos 1250)).0.1 +ℤ pos 10
unfolding calculate_wating_time over waiting cycle rem wrap64 to_bits of_bits ◌+ℤ◌ ◌-ℤ◌
one_proof_in_cycle_example =
    one_proof_in_cycle prover (pos 1250) (pos 1335) prover-HasIntervals (omega arith, omega arith)
      (omega arith, omega arith) (omega arith, omega arith) (omega arith, omega arith) (λ e. cc)
      (omega arith) (omega arith)

abbrev quiet_round : Round
quiet_round = record {
  now = pos 1250;
  stopped = false;
  order_count = ok (pos 2);
  rnd = ok (9 ∷ []);
  proof = λ node rnd diffcult. ok 77;
  submitted = λ proof. err (foreign "refused");
}

abbrev submitted_proof : Proof
submitted_proof = record { node = prover.node; nonce = 77 }

round_submits_example :
    (quiet_round.stopped ≡ false)
    × (count : ℤ) × (rnd : Str) × (quiet_round.order_count ≡ ok count)
    × (pos 0 <ℤ count)
    × (quiet_round.rnd ≡ ok rnd)
    × (quiet_round.proof prover.node rnd prover.diffcult ≡ ok submitted_proof.nonce)
    × (submitted_proof.node ≡ prover.node)
    × ((round prover quiet_round).0.last ≡ (calculate_wating_time prover (pos 1250)).0.1)
unfolding round
round_submits_example =
    round_submits prover (round prover quiet_round).0 quiet_round submitted_proof false refl

-- `Stop` is called as the loop starts, the loop leaves, and the call returns.
abbrev asked : Run
asked = launch (call_stop (fresh_run prover))

abbrev left : Run
left = leave (pos 1250) asked

asked_first : Steps (fresh_run prover) asked
unfolding fresh_run call_stop
asked_first = after calls (after (launches refl) here)

then_left : Steps (fresh_run prover) (poll_stop left)
unfolding fresh_run call_stop launch leave
then_left =
    after calls (
      after (launches refl)
        (after (leaves (pos 1250) refl refl) (after (polls (omega arith)) here)))

stopped_for_good_example :
    ((poll_stop left).loop ≡ ended)
    × ((call_stop (poll_stop left)).loop ≡ ended)
    × ((call_stop (poll_stop left)).sent ≡ (poll_stop left).sent)
    × ((call_stop (poll_stop left)).prover ≡ (poll_stop left).prover)
unfolding fresh_run call_stop launch leave poll_stop
stopped_for_good_example =
    stopped_for_good prover (poll_stop left) (call_stop (poll_stop left)) refl then_left
      (omega arith) (after calls here)

abbrev returned : Run
unfolding wind_up poll_stop fresh_run call_stop launch leave work calculate_wating_time
returned = poll_stop (wind_up (pos 1250) quiet_round asked.loop asked)

stop_can_return_example :
    Steps asked returned
    × (returned.stopped ≡ 1)
    × (returned.waiting ≡ 0)
    × (returned.cancelled ≡ asked.cancelled)
unfolding fresh_run call_stop launch returned poll_stop
stop_can_return_example =
    stop_can_return prover asked (pos 1250) quiet_round refl asked_first (λ e. cc) (omega arith)

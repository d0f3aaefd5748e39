-- ===== src/Prover/Cycles.antt =====
-- How often the prover submits in a cycle.
use mathlib.Core.Path.{subst}
use computing_api.Base.{ap, arith, sym, ℕ, ◌%◌, ◌-◌, ◌<◌, ◌∙◌, ◌≡◌, ◌≢◌, ◌≤◌}
use computing_api.Prover.{GridProver, calculate_wating_time}
use computing_api.Prover.Window.{HasIntervals, IsClock, calculate-eq-plain, plain}
use computing_api.Base.Int.{int_laws, neg_part, pos, pos_part, rem, ℤ, ◌+ℤ◌, ◌-ℤ◌, ◌<ℤ◌, ◌≤ℤ◌}

rem_small : (d : ℤ) → pos_part d < 120 → neg_part d < 120 → rem d 120 ≡ d
unfolding rem
rem_small d h k = ground arith

wait_until : (now last : ℤ) → now +ℤ (pos 10 -ℤ (now -ℤ last)) ≡ last +ℤ pos 10
wait_until now last = omega int_laws

regroup : (a b o : ℤ) → a +ℤ (b -ℤ o) ≡ a -ℤ o +ℤ b
regroup a b o = omega int_laws

regroup_cycle : (a o : ℤ) → a +ℤ (pos 130 -ℤ o) ≡ a -ℤ o +ℤ pos 120 +ℤ pos 10
regroup_cycle a o = omega int_laws

difference_small :
    (last now : ℤ)
    → last <ℤ (now +ℤ pos 120)
    → now <ℤ (last +ℤ pos 10)
    → (pos_part (now -ℤ last) < 120) × (neg_part (now -ℤ last) < 120)
unfolding ◌+ℤ◌ ◌-ℤ◌
difference_small last now low high = ground arith

difference_before : (last now : ℤ) → now <ℤ (last +ℤ pos 10) → (now -ℤ last) <ℤ pos 10
difference_before last now h = omega int_laws

cycle_low : (z t : ℤ) → (z +ℤ pos 10) ≤ℤ t → (z +ℤ pos 120) <ℤ (t +ℤ pos 120)
cycle_low z t h = omega int_laws

plain_in_window :
    (last now : ℤ) (n : ℕ)
    → now -ℤ last ≡ pos n
    → 10 ≤ n % 120
    → n % 120 ≤ 20
    → plain last now ≡ (pos 0, last)
unfolding plain rem
plain_in_window last now n e low high = rw e (ground arith)

elapsed : (last : ℤ) (n : ℕ) → last +ℤ pos n -ℤ last ≡ pos n
elapsed last n = omega int_laws

elapsed_next :
    (last : ℤ) (n : ℕ) → 120 ≤ n → last +ℤ pos n +ℤ pos 1 -ℤ (last +ℤ pos 120) ≡ pos (n - 119)
elapsed_next last n h = omega int_laws

-- Short of the window the wait is to its start, from up to two minutes before the cycle on.
plain_before :
    (last now : ℤ)
    → last <ℤ (now +ℤ pos 120)
    → now <ℤ (last +ℤ pos 10)
    → now +ℤ (plain last now).0 ≡ last +ℤ pos 10
unfolding plain
plain_before last now low high =
    let d = now -ℤ last in
    let same : rem d 120 ≡ d =
      rem_small d (difference_small last now low high).0 (difference_small last now low high).1 in
    rw same (ground (arith, wait_until now last, difference_before last now high))

-- A wait that is not nothing ends ten seconds into the cycle that is now the last one.
plain_wakes :
    (last now : ℤ)
    → (plain last now).0 ≢ pos 0
    → now +ℤ (plain last now).0 ≡ (plain last now).1 +ℤ pos 10
unfolding plain
plain_wakes last now waits =
    let o = rem (now -ℤ last) 120 in ground (arith, regroup now (pos 10) o, regroup_cycle now o)

-- For a prover with the intervals that `NewGRIDProver` sets, and times below 2^61: after a wait
-- that is not nothing and a submission, which sets `last` to the start of the next cycle, a call
-- that is made after the wait and before the next window waits until that window opens, so there is
-- no second proof in the cycle.
pub one_proof_in_cycle :
    (p : GridProver) (now later_on : ℤ)
    → HasIntervals p
    → IsClock now
    → IsClock p.last
    → IsClock later_on
    → IsClock (calculate_wating_time p now).0.1
    → (calculate_wating_time p now).0.0 ≢ pos 0
    → (now +ℤ (calculate_wating_time p now).0.0) ≤ℤ later_on
    → later_on <ℤ ((calculate_wating_time p now).0.1 +ℤ pos 10)
    → later_on
        +ℤ (calculate_wating_time
            (record p { last = (calculate_wating_time p now).0.1 })
            later_on).0.0
      ≡ (calculate_wating_time p now).0.1 +ℤ pos 10
one_proof_in_cycle p now later_on h c l cl cn waits woke early =
    let (w, n, _) = calculate-eq-plain p now h c l in
    let p' = record p { last = (calculate_wating_time p now).0.1 } in
    let h' : HasIntervals p' = record { prepare = h.prepare; prove = h.prove; wait = h.wait } in
    let woken = plain_wakes p.last now (subst (λ z. z ≢ pos 0) w waits) in
    rw (calculate-eq-plain p' later_on h' cl cn).0 (
      plain_before (calculate_wating_time p now).0.1 later_on
        (rw n (cycle_low (plain p.last now).1 later_on (rw (w, woken) at woke))) early)

-- In the window `last` is not moved. For a prover with the intervals that `NewGRIDProver` sets, and
-- times below 2^61, let `last` be a cycle or more behind, as at the start of the program, and the
-- clock at least a second before the end of the window: the call waits for nothing, the next cycle
-- that it returns has begun already, and after the submission a call one second later waits for
-- nothing again, which makes a second proof in the same window.
stale_window :
    (p : GridProver) (now : ℤ) (n : ℕ)
    → HasIntervals p
    → IsClock now
    → IsClock p.last
    → IsClock (p.last +ℤ pos 120)
    → IsClock (now +ℤ pos 1)
    → now ≡ p.last +ℤ pos n
    → 120 ≤ n
    → 10 ≤ n % 120
    → n % 120 < 20
    → ((calculate_wating_time p now).0.0 ≡ pos 0)
      × ((calculate_wating_time
            (record p { last = (calculate_wating_time p now).0.1 })
            (now +ℤ pos 1)).0.0
          ≡ pos 0)
stale_window p now n h c l ln c1 e far low high =
    let (w, next, _) = calculate-eq-plain p now h c l in
    let here = plain_in_window p.last now n (rw e (elapsed p.last n)) low (omega arith) in
    let p' = record p { last = (calculate_wating_time p now).0.1 } in
    let h' : HasIntervals p' = record { prepare = h.prepare; prove = h.prove; wait = h.wait } in
    let next' : (calculate_wating_time p now).0.1 ≡ p.last +ℤ pos 120 =
      next ∙ ap (λ r. r.1 +ℤ pos 120) here in
    (
      w ∙ ap (λ r. r.0) here,
      (calculate-eq-plain p' (now +ℤ pos 1) h' c1 (subst IsClock (sym next') ln)).0
          ∙ ap (λ r. r.0)
              (plain_in_window _ _ (n - 119) (rw (next', e) (elapsed_next p.last n far))
                (omega arith) (omega arith)),
    )

-- ===== src/Prover/Window.antt =====
-- When the loop of the prover wakes up.
use computing_api.Base.{ap, arith, if◌then◌else◌, ℕ, ◌%◌, ◌+◌, ◌-◌, ◌<◌, ◌^◌, ◌∙◌, ◌≡◌, ◌≤◌}
use computing_api.Prover.{GridProver, calculate_wating_time, cycle, over, waiting}
use computing_api.Base.Int.{
  +ℤ_size, -ℤ_size, ltb_ℤ, neg_part, negsuc, pos, pos_part, rem, size_laws, wrap64-eq_self, ℤ, ◌+ℤ◌,
  ◌-ℤ◌, ◌<ℤ◌, ◌≤ℤ◌,
}

-- A prover as `NewGRIDProver` makes it, but for the time of its last cycle.
pub record HasIntervals (p : GridProver) : Type 0 where
  pub prepare : p.prepare_interval ≡ 10
  pub prove : p.prover_interval ≡ 10
  pub wait : p.wait_interval ≡ 100

-- Where a time stands in the cycles of `m` seconds that count from another.
abbrev pub phase : ℤ → ℕ → ℕ
phase (pos n) m = n % m
phase (negsuc n) m = m - 1 - n % m

-- A time that an int64 holds with room for all sums here.
abbrev pub IsClock : ℤ → Type 0
IsClock z = (pos_part z < 2 ^ 61) × (neg_part z < 2 ^ 61)

-- The waiting time in cycles of 120 seconds, with no wrap-around.
unfoldable pub plain : ℤ → ℤ → ℤ × ℤ
plain last now =
    let o = rem (now -ℤ last) 120 in
    if ltb_ℤ o (pos 10)
    then (pos 10 -ℤ o, now -ℤ o)
    else if ltb_ℤ (pos 20) o
    then (pos 130 -ℤ o, now -ℤ o +ℤ pos 120)
    else (pos 0, last)

rem_bounds : (z : ℤ) → (pos_part (rem z 120) < 120) × (neg_part (rem z 120) < 120)
unfolding rem
rem_bounds z = ground arith

over-eq-rem :
    (p : GridProver) (now : ℤ)
    → HasIntervals p
    → IsClock now
    → IsClock p.last
    → over p now ≡ rem (now -ℤ p.last) 120
unfolding over
over-eq-rem p now h c l =
    ap (λ z. rem z (p.prepare_interval + p.prover_interval + p.wait_interval))
      (wrap64-eq_self (now -ℤ p.last) (omega size_laws))
    ∙ ap (rem (now -ℤ p.last)) {y = 120} (omega arith)

waiting-eq-plain :
    (p : GridProver) (now : ℤ)
    → HasIntervals p
    → IsClock now
    → IsClock p.last
    → waiting p now (rem (now -ℤ p.last) 120) ≡ plain p.last now
unfolding waiting plain cycle
waiting-eq-plain p now h c l =
    let o = rem (now -ℤ p.last) 120 in
    let small = rem_bounds (now -ℤ p.last) in
    simp (h.prepare, h.prove, h.wait)
      (rw (
        wrap64-eq_self (pos 10 -ℤ o) (omega (size_laws, small)),
        wrap64-eq_self (pos 130 -ℤ o) (omega (size_laws, small)),
        wrap64-eq_self (now -ℤ o) (omega (size_laws, small)),
        wrap64-eq_self (now -ℤ o +ℤ pos 120) (omega (size_laws, small)),
      ))

plain_size :
    (last now : ℤ)
    → (pos_part (plain last now).1 ≤ pos_part last + pos_part now + 240)
      × (neg_part (plain last now).1 ≤ neg_part last + neg_part now + 120)
unfolding plain
plain_size last now = ground (
  arith,
  rem_bounds (now -ℤ last),
  +ℤ_size (now -ℤ rem (now -ℤ last) 120) (pos 120),
  -ℤ_size now (rem (now -ℤ last) 120),
)

-- What a call returns, with no wrap-around.
pub calculate-eq-plain :
    (p : GridProver) (now : ℤ)
    → HasIntervals p
    → IsClock now
    → IsClock p.last
    → ((calculate_wating_time p now).0.0 ≡ (plain p.last now).0)
      × ((calculate_wating_time p now).0.1 ≡ (plain p.last now).1 +ℤ pos 120)
      × ((calculate_wating_time p now).1.last ≡ (plain p.last now).1)
unfolding calculate_wating_time
calculate-eq-plain p now h c l =
    let e : waiting p now (over p now) ≡ plain p.last now =
      ap (waiting p now) (over-eq-rem p now h c l) ∙ waiting-eq-plain p now h c l in
    let cycles : cycle p ≡ 120 = unfold cycle in omega arith in
    (
      ap (λ r. r.0) e,
      rw (e, cycles) (wrap64-eq_self _ (omega (size_laws, plain_size p.last now))),
      ap (λ r. r.1) e,
    )

lands_in_branches :
    (d : ℤ)
    → let o = rem d 120 in
      let w =
        (if ltb_ℤ o (pos 10)
          then pos 10 -ℤ o
          else if ltb_ℤ (pos 20) o
          then pos 130 -ℤ o
          else pos 0) in
      (pos 0 ≤ℤ w) × (w <ℤ pos 130) × (10 ≤ phase (d +ℤ w) 120) × (phase (d +ℤ w) 120 ≤ 20)
unfolding rem ◌+ℤ◌ ◌-ℤ◌
lands_in_branches (pos n) = ground arith
lands_in_branches (negsuc n) = ground arith

plain_lands :
    (last now : ℤ)
    → (pos 0 ≤ℤ (plain last now).0)
      × ((plain last now).0 <ℤ pos 130)
      × (10 ≤ phase (now -ℤ last +ℤ (plain last now).0) 120)
      × (phase (now -ℤ last +ℤ (plain last now).0) 120 ≤ 20)
unfolding plain
plain_lands last now = ground (arith, lands_in_branches (now -ℤ last))

-- For a prover with the intervals that `NewGRIDProver` sets, and times below 2^61: the loop waits
-- less than 130 seconds, and when it wakes up the clock stands between the tenth and the twentieth
-- second of a cycle of 120 seconds that counts from `last`, in the proving window.
pub calculate_wating_time_lands :
    (p : GridProver) (now : ℤ)
    → HasIntervals p
    → IsClock now
    → IsClock p.last
    → (pos 0 ≤ℤ (calculate_wating_time p now).0.0)
      × ((calculate_wating_time p now).0.0 <ℤ pos 130)
      × (10 ≤ phase (now -ℤ p.last +ℤ (calculate_wating_time p now).0.0) 120)
      × (phase (now -ℤ p.last +ℤ (calculate_wating_time p now).0.0) 120 ≤ 20)
calculate_wating_time_lands p now h c l =
    rw (calculate-eq-plain p now h c l).0 (plain_lands p.last now)

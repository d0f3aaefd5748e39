-- ===== src/Remote/Expiry.antt =====
-- When an order has expired.
use computing_api.Base.{
  ap, arith, err, false, if◌then◌else◌, new, ok, ℕ, ◌%◌, ◌*◌, ◌+◌, ◌<◌, ◌^◌, ◌↔◌, ◌≡◌, ◌≤◌,
}
use computing_api.Chain.{Order}
use computing_api.Remote.{expire_check, out_of_int64}
use computing_api.Base.Int.{ltb_ℤ, of_bits, pos, wrap64, wrap64-eq_self, ℤ, ◌+ℤ◌, ◌<ℤ◌, ◌≤ℤ◌}

out_of_int64-pos : (n : ℕ) → n < 2 ^ 63 → out_of_int64 (pos n) ≡ false
unfolding out_of_int64
out_of_int64-pos n h = rw (wrap64-eq_self (pos n) (h, omega arith)) (ground arith)

wrap64-wrap64-+ℤ :
    (a p d : ℕ)
    → a < 2 ^ 63
    → p < 2 ^ 63
    → d < 2 ^ 63
    → wrap64 (wrap64 (pos a +ℤ pos p) +ℤ pos d) ≡ wrap64 (pos (a + p + d))
unfolding wrap64 ◌+ℤ◌
wrap64-wrap64-+ℤ a p d ha hp hd = ground arith

module _ (now : ℤ) (a p d : ℕ) (order : Order) (ea : order.activate_time ≡ pos a)
    (ep : order.probation ≡ pos p) (ed : order.duration ≡ pos d) (ha : a < 2 ^ 63) (hp : p < 2 ^ 63)
    (hd : d < 2 ^ 63) where
  -- With times that are int64 numbers only the end counts.
  expire_check-fits :
      expire_check now order
      ≡ (if ltb_ℤ (wrap64 (pos (a + p + d))) now then err (new "the order has expired") else ok tt)
  unfolding expire_check
  expire_check-fits = rw (
    ea,
    ep,
    ed,
    out_of_int64-pos a ha,
    out_of_int64-pos p hp,
    out_of_int64-pos d hd,
    wrap64-eq_self (pos a) (ha, omega arith),
    wrap64-eq_self (pos p) (hp, omega arith),
    wrap64-eq_self (pos d) (hd, omega arith),
    wrap64-wrap64-+ℤ a p d ha hp hd,
  )

-- An order passes the check exactly until the sum of its activation time, probation and duration,
-- that second included, if these times are not negative and their sum fits an int64.
pub expire_check_iff :
    (now : ℤ) (a p d : ℕ) (order : Order)
    → order.activate_time ≡ pos a
    → order.probation ≡ pos p
    → order.duration ≡ pos d
    → a + p + d < 2 ^ 63
    → (expire_check now order ≡ ok tt) ↔ (now ≤ℤ pos (a + p + d))
expire_check_iff now a p d order ea ep ed fits =
    rw
      (
        expire_check-fits now a p d order ea ep ed (omega arith) (omega arith) (omega arith),
        wrap64-eq_self (pos (a + p + d)) (fits, omega arith),
      )
      (ground arith)

wrap64-past : (n : ℕ) → 2 ^ 63 ≤ n → n < 2 ^ 64 → wrap64 (pos n) <ℤ pos 0
unfolding wrap64
wrap64-past n low high = ground arith

-- A sum of times past the largest int64 wraps to a negative end: such an order is refused at every
-- time from 1970 on, though each of its times passes the overflow check.
expire_check_overflow :
    (now a p d : ℕ) (order : Order)
    → order.activate_time ≡ pos a
    → order.probation ≡ pos p
    → order.duration ≡ pos d
    → a < 2 ^ 63
    → p < 2 ^ 63
    → d < 2 ^ 63
    → 2 ^ 63 ≤ a + p + d
    → a + p + d < 2 ^ 64
    → expire_check (pos now) order ≡ err (new "the order has expired")
expire_check_overflow now a p d order ea ep ed ha hp hd low high =
    rw (expire_check-fits (pos now) a p d order ea ep ed ha hp hd)
      (ground (arith, wrap64-past (a + p + d) low high))

wrap64-low_bits : (a k : ℕ) → wrap64 (pos (a + 2 ^ 64 * k)) ≡ wrap64 (pos a)
unfolding wrap64
wrap64-low_bits a k =
    ap (λ b. of_bits b) {x = (a + 2 ^ 64 * k) % 2 ^ 64} {y = a % 2 ^ 64} (omega arith)

-- The guards read the low 64 bits only: an activation time past 64 bits is taken for its remainder,
-- and passes where the remainder does.
expire_check_truncates :
    (now : ℤ) (order : Order) (a k : ℕ)
    → order.activate_time ≡ pos (a + 2 ^ 64 * k)
    → expire_check now order ≡ expire_check now (record order { activate_time = pos a })
unfolding expire_check
expire_check_truncates now order a k e = rw (e, wrap64-low_bits a k)

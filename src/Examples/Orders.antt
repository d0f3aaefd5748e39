-- ===== src/Examples/Orders.antt =====
-- Orders on the small chain.
use computing_api.Base.{arith, ok, refl, text, ℕ, ◌≡◌}
use computing_api.Utils.{string_to_uint64}
use computing_api.Std.Strconv.{parse_uint}
use computing_api.Remote.{confirm, expire_check, extend, open_market}
use computing_api.Remote.Expiry.{expire_check_iff}
use computing_api.Remote.Orders.{Confirmed, extend_sound}
use computing_api.Examples.{active_order, ledger, user}
use computing_api.Base.Int.{pos, ◌+ℤ◌}

expire_check_iff_example : expire_check (pos 1510) active_order ≡ ok tt
unfolding ◌+ℤ◌
expire_check_iff_example =
    (expire_check_iff (pos 1510) 1000 10 500 active_order refl refl refl (omega arith)).1
      (omega arith)

extend_sound_example :
    (n : ℕ) × (string_to_uint64 (text "60") ≡ ok n)
    × Confirmed ledger user (λ signer. ledger.send_extend signer 1 n) 0 1
unfolding extend open_market confirm string_to_uint64 parse_uint text
extend_sound_example = extend_sound ledger user (text "60") 1 0 1 refl

-- ===== src/Http/Orders.antt =====
-- The handlers of handler.go that extend, reset and settle orders. None of them asks for a cookie.
use computing_api.Base.{Exec, attempt, if◌then◌else◌, not, reads, ◌==◌}
use computing_api.Utils.{or_zero, string_to_uint64}
use computing_api.Kv.{Badger}
use computing_api.Kube.{Kube}
use computing_api.World.{World}
use computing_api.Gateway.{GatewayApi}
use computing_api.Http.{Reply, Request, msg, msg_error, reply}
use computing_api.Chain.{Chain}

module _ {b : Badger} {k : Kube} {ch : Chain} (gw : GatewayApi (World b k ch)) where
  -- `handlerExtend`
  unfoldable pub handler_extend : Request → Exec (World b k ch) Reply
  handler_extend c =
      let oid = or_zero (string_to_uint64 c.oid) in
      attempt (reads (gw.get_order oid))
        (λ e. reply 400 (msg_error "[Fail] get order info from contract failed" e))
        (λ order.
          if not (order.status == 2)
          then reply 500 (msg "[Error] only activated order can be renewed")
          else attempt (gw.extend c.sk oid c.dur)
              (λ e. reply 500 (msg_error "[Fail] Failed to renew" e))
              (λ _. reply 200 (msg "[ACK] order renewed")))

  -- `handlerReset`
  unfoldable pub handler_reset : Request → Exec (World b k ch) Reply
  handler_reset c =
      attempt (gw.reset (or_zero (string_to_uint64 c.oid)) c.prob c.dur)
        (λ e. reply 500 (msg_error "[Fail] Failed to reset" e))
        (λ _. reply 200 (msg "[ACK] order reset to status 2 (active)"))

  -- `handlerSettle`
  unfoldable pub handler_settle : Request → Exec (World b k ch) Reply
  handler_settle c =
      attempt (gw.settle (or_zero (string_to_uint64 c.oid)))
        (λ e. reply 500 (msg_error "[Fail] Failed to settle" e))
        (λ _. reply 200 (msg "[ACK] order settle ok"))

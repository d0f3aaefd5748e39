-- ===== src/Remote.antt =====
-- computing/gateway/remote/remote.go: orders on the chain.
pub mod Expiry
pub mod Orders
use computing_api.Base.{
  Bool, Exec, Option, Result, Str, String, attempt, bind, err, if◌then◌else◌, lift, new, none, ok,
  panic, pure, raise, reads, rescue, some, wrap, ℕ, ◌-◌, ◌==◌, ◌>>=◌, ◌>>◌, ◌^◌, ◌||◌,
}
use computing_api.Chain.{Chain, ChainNode, Order}
use computing_api.Utils.{string_to_uint64}
use computing_api.Base.Int.{ltb_ℤ, pos, wrap64, ℤ, ◌*ℤ◌, ◌+ℤ◌}

abbrev pub nil_receipt : String
nil_receipt = "invalid memory address or nil pointer dereference"

-- `int64((^uint(0)>>1))` on a 64-bit machine
abbrev pub max_int64 : ℤ
max_int64 = pos (2 ^ 63 - 1)

-- The guard on one time of an order, after `Int64()` has taken the low 64 bits of the `big.Int`.
unfoldable pub out_of_int64 : ℤ → Bool
out_of_int64 z = ltb_ℤ (wrap64 z) (pos 0) || ltb_ℤ max_int64 (wrap64 z)

unfoldable pub order_end : Order → ℤ
order_end order =
    wrap64 (wrap64 (wrap64 order.activate_time +ℤ wrap64 order.probation) +ℤ wrap64 order.duration)

-- `now` is what `time.Now().Unix()` returns in this call.
unfoldable pub expire_check : ℤ → Order → Result (Unit {0})
unfolding out_of_int64 order_end
expire_check now order =
    if out_of_int64 order.activate_time
    then err (new "activate time overflow int64 or less than 0")
    else if out_of_int64 order.probation
    then err (new "probation time overflow int64 or less than 0")
    else if out_of_int64 order.duration
    then err (new "duration time overflow int64 or less than 0")
    else if ltb_ℤ (order_end order) now
    then err (new "the order has expired")
    else ok tt

-- These two checks pass every order: their bodies are commented out.
unfoldable pub static_check : Order → Result (Unit {0})
static_check order = ok tt

unfoldable pub payee_check : Order → Result (Unit {0})
payee_check order = ok tt

unfoldable pub register : Result (Unit {0})
register = ok tt

unfoldable pub set_watcher : Str → Result (Unit {0})
set_watcher contract = ok tt

unfoldable pub status_text : ℕ → String
status_text status =
    if status == 0
    then "order not exist"
    else if status == 1
    then "order unactive"
    else if status == 3
    then "order cancelled"
    else if status == 4
    then "order completed"
    else ""

-- `receipt.GasUsed` is read through a pointer that is nil when there is no receipt.
abbrev pub gas_of : Option ℕ → Result ℕ
gas_of none = panic nil_receipt
gas_of (some gas) = ok gas

module _ (ch : Chain) where
  unfoldable pub get_order : ℕ → ch.State → Result Order
  get_order id s =
      rescue (ch.new_market s) (λ e. err (wrap "new contract instance failed" e))
        λ _. rescue (ch.order_of id s) (λ e. err (wrap "getorder failed" e)) ok

  unfoldable pub order_check : ℕ → ch.State → Result (Unit {0})
  unfolding get_order static_check payee_check status_text
  order_check id s =
      rescue (get_order id s) (λ e. err (wrap "get order failed" e))
        λ order.
          rescue (static_check order) (λ e. err (wrap "the order static check failed" e))
            λ _.
              rescue (payee_check order) (λ e. err (wrap "the order payee check failed" e))
                λ _.
                  if order.status == 2
                  then ok tt
                  else err
                      (wrap "only active order can get cookie" (new (status_text order.status)))

  -- The fee of an order from the prices of its node; `big.Int` has no bound.
  unfoldable pub fee_of : ChainNode → ℤ → ℤ
  fee_of node dur =
      (node.cpu_price_sec
        +ℤ node.gpu_price_sec
        +ℤ (pos node.mem_num *ℤ node.mem_price_sec +ℤ pos node.disk_num *ℤ node.disk_price_sec))
      *ℤ dur

  unfoldable pub fee : ℕ → ch.State → Result ℤ
  unfolding fee_of
  fee id s =
      rescue (ch.new_registry s) (λ e. err (wrap "new contract instance failed" e))
        λ _.
          rescue (ch.new_market s) (λ e. err (wrap "new contract instance failed" e))
            λ _.
              rescue (ch.order_of id s) (λ e. err (wrap "get order failed" e))
                λ order.
                  bind (ch.node_of order.provider order.node_id s)
                    λ node. ok (fee_of node order.duration)

  -- The market binding, read at the start of each transaction.
  unfoldable pub open_market : Exec ch.State (Unit {0})
  open_market =
      attempt (reads ch.new_market) (λ e. raise (wrap "new contract instance failed" e)) pure

  -- Each transaction waits for `CheckTx` and logs the gas of the receipt.
  unfoldable pub confirm : ch.Tx → Exec ch.State ℕ
  confirm tx = ch.check_tx tx >> reads (λ s. gas_of (ch.gas_used tx s))

  -- `sk` is the secret key of the provider's wallet, or the error of reading it in the key store.
  unfoldable pub set_app : Result Str → ℕ → Str → Exec ch.State (Unit {0})
  unfolding open_market confirm
  set_app wallet_sk id app = do
    open_market
    sk ← lift wallet_sk
    auth_provider ← reads (ch.make_auth sk)
    tx ← ch.send_set_app auth_provider id app
    confirm tx
    order_info ← reads (ch.order_of id)
    pure tt

  unfoldable pub extend : Str → ℕ → Str → Exec ch.State (Unit {0})
  unfolding open_market confirm
  extend user_sk id dur = do
    open_market
    auth_user ← reads (ch.make_auth user_sk)
    dur_number ← lift (string_to_uint64 dur)
    tx ← ch.send_extend auth_user id dur_number
    confirm tx
    pure tt

  -- `sk` is `com.SK`, the provider's secret key.
  unfoldable pub reset : Str → ℕ → Str → Str → Exec ch.State (Unit {0})
  unfolding open_market confirm
  reset sk id prob dur = do
    open_market
    auth_provider ← reads (ch.make_auth sk)
    prob_number ← lift (string_to_uint64 prob)
    dur_number ← lift (string_to_uint64 dur)
    tx ← ch.send_reset auth_provider id prob_number dur_number
    confirm tx
    order_info ← reads (ch.order_of id)
    pure tt

  unfoldable pub settle : Str → ℕ → Exec ch.State (Unit {0})
  unfolding open_market confirm
  settle sk id = do
    open_market
    auth_provider ← reads (ch.make_auth sk)
    before ← reads (ch.order_of id)
    tx ← ch.send_settle auth_provider id
    confirm tx
    after ← reads (ch.order_of id)
    pure tt

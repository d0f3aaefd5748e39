-- ===== src/Chain.antt =====
-- The chain as the gateway sees it: the contract bindings and transaction helpers of
-- github.com/grid/contracts that computing/gateway/remote calls. They are not part of the
-- repository; of an order and of a node the records hold the fields that the program reads.
use computing_api.Base.{Exec, Option, Result, Str, ℕ}
use computing_api.Base.Int.{ℤ}

pub record Order : Type 0 where
  pub provider : Str
  pub node_id : ℕ
  pub app_name : Str
  pub status : ℕ
  pub activate_time : ℤ
  pub probation : ℤ
  pub duration : ℤ

pub record ChainNode : Type 0 where
  pub cpu_price_sec : ℤ
  pub gpu_price_sec : ℤ
  pub mem_num : ℕ
  pub mem_price_sec : ℤ
  pub disk_num : ℕ
  pub disk_price_sec : ℤ

pub record Chain : Type 1 where
  pub State : Type 0
  pub Signer : Type 0
  pub Tx : Type 0
  pub new_market : State → Result (Unit {0})
  pub new_registry : State → Result (Unit {0})
  pub order_of : ℕ → State → Result Order
  pub node_of : Str → ℕ → State → Result ChainNode
  pub make_auth : Str → State → Result Signer
  pub send_set_app : Signer → ℕ → Str → Exec State Tx
  pub send_extend : Signer → ℕ → ℕ → Exec State Tx
  pub send_reset : Signer → ℕ → ℕ → ℕ → Exec State Tx
  pub send_settle : Signer → ℕ → Exec State Tx
  pub check_tx : Tx → Exec State (Unit {0})
  pub gas_used : Tx → State → Option ℕ

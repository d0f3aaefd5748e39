-- ===== src/ApiErrors.antt =====
-- prover/logs/errors.go: the error types of the prover's services and their API errors.
pub mod Laws
use computing_api.Base.{Option, Str, String, [], none, some, text, ℕ, ◌++◌, ◌∷◌}

-- The error types; `storage_error` also names a storage. The type switch asks for a pointer to a
-- `DataStoreError`, which is another type than the struct. `unnamed` stands for every other type.
pub data ServiceError : Type 0 where
  storage_error : Str → Str → ServiceError
  not_implemented address_error authentication_failed eth_error contract_error : Str → ServiceError
  server_error gateway_error config_error data_base_error data_store_error : Str → ServiceError
  data_store_error_pointer controller_error no_permission wallet_error unnamed : Str → ServiceError
  storage_not_support : ServiceError

-- `Error()`
unfoldable pub error_text : ServiceError → Str
error_text (storage_error storage message) = storage ++ b':' ∷ message
error_text (not_implemented message) = message
error_text (address_error message) = message
error_text (authentication_failed message) = message
error_text (eth_error message) = message
error_text (contract_error message) = message
error_text (server_error message) = message
error_text (gateway_error message) = message
error_text (config_error message) = message
error_text (data_base_error message) = message
error_text (data_store_error message) = message
error_text (data_store_error_pointer message) = message
error_text (controller_error message) = message
error_text (no_permission message) = message
error_text (wallet_error message) = message
error_text (unnamed message) = message
error_text storage_not_support = text "storage not support"

pub data ApiErrorCode : Type 0 where
  err_none err_internal err_not_implemented err_storage err_address : ApiErrorCode
  err_storage_not_support err_authentication_failed err_contract err_eth err_server : ApiErrorCode
  err_gateway err_config err_data_base err_data_store err_controller : ApiErrorCode
  err_no_permission err_wallet : ApiErrorCode

pub record ApiError : Type 0 where
  pub code : Str
  pub description : Str
  pub http_status_code : ℕ

abbrev pub api_error : String → String → ℕ → ApiError
unfolding text
api_error code description status = record {
  code = text code;
  description = text description;
  http_status_code = status;
}

-- `ErrorCodes`, the map from codes.
unfoldable pub error_codes : ApiErrorCode → Option ApiError
unfolding api_error
error_codes err_none = none
error_codes err_internal =
    some (api_error "InternalError" "We encountered an internal error, please try again." 500)
error_codes err_not_implemented = some (
    api_error "NotImplemented" "A header you provided implies functionality that is not implemented"
      501)
error_codes err_storage = some (api_error "Storage" "Error storing file" 516)
error_codes err_address = some (api_error "Address" "Address Error" 517)
error_codes err_storage_not_support = some (api_error "Storage" "Storage Error" 518)
error_codes err_authentication_failed =
    some (api_error "Authentication" "Authentication Failed" 401)
error_codes err_contract = some (api_error "contract" "contract Error" 519)
error_codes err_eth = some (api_error "Eth" "Eth Error" 520)
error_codes err_server = some (api_error "ServerError" "Server Error" 521)
error_codes err_gateway = some (api_error "GatewayError" "Gateway Error" 522)
error_codes err_config = some (api_error "ConfigError" "Config Error" 523)
error_codes err_data_base = some (api_error "DataBaseError" "DataBase Error" 524)
error_codes err_controller = some (api_error "ControllerError" "Controller Error" 525)
error_codes err_no_permission =
    some (api_error "Permission" "You don't have access to the resource" 526)
error_codes err_wallet = some (api_error "Wallet" "Wallet error" 527)
error_codes err_data_store = some (api_error "datastore" "datastore error" 528)

-- An entry that a map of structs lacks is the zero value.
abbrev pub or_zero_value : Option ApiError → ApiError
or_zero_value none = record { code = []; description = []; http_status_code = 0 }
or_zero_value (some e) = e

abbrev pub or_address_error : Option ApiError → ApiError
unfolding error_codes
or_address_error none = or_zero_value (error_codes err_address)
or_address_error (some e) = e

abbrev pub with_error : ApiError → Option ServiceError → ApiError
unfolding error_text
with_error api_err none = api_err
with_error api_err (some e) = record api_err {
  description = api_err.description ++ b' ' ∷ b'(' ∷ error_text e ++ b')' ∷ [];
}

-- `ToAPIErrWithErr`
unfoldable pub to_api_err_with_err : ApiErrorCode → Option ServiceError → ApiError
unfolding or_address_error with_error error_codes
to_api_err_with_err err_code e = with_error (or_address_error (error_codes err_code)) e

unfoldable pub to_api_err : ApiErrorCode → ApiError
unfolding to_api_err_with_err
to_api_err err_code = to_api_err_with_err err_code none

-- The type switch of `ToAPIErrorCode`.
unfoldable pub code_of : ServiceError → ApiErrorCode
code_of (not_implemented _) = err_not_implemented
code_of (storage_error _ _) = err_storage
code_of (address_error _) = err_address
code_of storage_not_support = err_storage_not_support
code_of (authentication_failed _) = err_authentication_failed
code_of (contract_error _) = err_contract
code_of (eth_error _) = err_eth
code_of (server_error _) = err_server
code_of (gateway_error _) = err_gateway
code_of (config_error _) = err_config
code_of (data_base_error _) = err_data_base
code_of (controller_error _) = err_controller
code_of (no_permission _) = err_no_permission
code_of (wallet_error _) = err_wallet
code_of (data_store_error_pointer _) = err_data_store
code_of (data_store_error _) = err_internal
code_of (unnamed _) = err_internal

-- `ToAPIErrorCode`
unfoldable pub to_api_error_code : Option ServiceError → ApiError
unfolding to_api_err to_api_err_with_err code_of
to_api_error_code none = to_api_err err_none
to_api_error_code (some e) = to_api_err_with_err (code_of e) (some e)

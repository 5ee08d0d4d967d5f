-- ===== src/Types/Error.antt =====
-- `evm_rpc_types/src/result/mod.rs`: the errors that a caller can get. Codes of JSON-RPC errors are
-- signed.
use evm_rpc_canister.Prelude.{ℕ, Option, Text, Result}
pub mod Derived

-- `i64` as `pos n` = n or `negsuc n` = -(n + 1)
pub data ℤ : Type 0 where
  pos : ℕ → ℤ
  negsuc : ℕ → ℤ

pub data ProviderError : Type 0 where
  no_permission : ProviderError
  too_few_cycles : ℕ → ℕ → ProviderError
  provider_not_found missing_required_provider : ProviderError
  invalid_rpc_config : Text → ProviderError

pub data LegacyRejectionCode : Type 0 where
  no_error sys_fatal sys_transient destination_invalid canister_reject canister_error unknown :
      LegacyRejectionCode

pub data HttpOutcallError : Type 0 where
  ic_error : LegacyRejectionCode → Text → HttpOutcallError
  -- status, body, parsing error
  invalid_http_json_rpc_response : ℕ → Text → Option Text → HttpOutcallError

pub record JsonRpcError : Type 0 where
  pub code : ℤ
  pub message : Text

pub data ValidationError : Type 0 where
  custom : Text → ValidationError
  invalid_hex : Text → ValidationError

pub data RpcError : Type 0 where
  provider_error : ProviderError → RpcError
  http_outcall_error : HttpOutcallError → RpcError
  json_rpc_error : JsonRpcError → RpcError
  validation_error : ValidationError → RpcError

abbrev pub RpcResult : Type 0 → Type 0
RpcResult A = Result A RpcError

-- ===== src/ClientLibrary.antt =====
-- The client library evm_rpc_client (`evm_rpc_client/src/lib.rs`, `request/mod.rs` and
-- `runtime/mod.rs`), through which other canisters call the EVM RPC canister. The call between
-- canisters is a parameter, and so is the conversion of answers, which Outputs fills in.
pub mod Requests
pub mod Sending
pub mod Outputs
use evm_rpc_canister.Prelude.{
  ℕ, ◌++◌, Option, none, some, Text, text, Result, ok, err, map_ok, unwrap_or,
}
use evm_rpc_canister.Prelude.Exec.{Exec, returns, traps}
use evm_rpc_canister.Types.Config.{
  RpcServices, RpcConfig, GetLogsRpcConfig, ConsensusStrategy, default_rpc_config,
  default_get_logs_config,
}
use evm_rpc_canister.Http.{RejectCode}

-- The code that ic_cdk gives a rejection
pub data RejectionCode : Type 0 where
  no_error sys_fatal sys_transient destination_invalid canister_reject canister_error unknown :
      RejectionCode

-- `convert_reject_code`
unfoldable pub convert_reject_code : RejectionCode → Exec RejectCode
unfolding text
convert_reject_code RejectionCode.sys_fatal = returns RejectCode.sys_fatal
convert_reject_code RejectionCode.sys_transient = returns RejectCode.sys_transient
convert_reject_code RejectionCode.destination_invalid = returns RejectCode.destination_invalid
convert_reject_code RejectionCode.canister_reject = returns RejectCode.canister_reject
convert_reject_code RejectionCode.canister_error = returns RejectCode.canister_error
convert_reject_code RejectionCode.unknown = returns RejectCode.sys_fatal
convert_reject_code RejectionCode.no_error = traps (text "internal error: entered unreachable code")

pub data EvmRpcEndpoint : Type 0 where
  call fee_history get_block_by_number get_logs get_transaction_count : EvmRpcEndpoint
  get_transaction_receipt send_raw_transaction : EvmRpcEndpoint

-- `EvmRpcEndpoint::rpc_method`
unfoldable pub rpc_method : EvmRpcEndpoint → Text
unfolding text
rpc_method call = text "eth_call"
rpc_method fee_history = text "eth_feeHistory"
rpc_method get_block_by_number = text "eth_getBlockByNumber"
rpc_method get_logs = text "eth_getLogs"
rpc_method get_transaction_count = text "eth_getTransactionCount"
rpc_method get_transaction_receipt = text "eth_getTransactionReceipt"
rpc_method send_raw_transaction = text "eth_sendRawTransaction"

-- `ClientConfig`, which `ClientBuilder` and `EvmRpcClient` wrap
pub record ClientConfig (R : Type 0) : Type 0 where
  pub runtime : R
  pub evm_rpc_canister : Text
  pub rpc_config : Option RpcConfig
  pub rpc_services : RpcServices

module _ {R : Type 0} where
  -- `ClientBuilder::new`
  unfoldable pub client_builder_new : R → Text → ClientConfig R
  client_builder_new runtime canister = record {
    runtime = runtime;
    evm_rpc_canister = canister;
    rpc_config = none;
    rpc_services = RpcServices.eth_mainnet none;
  }

  unfoldable pub with_runtime : {S : Type 0} → (R → S) → ClientConfig R → ClientConfig S
  with_runtime other_runtime config = record {
    runtime = other_runtime config.runtime;
    evm_rpc_canister = config.evm_rpc_canister;
    rpc_config = config.rpc_config;
    rpc_services = config.rpc_services;
  }

  unfoldable pub with_rpc_sources : RpcServices → ClientConfig R → ClientConfig R
  with_rpc_sources rpc_services config = record config { rpc_services = rpc_services }

  unfoldable pub with_client_config : RpcConfig → ClientConfig R → ClientConfig R
  with_client_config rpc_config config = record config { rpc_config = some rpc_config }

  unfoldable pub with_consensus_strategy : ConsensusStrategy → ClientConfig R → ClientConfig R
  with_consensus_strategy strategy config = record config {
    rpc_config = some (record (unwrap_or config.rpc_config default_rpc_config) {
      response_consensus = some strategy;
    });
  }

  unfoldable pub with_response_size_estimate : ℕ → ClientConfig R → ClientConfig R
  with_response_size_estimate estimate config = record config {
    rpc_config = some (record (unwrap_or config.rpc_config default_rpc_config) {
      response_size_estimate = some estimate;
    });
  }

-- `Request`, of which a `RequestBuilder` holds one with its client
pub record Request (C P : Type 0) : Type 0 where
  pub endpoint : EvmRpcEndpoint
  pub rpc_services : RpcServices
  pub rpc_config : Option C
  pub params : P
  pub cycles : ℕ

module _ {C P : Type 0} where
  unfoldable pub with_cycles : ℕ → Request C P → Request C P
  with_cycles cycles request = record request { cycles = cycles }

  unfoldable pub with_params : P → Request C P → Request C P
  with_params params request = record request { params = params }

  unfoldable pub modify_params : (P → P) → Request C P → Request C P
  modify_params mutator request = record request { params = mutator request.params }

  unfoldable pub with_request_config : C → Request C P → Request C P
  with_request_config rpc_config request = record request { rpc_config = some rpc_config }

-- `with_max_block_range`, with `Option::get_or_insert_default`
unfoldable pub with_max_block_range :
    {P : Type 0} → ℕ → Request GetLogsRpcConfig P → Request GetLogsRpcConfig P
with_max_block_range range request = record request {
  rpc_config = some (record (unwrap_or request.rpc_config default_get_logs_config) {
    max_block_range = some range;
  });
}

-- The call of a canister's method with arguments and cycles
abbrev pub UpdateCall : Type 0 → Type 0 → Type 0 → Type 0
UpdateCall C P Out = Text → Text → RpcServices × Option C × P → ℕ → Result Out (RejectCode × Text)

module _ {R C P Out Output : Type 0} (update_call : R → UpdateCall C P Out)
    (into : Out → Output) where
  -- `EvmRpcClient::try_execute_request`
  unfoldable pub try_execute_request :
      ClientConfig R → Request C P → Result Output (RejectCode × Text)
  unfolding rpc_method
  try_execute_request client request = map_ok into (
      update_call client.runtime client.evm_rpc_canister (rpc_method request.endpoint)
        (request.rpc_services, request.rpc_config, request.params) request.cycles)

  abbrev unwrapped : Text → Result Output (RejectCode × Text) → Exec Output
  unwrapped method (ok output) = returns output
  unwrapped method (err e) = traps (text "Client error: failed to call `" ++ method)

  -- `EvmRpcClient::execute_request`; the message goes on with the error.
  unfoldable pub execute_request : ClientConfig R → Request C P → Exec Output
  unfolding try_execute_request rpc_method
  execute_request client request =
      unwrapped (rpc_method request.endpoint) (try_execute_request client request)

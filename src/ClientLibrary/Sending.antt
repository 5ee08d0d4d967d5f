-- ===== src/ClientLibrary/Sending.antt =====
-- What the client library sends (`evm_rpc_client/src`).
use evm_rpc_canister.Prelude.{ℕ, ◌≡◌, ◌↔◌, refl, some, Text, ok, map_ok, unwrap_or, arith}
use evm_rpc_canister.Prelude.Exec.{returns}
use evm_rpc_canister.Types.Config.{
  RpcServices, GetLogsRpcConfig, ConsensusStrategy, default_get_logs_config, rpc_config_from,
  max_block_range_or_default, get_logs_config_from,
}
use evm_rpc_canister.Types.Request.{GetLogsArgs}
use evm_rpc_canister.Client.{RpcMethod, method_name}
use evm_rpc_canister.ClientLibrary.{
  EvmRpcEndpoint, rpc_method, ClientConfig, client_builder_new, with_rpc_sources,
  with_consensus_strategy, with_response_size_estimate, Request, with_cycles, with_max_block_range,
  UpdateCall, try_execute_request, execute_request,
}
use evm_rpc_canister.ClientLibrary.Requests.{get_logs_request, request_new}

-- The canister's method for an endpoint
served : EvmRpcEndpoint → RpcMethod
served EvmRpcEndpoint.call = RpcMethod.eth_call
served EvmRpcEndpoint.fee_history = RpcMethod.eth_fee_history
served EvmRpcEndpoint.get_block_by_number = RpcMethod.eth_get_block_by_number
served EvmRpcEndpoint.get_logs = RpcMethod.eth_get_logs
served EvmRpcEndpoint.get_transaction_count = RpcMethod.eth_get_transaction_count
served EvmRpcEndpoint.get_transaction_receipt = RpcMethod.eth_get_transaction_receipt
served EvmRpcEndpoint.send_raw_transaction = RpcMethod.eth_send_raw_transaction

asked : RpcMethod → EvmRpcEndpoint
asked RpcMethod.eth_call = EvmRpcEndpoint.call
asked RpcMethod.eth_fee_history = EvmRpcEndpoint.fee_history
asked RpcMethod.eth_get_block_by_number = EvmRpcEndpoint.get_block_by_number
asked RpcMethod.eth_get_logs = EvmRpcEndpoint.get_logs
asked RpcMethod.eth_get_transaction_count = EvmRpcEndpoint.get_transaction_count
asked RpcMethod.eth_get_transaction_receipt = EvmRpcEndpoint.get_transaction_receipt
asked RpcMethod.eth_send_raw_transaction = EvmRpcEndpoint.send_raw_transaction

served_name : (e : EvmRpcEndpoint) → rpc_method e ≡ method_name (served e)
unfolding rpc_method method_name served
served_name EvmRpcEndpoint.call = refl
served_name _ = refl

asked_name : (m : RpcMethod) → rpc_method (asked m) ≡ method_name m
unfolding rpc_method method_name asked
asked_name RpcMethod.eth_call = refl
asked_name _ = refl

-- Every endpoint of the client library names a method that the canister makes outcalls for, and every
-- such method has an endpoint.
pub rpc_method-method_name :
    (e : EvmRpcEndpoint) (m : RpcMethod)
    → ((n : RpcMethod) × (rpc_method e ≡ method_name n))
      × ((d : EvmRpcEndpoint) × (rpc_method d ≡ method_name m))
rpc_method-method_name e m = ((served e, served_name e), (asked m, asked_name m))

-- Asking for a limit on the range of blocks changes the limit that the canister applies to logs, and
-- nothing else of what the canister makes of the request's configuration.
pub with_max_block_range-keeps :
    {P : Type 0} (range : ℕ) (request : Request GetLogsRpcConfig P)
    → let settings =
        unwrap_or (with_max_block_range range request).rpc_config default_get_logs_config in
      (max_block_range_or_default settings ≡ range)
      × (rpc_config_from settings
          ≡ rpc_config_from (unwrap_or request.rpc_config default_get_logs_config))
unfolding with_max_block_range rpc_config_from max_block_range_or_default
with_max_block_range-keeps range request = (refl, refl)

module _ {R Out Output : Type 0} (update_call : R → UpdateCall GetLogsRpcConfig GetLogsArgs Out)
    (into : Out → Output) where
  -- A client that is given services, a strategy and an estimate of sizes, in either order of the last
  -- two, sends them with its requests for logs, with the limit, the arguments and the cycles of the
  -- request, to its canister's method eth_getLogs, and gives back the converted answer or the
  -- rejection.
  pub get_logs_request-sent :
      (runtime : R) (canister : Text) (services : RpcServices) (strategy : ConsensusStrategy)
      (estimate range cycles : ℕ) (args : GetLogsArgs)
      → let client₀ = with_rpc_sources services (client_builder_new runtime canister) in
        let client₁ =
          with_response_size_estimate estimate (with_consensus_strategy strategy client₀) in
        let client₂ =
          with_consensus_strategy strategy (with_response_size_estimate estimate client₀) in
        let settings : GetLogsRpcConfig = record {
          response_size_estimate = some estimate;
          response_consensus = some strategy;
          max_block_range = some range;
        } in
        let answer = map_ok into (
          update_call runtime canister
            (method_name RpcMethod.eth_get_logs)
            (services, some settings, args)
            cycles) in
        (try_execute_request update_call into client₁
            (with_cycles cycles (with_max_block_range range (get_logs_request client₁ args)))
          ≡ answer)
        × (try_execute_request update_call into client₂
              (with_cycles cycles (with_max_block_range range (get_logs_request client₂ args)))
            ≡ answer)
  unfolding with_rpc_sources client_builder_new with_response_size_estimate with_consensus_strategy
      try_execute_request with_cycles with_max_block_range get_logs_request request_new
      get_logs_config_from method_name rpc_method
  get_logs_request-sent runtime canister services strategy estimate range cycles args = (refl, refl)

module _ {R C P Out Output : Type 0} (update_call : R → UpdateCall C P Out)
    (into : Out → Output) where
  -- Sending a request panics exactly if the call of the canister is rejected, and gives the
  -- converted answer otherwise.
  pub execute_request_iff :
      (client : ClientConfig R) (request : Request C P) (output : Output)
      → (execute_request update_call into client request ≡ returns output)
        ↔ (try_execute_request update_call into client request ≡ ok output)
  unfolding execute_request
  execute_request_iff client request output = ground arith

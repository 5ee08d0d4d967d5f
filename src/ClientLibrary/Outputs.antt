-- ===== src/ClientLibrary/Outputs.antt =====
-- The requests with the types of their arguments and answers (the implementations of `EvmRpcRequest`
-- in `evm_rpc_client/src/request/mod.rs`), and sending one: answers arrive in alloy's types.
use evm_rpc_canister.Prelude.{Option, List, Text, Result}
use evm_rpc_canister.Prelude.Exec.{Exec}
use evm_rpc_canister.Types.Config.{RpcConfig, GetLogsRpcConfig, get_logs_config_from}
use evm_rpc_canister.Types.Error.{RpcResult}
use evm_rpc_canister.Types.MultiResult.{MultiRpcResult, PartialEq}
use evm_rpc_canister.Types.Request.{
  BlockTag, CallArgs, FeeHistoryArgs, GetLogsArgs, GetTransactionCountArgs,
}
use evm_rpc_canister.Types.Response as Candid
use evm_rpc_canister.Numbers.Nat256.{Nat256}
use evm_rpc_canister.Numbers.Hex.{Hex, Hex32}
use evm_rpc_canister.Http.{RejectCode}
use evm_rpc_canister.Client.{RpcMethod}
use evm_rpc_canister.Alloy.{Primitives, U256}
use evm_rpc_canister.Alloy.Responses as Alloy
use evm_rpc_canister.Alloy.Results.{
  logs_into, block_into, fee_history_into, nat256_into, hex_into, status_into, receipt_into,
}
use evm_rpc_canister.ClientLibrary.{
  ClientConfig, EvmRpcEndpoint, Request, UpdateCall, try_execute_request, execute_request,
}
use evm_rpc_canister.ClientLibrary.Requests.{
  call_request, get_block_by_number_request, fee_history_request, get_logs_request,
  get_transaction_count_request, get_transaction_receipt_request, send_raw_transaction_request,
}

-- `EvmRpcRequest`: the associated types, the endpoint and how an answer is converted. The values of
-- the implementing types wrap their parameters.
pub record EvmRpcRequest : Type 1 where
  pub Config : Type 0
  pub Params : Type 0
  pub CandidOutput : Type 0
  pub Output : Type 0
  pub endpoint : EvmRpcEndpoint
  pub into : CandidOutput → Output

-- The equality of results in alloy's types, which the conversions of results need
pub record Equalities {A : Primitives} (C : Alloy.Consensus A) (F64 : Type 0) : Type 0 where
  pub logs_eq : PartialEq (RpcResult (List (Alloy.Log A)))
  pub block_eq : PartialEq (RpcResult (Alloy.Block A))
  pub fee_history_eq : PartialEq (RpcResult (Alloy.FeeHistory A F64))
  pub u256_eq : PartialEq (RpcResult (U256 A))
  pub bytes_eq : PartialEq (RpcResult A.Bytes)
  pub b256_eq : PartialEq (RpcResult A.B256)
  pub receipt_eq : PartialEq (RpcResult (Option (Alloy.TransactionReceipt C)))

module _ {A : Primitives} {C : Alloy.Consensus A} {F64 : Type 0} (Q : Equalities C F64) where
  unfoldable pub call_type : EvmRpcRequest
  unfolding hex_into
  call_type = record {
    Config = RpcConfig;
    Params = CallArgs;
    CandidOutput = MultiRpcResult Hex;
    Output = MultiRpcResult A.Bytes;
    endpoint = EvmRpcEndpoint.call;
    into = hex_into A ⦃p = Q.bytes_eq⦄;
  }

  unfoldable pub fee_history_type : EvmRpcRequest
  unfolding fee_history_into
  fee_history_type = record {
    Config = RpcConfig;
    Params = FeeHistoryArgs;
    CandidOutput = MultiRpcResult (Candid.FeeHistory F64);
    Output = MultiRpcResult (Alloy.FeeHistory A F64);
    endpoint = EvmRpcEndpoint.fee_history;
    into = fee_history_into A ⦃p = Q.fee_history_eq⦄;
  }

  unfoldable pub get_block_by_number_type : EvmRpcRequest
  unfolding block_into
  get_block_by_number_type = record {
    Config = RpcConfig;
    Params = BlockTag;
    CandidOutput = MultiRpcResult Candid.Block;
    Output = MultiRpcResult (Alloy.Block A);
    endpoint = EvmRpcEndpoint.get_block_by_number;
    into = block_into A ⦃p = Q.block_eq⦄;
  }

  unfoldable pub get_logs_type : EvmRpcRequest
  unfolding logs_into
  get_logs_type = record {
    Config = GetLogsRpcConfig;
    Params = GetLogsArgs;
    CandidOutput = MultiRpcResult (List Candid.LogEntry);
    Output = MultiRpcResult (List (Alloy.Log A));
    endpoint = EvmRpcEndpoint.get_logs;
    into = logs_into A ⦃p = Q.logs_eq⦄;
  }

  unfoldable pub get_transaction_count_type : EvmRpcRequest
  unfolding nat256_into
  get_transaction_count_type = record {
    Config = RpcConfig;
    Params = GetTransactionCountArgs;
    CandidOutput = MultiRpcResult Nat256;
    Output = MultiRpcResult (U256 A);
    endpoint = EvmRpcEndpoint.get_transaction_count;
    into = nat256_into A ⦃p = Q.u256_eq⦄;
  }

  unfoldable pub get_transaction_receipt_type : EvmRpcRequest
  unfolding receipt_into
  get_transaction_receipt_type = record {
    Config = RpcConfig;
    Params = Hex32;
    CandidOutput = MultiRpcResult (Option Candid.TransactionReceipt);
    Output = MultiRpcResult (Option (Alloy.TransactionReceipt C));
    endpoint = EvmRpcEndpoint.get_transaction_receipt;
    into = receipt_into C ⦃p = Q.receipt_eq⦄;
  }

  unfoldable pub send_raw_transaction_type : EvmRpcRequest
  unfolding status_into
  send_raw_transaction_type = record {
    Config = RpcConfig;
    Params = Hex;
    CandidOutput = MultiRpcResult Candid.SendRawTransactionStatus;
    Output = MultiRpcResult A.B256;
    endpoint = EvmRpcEndpoint.send_raw_transaction;
    into = status_into A ⦃p = Q.b256_eq⦄;
  }

-- What a method's request asks for, by the method of the canister
module _ {A : Primitives} {C : Alloy.Consensus A} {F64 : Type 0} (Q : Equalities C F64) where
  unfoldable pub request_type : RpcMethod → EvmRpcRequest
  unfolding call_type fee_history_type get_block_by_number_type get_logs_type
      get_transaction_count_type get_transaction_receipt_type send_raw_transaction_type
  request_type RpcMethod.eth_call = call_type Q
  request_type RpcMethod.eth_fee_history = fee_history_type Q
  request_type RpcMethod.eth_get_block_by_number = get_block_by_number_type Q
  request_type RpcMethod.eth_get_logs = get_logs_type Q
  request_type RpcMethod.eth_get_transaction_count = get_transaction_count_type Q
  request_type RpcMethod.eth_get_transaction_receipt = get_transaction_receipt_type Q
  request_type RpcMethod.eth_send_raw_transaction = send_raw_transaction_type Q

  -- `Config::from`
  unfoldable pub config_from : (m : RpcMethod) → RpcConfig → (request_type m).Config
  unfolding request_type get_logs_config_from
  config_from RpcMethod.eth_call config = config
  config_from RpcMethod.eth_fee_history config = config
  config_from RpcMethod.eth_get_block_by_number config = config
  config_from RpcMethod.eth_get_logs config = get_logs_config_from config
  config_from RpcMethod.eth_get_transaction_count config = config
  config_from RpcMethod.eth_get_transaction_receipt config = config
  config_from RpcMethod.eth_send_raw_transaction config = config

module _ (T : EvmRpcRequest) {R : Type 0}
    (update_call : R → UpdateCall T.Config T.Params T.CandidOutput) where
  -- `RequestBuilder::try_send` and `RequestBuilder::send`
  unfoldable pub try_send :
      ClientConfig R → Request T.Config T.Params → Result T.Output (RejectCode × Text)
  unfolding try_execute_request
  try_send client request = try_execute_request update_call T.into client request

  unfoldable pub send : ClientConfig R → Request T.Config T.Params → Exec T.Output
  unfolding execute_request
  send client request = execute_request update_call T.into client request

module _ {A : Primitives} {C : Alloy.Consensus A} {F64 : Type 0} (Q : Equalities C F64)
    {R : Type 0} where
  -- The client's method for each method of the canister
  unfoldable pub request_of :
      (m : RpcMethod)
      → ClientConfig R
      → (request_type Q m).Params
      → Request (request_type Q m).Config (request_type Q m).Params
  unfolding request_type call_request fee_history_request get_block_by_number_request
      get_logs_request get_transaction_count_request get_transaction_receipt_request
      send_raw_transaction_request
  request_of RpcMethod.eth_call client params = call_request client params
  request_of RpcMethod.eth_fee_history client params = fee_history_request client params
  request_of RpcMethod.eth_get_block_by_number client params =
      get_block_by_number_request client params
  request_of RpcMethod.eth_get_logs client params = get_logs_request client params
  request_of RpcMethod.eth_get_transaction_count client params =
      get_transaction_count_request client params
  request_of RpcMethod.eth_get_transaction_receipt client params =
      get_transaction_receipt_request client params
  request_of RpcMethod.eth_send_raw_transaction client params =
      send_raw_transaction_request client params

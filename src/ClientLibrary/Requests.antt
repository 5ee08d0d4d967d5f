-- ===== src/ClientLibrary/Requests.antt =====
-- The requests for each endpoint (`evm_rpc_client/src/lib.rs`, `evm_rpc_client/src/request/mod.rs`).
use evm_rpc_canister.Prelude.{ℕ, some, List}
use evm_rpc_canister.Numbers.{U8}
use evm_rpc_canister.Numbers.Nat256.{Nat256}
use evm_rpc_canister.Numbers.Hex.{Hex, Hex20, Hex32}
use evm_rpc_canister.Types.Config.{RpcConfig, GetLogsRpcConfig, get_logs_config_from}
use evm_rpc_canister.Types.Request.{
  BlockTag, CallArgs, FeeHistoryArgs, GetLogsArgs, GetTransactionCountArgs,
}
use evm_rpc_canister.Conversion.{map_some}
use evm_rpc_canister.ClientLibrary.{ClientConfig, EvmRpcEndpoint, Request}

-- The cycles that a request is made with
abbrev pub default_cycles : ℕ
default_cycles = 10_000_000_000

module _ {R : Type 0} where
  -- `RequestBuilder::new`, by the conversion of configurations
  unfoldable pub request_new :
      {C P : Type 0} → (RpcConfig → C) → ClientConfig R → EvmRpcEndpoint → P → ℕ → Request C P
  request_new config_from client endpoint params cycles = record {
    endpoint = endpoint;
    rpc_services = client.rpc_services;
    rpc_config = map_some config_from client.rpc_config;
    params = params;
    cycles = cycles;
  }

  unfoldable pub call_request : ClientConfig R → CallArgs → Request RpcConfig CallArgs
  unfolding request_new
  call_request client params = request_new (λ c. c) client EvmRpcEndpoint.call params default_cycles

  unfoldable pub get_block_by_number_request :
      ClientConfig R → BlockTag → Request RpcConfig BlockTag
  unfolding request_new
  get_block_by_number_request client params =
      request_new (λ c. c) client EvmRpcEndpoint.get_block_by_number params default_cycles

  unfoldable pub fee_history_request :
      ClientConfig R → FeeHistoryArgs → Request RpcConfig FeeHistoryArgs
  unfolding request_new
  fee_history_request client params =
      request_new (λ c. c) client EvmRpcEndpoint.fee_history params default_cycles

  unfoldable pub get_logs_request :
      ClientConfig R → GetLogsArgs → Request GetLogsRpcConfig GetLogsArgs
  unfolding request_new get_logs_config_from
  get_logs_request client params =
      request_new get_logs_config_from client EvmRpcEndpoint.get_logs params default_cycles

  unfoldable pub get_transaction_count_request :
      ClientConfig R → GetTransactionCountArgs → Request RpcConfig GetTransactionCountArgs
  unfolding request_new
  get_transaction_count_request client params =
      request_new (λ c. c) client EvmRpcEndpoint.get_transaction_count params default_cycles

  unfoldable pub get_transaction_receipt_request : ClientConfig R → Hex32 → Request RpcConfig Hex32
  unfolding request_new
  get_transaction_receipt_request client params =
      request_new (λ c. c) client EvmRpcEndpoint.get_transaction_receipt params default_cycles

  unfoldable pub send_raw_transaction_request : ClientConfig R → Hex → Request RpcConfig Hex
  unfolding request_new
  send_raw_transaction_request client params =
      request_new (λ c. c) client EvmRpcEndpoint.send_raw_transaction params default_cycles

module _ {C : Type 0} where
  -- `with_block` of calls
  unfoldable pub with_call_block : BlockTag → Request C CallArgs → Request C CallArgs
  with_call_block block r = record r { params = record r.params { block = some block } }

  unfoldable pub with_block_count : Nat256 → Request C FeeHistoryArgs → Request C FeeHistoryArgs
  with_block_count count r = record r { params = record r.params { block_count = count } }

  unfoldable pub with_newest_block : BlockTag → Request C FeeHistoryArgs → Request C FeeHistoryArgs
  with_newest_block newest r = record r { params = record r.params { newest_block = newest } }

  unfoldable pub with_reward_percentiles :
      List U8 → Request C FeeHistoryArgs → Request C FeeHistoryArgs
  with_reward_percentiles percentiles r = record r {
    params = record r.params { reward_percentiles = some percentiles };
  }

  unfoldable pub with_from_block : BlockTag → Request C GetLogsArgs → Request C GetLogsArgs
  with_from_block from r = record r { params = record r.params { from_block = some from } }

  unfoldable pub with_to_block : BlockTag → Request C GetLogsArgs → Request C GetLogsArgs
  with_to_block to r = record r { params = record r.params { to_block = some to } }

  unfoldable pub with_addresses : List Hex20 → Request C GetLogsArgs → Request C GetLogsArgs
  with_addresses addresses r = record r { params = record r.params { addresses = addresses } }

  unfoldable pub with_topics : List (List Hex32) → Request C GetLogsArgs → Request C GetLogsArgs
  with_topics topics r = record r { params = record r.params { topics = some topics } }

  unfoldable pub with_address :
      Hex20 → Request C GetTransactionCountArgs → Request C GetTransactionCountArgs
  with_address address r = record r { params = record r.params { address = address } }

  -- `with_block` of counts of transactions
  unfoldable pub with_count_block :
      BlockTag → Request C GetTransactionCountArgs → Request C GetTransactionCountArgs
  with_count_block block r = record r { params = record r.params { block = block } }

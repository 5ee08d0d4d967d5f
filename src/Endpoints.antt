-- ===== src/Endpoints.antt =====
-- The update methods of `src/main.rs` for Ethereum's JSON-RPC methods, with the adapter
-- `CandidRpcClient` of `src/candid_rpc/mod.rs` and the methods of `EthRpcClient` of
-- `src/rpc_client/mod.rs` behind them. Messages that run while a call waits are `later`, the world
-- when the services have answered.
pub mod Answers
use evm_rpc_canister.Prelude.{
  ℕ, false, List, [], ◌∷◌, Option, none, some, Text, Result, ok, err, unwrap_or,
}
use evm_rpc_canister.Prelude.Exec.{Exec, returns, ◌>>=◌}
use evm_rpc_canister.Numbers.{U8, Array, Platform}
use evm_rpc_canister.Numbers.Nat256.{Nat256}
use evm_rpc_canister.Numbers.Amount.{Amount}
use evm_rpc_canister.Numbers.Hex.{Hex, Hex32, HexLibrary, hex_to_string}
use evm_rpc_canister.Types.Request as Candid
use evm_rpc_canister.Types.Response as Answer
use evm_rpc_canister.Types.Config.{
  RpcServices, RpcConfig, GetLogsRpcConfig, default_get_logs_config, rpc_config_from,
  max_block_range_or_default,
}
use evm_rpc_canister.Types.Error.{RpcResult, RpcError, ProviderError, provider_error}
use evm_rpc_canister.Types.MultiResult.{MultiRpcResult, consistent, PartialEq, map_results}
use evm_rpc_canister.Transform.{
  ResponseTransform, block, log_entries, fee_history, send_raw_transaction,
}
use evm_rpc_canister.SendRaw.{SendRawTransactionResult}
use evm_rpc_canister.Metrics.{Metrics}
use evm_rpc_canister.Memory.{Externals, State}
use evm_rpc_canister.Client.{
  EthRpcClient, RpcMethod, ReductionStrategy, client_new, call_size, consensus_strategy, eth_call,
  eth_fee_history, eth_get_logs, eth_get_block_by_number, eth_get_transaction_count,
  eth_get_transaction_receipt, eth_send_raw_transaction,
}
use evm_rpc_canister.CandidRpc.{ReducedResult, process_result, get_logs}
use evm_rpc_canister.Calls.{MultiLib, Network, Call, call_services}
use evm_rpc_canister.JsonRpc.{Hash}
use evm_rpc_canister.JsonRpc.Requests as Json
use evm_rpc_canister.JsonRpc.Responses as Reply
use evm_rpc_canister.Conversion.{map_some, into_hash, from_data, number_of}
use evm_rpc_canister.Conversion.Arguments.{
  into_block_spec, into_get_logs_param, into_fee_history_params, into_get_transaction_count_params,
  into_eth_call_params,
}
use evm_rpc_canister.Conversion.Results.{
  from_log_entries, from_fee_history, from_transaction_receipt, from_block,
  from_send_raw_transaction_result,
}

-- The libraries behind the methods: minicbor's encoding of transformations, canhttp's reductions, the
-- domain of a URL, and the hash of an encoded transaction.
pub record Libraries : Type 1 where
  pub externals : Externals
  pub multi : MultiLib
  pub platform : Platform
  pub hex : HexLibrary
  pub encode : ResponseTransform → Text
  pub reduce : {T : Type 0} → ReductionStrategy → multi.MultiResults T → ReducedResult T
  pub domain_of : Text → Option Text
  pub transaction_hash : List U8 → Option (Array 32)

-- `HttpResponsePayload::response_transform` of the type of a method's results: an optional receipt, a
-- transaction count and data have that of the trait.
unfoldable pub response_transform : RpcMethod → Option ResponseTransform
response_transform eth_get_logs = some log_entries
response_transform eth_get_block_by_number = some block
response_transform eth_get_transaction_receipt = none
response_transform eth_get_transaction_count = none
response_transform eth_fee_history = some fee_history
response_transform eth_send_raw_transaction = some send_raw_transaction
response_transform eth_call = none

module _ (L : Libraries) where
  open L use {externals, multi, platform}

  pub record World : Type 0 where
    pub state : State externals
    pub metrics : Metrics

  unfoldable pub transform_op : RpcMethod → Text
  unfolding response_transform
  transform_op method = unwrap_or (map_some L.encode (response_transform method)) []

  -- The method of `EthRpcClient` for an RPC method: `parallel_call` and the reduction
  unfoldable pub client_call :
      {I T : Type 0}
      → Network I T
      → EthRpcClient
      → RpcMethod
      → I
      → World
      → World
      → ℕ
      → Exec (ReducedResult T × World)
  unfolding call_size call_services transform_op consensus_strategy
  client_call N client method params world later now = do
    size ← call_size client method
    called ←
        call_services N multi client
          (record {
            method = method;
            params = params;
            transform_op = transform_op method;
            response_size_estimate = size;
          })
          world.state later.state now
    returns (
      L.reduce (consensus_strategy client) called.0,
      record { state = called.1; metrics = later.metrics },
    )

  -- `process_result(method, call.await).map(convert)`
  unfoldable pub converted_call :
      {I T A : Type 0}
      → ⦃p : PartialEq (RpcResult A)⦄ → Network I T
      → RpcMethod
      → I
      → (T → A)
      → EthRpcClient
      → World
      → World
      → ℕ
      → Exec (MultiRpcResult A × World)
  unfolding client_call process_result map_results
  converted_call N method params convert client world later now = do
    called ← client_call N client method params world later now
    returns (
      map_results convert (process_result L.domain_of method called.0 called.1.metrics).0,
      record called.1 { metrics = (process_result L.domain_of method called.0 called.1.metrics).1 },
    )

  -- `match CandidRpcClient::new(..) { Ok(source) => .., Err(err) => Err(err).into() }`
  unfoldable pub with_client :
      {A : Type 0}
      → (EthRpcClient → World → Exec (MultiRpcResult A × World))
      → Result EthRpcClient ProviderError
      → World
      → Exec (MultiRpcResult A × World)
  with_client answer (ok client) world = answer client world
  with_client answer (err e) world = returns (consistent (err (provider_error e)), world)

  unfoldable pub endpoint :
      {A : Type 0}
      → (EthRpcClient → World → Exec (MultiRpcResult A × World))
      → RpcServices
      → Option RpcConfig
      → ℕ
      → World
      → Exec (MultiRpcResult A × World)
  unfolding client_new with_client
  endpoint answer source config now world = do
    created ← client_new externals.usage_map world.state.ok_results source config now
    with_client answer created.0
        (record world { state = record world.state { ok_results = created.1 } })

  -- `get_transaction_hash`
  unfoldable pub get_transaction_hash : Hex → Option Hex32
  get_transaction_hash raw =
      map_some (λ hash. record { bytes = hash }) (L.transaction_hash raw.bytes)

  module _ (source : RpcServices) (now : ℕ) (world later : World) (later_now : ℕ) where
    unfoldable pub get_logs_endpoint :
        ⦃p : PartialEq (RpcResult (List Answer.LogEntry))⦄
        → Network (List (Json.GetLogsParam platform)) (List (Reply.LogEntry platform))
        → Option GetLogsRpcConfig
        → Candid.GetLogsArgs
        → Exec (MultiRpcResult (List Answer.LogEntry) × World)
    unfolding endpoint get_logs converted_call into_get_logs_param from_log_entries rpc_config_from
        max_block_range_or_default
    get_logs_endpoint N config args =
        let settings = unwrap_or config default_get_logs_config in
        endpoint
          (λ client w.
            get_logs
              (λ w₁.
                converted_call N eth_get_logs (into_get_logs_param platform args ∷ [])
                  (from_log_entries platform) client w₁ later later_now)
              args.from_block args.to_block (max_block_range_or_default settings) w)
          source (some (rpc_config_from settings)) now world

    unfoldable pub get_block_endpoint :
        ⦃p : PartialEq (RpcResult Answer.Block)⦄
        → Network (Json.GetBlockByNumberParams platform) (Reply.Block platform)
        → Option RpcConfig
        → Candid.BlockTag
        → Exec (MultiRpcResult Answer.Block × World)
    unfolding endpoint converted_call into_block_spec from_block
    get_block_endpoint N config tag =
        endpoint
          (λ client w.
            converted_call N eth_get_block_by_number
              (record { block = into_block_spec platform tag; include_full_transactions = false })
              (from_block platform) client w later later_now)
          source config now world

    unfoldable pub get_receipt_endpoint :
        ⦃p : PartialEq (RpcResult (Option Answer.TransactionReceipt))⦄
        → Network (List Hash) (Option (Reply.TransactionReceipt platform))
        → Option RpcConfig
        → Hex32
        → Exec (MultiRpcResult (Option Answer.TransactionReceipt) × World)
    unfolding endpoint converted_call into_hash from_transaction_receipt
    get_receipt_endpoint N config tx_hash =
        endpoint
          (λ client w.
            converted_call N eth_get_transaction_receipt (into_hash tx_hash ∷ [])
              (map_some (from_transaction_receipt platform)) client w later later_now)
          source config now world

    unfoldable pub get_transaction_count_endpoint :
        ⦃p : PartialEq (RpcResult Nat256)⦄
        → Network (Json.GetTransactionCountParams platform) (Amount platform.ethnum)
        → Option RpcConfig
        → Candid.GetTransactionCountArgs
        → Exec (MultiRpcResult Nat256 × World)
    unfolding endpoint converted_call into_get_transaction_count_params
    get_transaction_count_endpoint N config args =
        endpoint
          (λ client w.
            converted_call N eth_get_transaction_count
              (into_get_transaction_count_params platform args) (number_of platform) client w later
              later_now)
          source config now world

    unfoldable pub fee_history_endpoint :
        ⦃p : PartialEq (RpcResult (Answer.FeeHistory platform.F64))⦄
        → Network (Json.FeeHistoryParams platform) (Reply.FeeHistory platform)
        → Option RpcConfig
        → Candid.FeeHistoryArgs
        → Exec (MultiRpcResult (Answer.FeeHistory platform.F64) × World)
    unfolding endpoint converted_call into_fee_history_params from_fee_history
    fee_history_endpoint N config args =
        endpoint
          (λ client w.
            converted_call N eth_fee_history (into_fee_history_params platform args)
              (from_fee_history platform) client w later later_now)
          source config now world

    unfoldable pub send_raw_transaction_endpoint :
        ⦃p : PartialEq (RpcResult Answer.SendRawTransactionStatus)⦄
        → Network (List Text) SendRawTransactionResult
        → Option RpcConfig
        → Hex
        → Exec (MultiRpcResult Answer.SendRawTransactionStatus × World)
    unfolding endpoint converted_call hex_to_string from_send_raw_transaction_result
        get_transaction_hash
    send_raw_transaction_endpoint N config raw =
        endpoint
          (λ client w.
            converted_call N eth_send_raw_transaction (hex_to_string L.hex raw.bytes ∷ [])
              (from_send_raw_transaction_result (get_transaction_hash raw)) client w later
              later_now)
          source config now world

    unfoldable pub call_endpoint :
        ⦃p : PartialEq (RpcResult Hex)⦄
        → Network (Json.EthCallParams platform) Reply.Data
        → Option RpcConfig
        → Candid.CallArgs
        → Exec (MultiRpcResult Hex × World)
    unfolding endpoint converted_call into_eth_call_params from_data
    call_endpoint N config args =
        endpoint
          (λ client w.
            converted_call N eth_call (into_eth_call_params platform args) from_data client w later
              later_now)
          source config now world

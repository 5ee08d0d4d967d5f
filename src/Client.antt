-- ===== src/Client.antt =====
-- `EthRpcClient` of `src/rpc_client/mod.rs`, and `ResponseSizeEstimate` of
-- `src/rpc_client/eth_rpc/mod.rs`: what a call to several services is configured with.
pub mod Sizes
use evm_rpc_canister.Prelude.{
  ℕ, ◌+◌, ◌*◌, ◌-◌, ◌==◌, Bool, ltb, leb, Option, none, some, Text, text, Result, ok, err,
  unwrap_or, map_ok, if◌then◌else◌,
}
use evm_rpc_canister.Prelude.Exec.{Exec, returns, traps, ◌>>=◌, ◌>>◌}
use evm_rpc_canister.Constants.{eth_mainnet_chain_id, eth_sepolia_chain_id}
use evm_rpc_canister.Types.Config.{
  RpcServices, RpcConfig, ConsensusStrategy, equality, threshold, default_rpc_config,
}
use evm_rpc_canister.Types.Error.{ProviderError}
use evm_rpc_canister.Providers.Usage.{TimedSizedMap}
use evm_rpc_canister.Selection.{Providers, providers_new}

abbrev pub header_size_limit : ℕ
header_size_limit = 2 * 1024

abbrev pub http_max_size : ℕ
http_max_size = 2_000_000

abbrev pub max_payload_size : ℕ
max_payload_size = http_max_size - header_size_limit

unfoldable pub assert : Bool → Text → Exec (Unit {0})
assert b message = if b then returns tt else traps message

-- `ResponseSizeEstimate::new`
unfoldable pub response_size_estimate_new : ℕ → Exec ℕ
unfolding assert
response_size_estimate_new num_bytes = do
  assert (ltb 0 num_bytes) (text "assertion failed: num_bytes > 0")
  assert (leb num_bytes max_payload_size) (text "assertion failed: num_bytes <= MAX_PAYLOAD_SIZE")
  returns num_bytes

pub record EthRpcClient : Type 0 where
  pub providers : Providers
  pub config : RpcConfig

-- `EthRpcClient::new`, with the usage record after it
unfoldable pub client_new :
    (M : TimedSizedMap)
    → M.Map
    → RpcServices
    → Option RpcConfig
    → ℕ
    → Exec (Result EthRpcClient ProviderError × M.Map)
client_new M usage source config now =
    let config' = unwrap_or config default_rpc_config in
    let strategy = unwrap_or config'.response_consensus equality in
    do
      created ← providers_new M usage source strategy now
      returns (
        map_ok (λ providers. record { providers = providers; config = config' }) created.0,
        created.1,
      )

unfoldable pub response_size_estimate : EthRpcClient → ℕ → Exec ℕ
unfolding response_size_estimate_new
response_size_estimate client estimate =
    response_size_estimate_new (unwrap_or client.config.response_size_estimate estimate)

-- `ReductionStrategy`; the number is that of `ReduceWithThreshold`.
pub data ReductionStrategy : Type 0 where
  by_equality : ReductionStrategy
  by_threshold : ℕ → ReductionStrategy

-- `From<ConsensusStrategy> for ReductionStrategy`
unfoldable pub reduction_strategy_from : ConsensusStrategy → ReductionStrategy
reduction_strategy_from equality = by_equality
reduction_strategy_from (threshold total min) = by_threshold min

unfoldable pub consensus_strategy : EthRpcClient → ReductionStrategy
unfolding reduction_strategy_from
consensus_strategy client =
    reduction_strategy_from (unwrap_or client.config.response_consensus equality)

-- `RpcMethod` of `src/types/mod.rs`
pub data RpcMethod : Type 0 where
  eth_call eth_fee_history eth_get_logs eth_get_block_by_number eth_get_transaction_count :
      RpcMethod
  eth_get_transaction_receipt eth_send_raw_transaction : RpcMethod

-- `RpcMethod::name`
unfoldable pub method_name : RpcMethod → Text
unfolding text
method_name eth_call = text "eth_call"
method_name eth_fee_history = text "eth_feeHistory"
method_name eth_get_logs = text "eth_getLogs"
method_name eth_get_block_by_number = text "eth_getBlockByNumber"
method_name eth_get_transaction_count = text "eth_getTransactionCount"
method_name eth_get_transaction_receipt = text "eth_getTransactionReceipt"
method_name eth_send_raw_transaction = text "eth_sendRawTransaction"

unfoldable pub expected_block_size : ℕ → ℕ
expected_block_size chain =
    if chain == eth_sepolia_chain_id
    then 12 * 1024
    else if chain == eth_mainnet_chain_id
    then 24 * 1024
    else 24 * 1024

-- The estimate that the client's method for an RPC method passes on.
unfoldable pub method_estimate : EthRpcClient → RpcMethod → ℕ
unfolding expected_block_size
method_estimate client eth_get_logs = 1024 + header_size_limit
method_estimate client eth_get_block_by_number =
    expected_block_size client.providers.chain + header_size_limit
method_estimate client eth_get_transaction_receipt = 700 + header_size_limit
method_estimate client eth_fee_history = 512 + header_size_limit
method_estimate client eth_send_raw_transaction = 256 + header_size_limit
method_estimate client eth_get_transaction_count = 50 + header_size_limit
method_estimate client eth_call = 256 + header_size_limit

-- The number of bytes that a call of a method allows a response.
unfoldable pub call_size : EthRpcClient → RpcMethod → Exec ℕ
unfolding response_size_estimate method_estimate
call_size client method = response_size_estimate client (method_estimate client method)

-- ===== src/Types/Config.antt =====
-- `evm_rpc_types/src/rpc_client/mod.rs`: what a caller configures.
use evm_rpc_canister.Prelude.{ℕ, List, Option, none, unwrap_or}
use evm_rpc_canister.Types.Service.{RpcApi, EthMainnetService, EthSepoliaService, L2MainnetService}

-- `total` and `min` are `u8`.
pub data ConsensusStrategy : Type 0 where
  equality : ConsensusStrategy
  threshold : Option ℕ → ℕ → ConsensusStrategy

pub data RpcServices : Type 0 where
  custom : ℕ → List RpcApi → RpcServices
  eth_mainnet : Option (List EthMainnetService) → RpcServices
  eth_sepolia : Option (List EthSepoliaService) → RpcServices
  arbitrum_one base_mainnet optimism_mainnet : Option (List L2MainnetService) → RpcServices

pub record RpcConfig : Type 0 where
  pub response_size_estimate : Option ℕ
  pub response_consensus : Option ConsensusStrategy

pub record GetLogsRpcConfig : Type 0 where
  pub response_size_estimate : Option ℕ
  pub response_consensus : Option ConsensusStrategy
  pub max_block_range : Option ℕ

-- `RpcConfig::default`
abbrev pub default_rpc_config : RpcConfig
default_rpc_config = record { response_size_estimate = none; response_consensus = none }

-- `GetLogsRpcConfig::default`
abbrev pub default_get_logs_config : GetLogsRpcConfig
default_get_logs_config = record {
  response_size_estimate = none;
  response_consensus = none;
  max_block_range = none;
}

-- `From<GetLogsRpcConfig> for RpcConfig`
unfoldable pub rpc_config_from : GetLogsRpcConfig → RpcConfig
rpc_config_from config = record {
  response_size_estimate = config.response_size_estimate;
  response_consensus = config.response_consensus;
}

-- `From<RpcConfig> for GetLogsRpcConfig`
unfoldable pub get_logs_config_from : RpcConfig → GetLogsRpcConfig
get_logs_config_from config = record {
  response_size_estimate = config.response_size_estimate;
  response_consensus = config.response_consensus;
  max_block_range = none;
}

unfoldable pub max_block_range_or_default : GetLogsRpcConfig → ℕ
max_block_range_or_default config = unwrap_or config.max_block_range 500

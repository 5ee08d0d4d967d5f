-- ===== src/Providers/Resolve.antt =====
-- `src/providers.rs`: the two maps built from the table, `resolve_rpc_service`, and the service that
-- a caller's service is known as.
use evm_rpc_canister.Ord.Instances.{nat_ord, pair_ord}
use evm_rpc_canister.BTree.Map.{get, extend}
use evm_rpc_canister.Prelude.{
  ℕ, Bool, List, [], map, Option, none, some, ◌==◌, find, filter_map, Result, ok, ok_or, ◌>>=◌,
}
use evm_rpc_canister.Constants.{
  eth_mainnet_chain_id, eth_sepolia_chain_id, arbitrum_one_chain_id, base_mainnet_chain_id,
  optimism_mainnet_chain_id,
}
use evm_rpc_canister.Types.Service.{
  RpcApi, RpcService, provider, custom, eth_mainnet, eth_sepolia, arbitrum_one, base_mainnet,
  optimism_mainnet,
}
use evm_rpc_canister.Types.Error.{ProviderError, provider_not_found, missing_required_provider}
use evm_rpc_canister.Providers.Defs.{Provider, SupportedRpcService, supported_ord}
use evm_rpc_canister.Providers.Table.{providers}

-- `PROVIDER_MAP`
unfoldable pub provider_map : List (ℕ × Provider)
unfolding extend
provider_map = extend [] (map (λ p. (p.provider_id, p)) providers)

-- `SERVICE_PROVIDER_MAP`
unfoldable pub service_provider_map : List (SupportedRpcService × ℕ)
unfolding extend
service_provider_map = extend [] (
    filter_map (λ p. elim p.alias [ none ↦ none | some alias ↦ some (alias, p.provider_id) ])
      providers)

unfoldable pub find_provider : (Provider → Bool) → Option Provider
find_provider f = find f providers

unfoldable pub get_known_chain_id : RpcService → Option ℕ
get_known_chain_id (provider id) = none
get_known_chain_id (custom api) = none
get_known_chain_id (eth_mainnet s) = some eth_mainnet_chain_id
get_known_chain_id (eth_sepolia s) = some eth_sepolia_chain_id
get_known_chain_id (arbitrum_one s) = some arbitrum_one_chain_id
get_known_chain_id (base_mainnet s) = some base_mainnet_chain_id
get_known_chain_id (optimism_mainnet s) = some optimism_mainnet_chain_id

-- `ResolvedRpcService` of `src/types/mod.rs`
pub data ResolvedRpcService : Type 0 where
  api : RpcApi → ResolvedRpcService
  known : Provider → ResolvedRpcService

unfoldable pub lookup_provider_for_service : SupportedRpcService → Result Provider ProviderError
lookup_provider_for_service service = do
  provider_id ← ok_or (get service service_provider_map) missing_required_provider
  ok_or (get provider_id provider_map) provider_not_found

-- The result of a lookup as a resolved service.
abbrev pub as_known : Result Provider ProviderError → Result ResolvedRpcService ProviderError
as_known r = do p ← r; ok (known p)

unfoldable pub resolve_rpc_service : RpcService → Result ResolvedRpcService ProviderError
unfolding lookup_provider_for_service
resolve_rpc_service (provider id) = as_known (ok_or (get id provider_map) provider_not_found)
resolve_rpc_service (custom a) = ok (api a)
resolve_rpc_service (eth_mainnet s) =
    as_known (lookup_provider_for_service (SupportedRpcService.eth_mainnet s))
resolve_rpc_service (eth_sepolia s) =
    as_known (lookup_provider_for_service (SupportedRpcService.eth_sepolia s))
resolve_rpc_service (arbitrum_one s) =
    as_known (lookup_provider_for_service (SupportedRpcService.arbitrum_one s))
resolve_rpc_service (base_mainnet s) =
    as_known (lookup_provider_for_service (SupportedRpcService.base_mainnet s))
resolve_rpc_service (optimism_mainnet s) =
    as_known (lookup_provider_for_service (SupportedRpcService.optimism_mainnet s))

-- `SupportedRpcService::new`
unfoldable pub supported_new : RpcService → Option SupportedRpcService
unfolding find_provider
supported_new (provider id) = elim (find_provider (λ p. p.provider_id == id)) [
  | none ↦ none
  | some p ↦ p.alias
]
supported_new (custom a) = none
supported_new (eth_mainnet s) = some (SupportedRpcService.eth_mainnet s)
supported_new (eth_sepolia s) = some (SupportedRpcService.eth_sepolia s)
supported_new (arbitrum_one s) = some (SupportedRpcService.arbitrum_one s)
supported_new (base_mainnet s) = some (SupportedRpcService.base_mainnet s)
supported_new (optimism_mainnet s) = some (SupportedRpcService.optimism_mainnet s)

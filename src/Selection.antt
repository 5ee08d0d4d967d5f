-- ===== src/Selection.antt =====
-- `src/rpc_client/mod.rs`: which providers a call queries. `Providers::new`, `choose_providers` and
-- `EthRpcClient::new` rank the default providers by the usage record, so the record is a state.
pub mod Bounds
pub mod Accepts
pub mod Ranking
pub mod Repeats
pub mod Sorted
use evm_rpc_canister.BTree.Set.{from_list}
use evm_rpc_canister.Prelude.{
  ℕ, zero, ◌%◌, ◌++◌, Bool, not, List, [], ◌∷◌, map, Option, none, some, Text, text, show, ltb,
  ◌==◌, if◌then◌else◌, length, take, is_empty, Result, ok, err, unwrap_or,
}
use evm_rpc_canister.Prelude.Exec.{Exec, returns, traps, ◌>>=◌}
use evm_rpc_canister.Constants.{
  eth_mainnet_chain_id, eth_sepolia_chain_id, arbitrum_one_chain_id, base_mainnet_chain_id,
  optimism_mainnet_chain_id,
}
use evm_rpc_canister.Types.Service.{RpcService, rpc_service_ord}
use evm_rpc_canister.Types.Config.{
  ConsensusStrategy, equality, threshold, RpcServices, RpcConfig, default_rpc_config,
}
use evm_rpc_canister.Types.Error.{ProviderError, provider_not_found, invalid_rpc_config}
use evm_rpc_canister.Providers.Defs.{SupportedRpcService, to_rpc_service}
use evm_rpc_canister.Providers.Defaults
use evm_rpc_canister.Providers.Usage.{TimedSizedMap, rank_ascending_evict}

-- The default number of providers for equality.
abbrev pub default_num_providers_for_equality : ℕ
default_num_providers_for_equality = 3

-- The services that the caller lists, if any.
unfoldable pub user_defined_providers : RpcServices → Option (List RpcService)
user_defined_providers (RpcServices.custom chain services) = some (map RpcService.custom services)
user_defined_providers (RpcServices.eth_mainnet none) = none
user_defined_providers (RpcServices.eth_mainnet (some l)) = some (map RpcService.eth_mainnet l)
user_defined_providers (RpcServices.eth_sepolia none) = none
user_defined_providers (RpcServices.eth_sepolia (some l)) = some (map RpcService.eth_sepolia l)
user_defined_providers (RpcServices.arbitrum_one none) = none
user_defined_providers (RpcServices.arbitrum_one (some l)) = some (map RpcService.arbitrum_one l)
user_defined_providers (RpcServices.base_mainnet none) = none
user_defined_providers (RpcServices.base_mainnet (some l)) = some (map RpcService.base_mainnet l)
user_defined_providers (RpcServices.optimism_mainnet none) = none
user_defined_providers (RpcServices.optimism_mainnet (some l)) =
    some (map RpcService.optimism_mainnet l)

-- The network's chain identifier and its default services.
unfoldable pub supported_providers : RpcServices → ℕ × List SupportedRpcService
supported_providers (RpcServices.custom chain services) = (chain, [])
supported_providers (RpcServices.eth_mainnet l) = (eth_mainnet_chain_id, Defaults.eth_mainnet)
supported_providers (RpcServices.eth_sepolia l) = (eth_sepolia_chain_id, Defaults.eth_sepolia)
supported_providers (RpcServices.arbitrum_one l) = (arbitrum_one_chain_id, Defaults.arbitrum_one)
supported_providers (RpcServices.base_mainnet l) = (base_mainnet_chain_id, Defaults.base_mainnet)
supported_providers (RpcServices.optimism_mainnet l) =
    (optimism_mainnet_chain_id, Defaults.optimism_mainnet)

-- `n as u8`
abbrev pub as_u8 : ℕ → ℕ
as_u8 n = n % 256

min_is_zero : ProviderError
min_is_zero = invalid_rpc_config (text "min must be greater than 0")

total_is_missing : ProviderError
total_is_missing = invalid_rpc_config (text "total must be specified when using default providers")

min_above_total : ℕ → ℕ → ProviderError
min_above_total min total =
    invalid_rpc_config (text "min " ++ (show min ++ (text " is greater than total " ++ show total)))

total_above_supported : ℕ → ℕ → ProviderError
total_above_supported total n = invalid_rpc_config (
    text "total "
    ++ (show total ++ (text " is greater than the number of all supported providers " ++ show n)))

min_above_specified : ℕ → ℕ → ProviderError
min_above_specified min n = invalid_rpc_config (
    text "min "
    ++ (show min ++ (text " is greater than the number of specified providers " ++ show n)))

total_not_specified : ℕ → ℕ → ProviderError
total_not_specified total n = invalid_rpc_config (
    text "total "
    ++ (show total ++ (text " is different than the number of specified providers " ++ show n)))

-- The threshold strategy on the services that the caller lists.
unfoldable pub choose_specified :
    List RpcService → Option ℕ → ℕ → Result (List RpcService) ProviderError
unfolding min_above_specified total_not_specified
choose_specified services total min =
    let n = length services in
    if ltb (as_u8 n) min then err (min_above_specified min n) else elim total [
      | none ↦ ok (from_list services)
      | some t ↦ if t == as_u8 n then ok (from_list services) else err (total_not_specified t n)
    ]

-- `Providers`
pub record Providers : Type 0 where
  pub chain : ℕ
  pub services : List RpcService

module _ (M : TimedSizedMap) where
  open M use {Map}

  -- What a selection gives, with the usage record after it.
  abbrev pub Chosen : Type 0
  Chosen = Exec (Result (List RpcService) ProviderError × Map)

  -- `rank_providers(..).into_iter().take(n).map(RpcService::from).collect()`
  unfoldable pub best : Map → List SupportedRpcService → ℕ → ℕ → List RpcService × Map
  best usage supported now n =
      let (ranked, usage') = rank_ascending_evict M usage supported now in
      (from_list (map to_rpc_service (take n ranked)), usage')

  -- The threshold strategy on the default services; the assertion is the last step.
  unfoldable pub choose_default : Map → List SupportedRpcService → Option ℕ → ℕ → ℕ → Chosen
  unfolding best total_is_missing min_above_total total_above_supported
  choose_default usage supported none min now = returns (err total_is_missing, usage)
  choose_default usage supported (some total) min now =
      let n = length supported in
      if ltb total min
      then returns (err (min_above_total min total), usage)
      else if ltb (as_u8 n) total
      then returns (err (total_above_supported total n), usage)
      else let (providers, usage') = best usage supported now total in
        if length providers == total
        then returns (ok providers, usage')
        else traps (text "BUG: duplicate providers")

  unfoldable pub choose_providers :
      Map → Option (List RpcService) → List SupportedRpcService → ConsensusStrategy → ℕ → Chosen
  unfolding choose_default choose_specified min_is_zero
  choose_providers usage (some services) supported equality now =
      returns (ok (from_list services), usage)
  choose_providers usage none supported equality now =
      let (providers, usage') = best usage supported now default_num_providers_for_equality in
      returns (ok providers, usage')
  choose_providers usage user supported (threshold total min) now =
      if min == 0 then returns (err min_is_zero, usage) else elim user [
        | none ↦ choose_default usage supported total min now
        | some services ↦ returns (choose_specified services total min, usage)
      ]

  abbrev pub non_empty : ℕ → Result (List RpcService) ProviderError → Result Providers ProviderError
  non_empty chain (err e) = err e
  non_empty chain (ok services) =
      if is_empty services
      then err provider_not_found
      else ok (record { chain = chain; services = services })

  -- `Providers::new`
  unfoldable pub providers_new :
      Map → RpcServices → ConsensusStrategy → ℕ → Exec (Result Providers ProviderError × Map)
  unfolding choose_providers user_defined_providers supported_providers
  providers_new usage source strategy now = do
    chosen ←
        choose_providers usage (user_defined_providers source) (supported_providers source).1
          strategy now
    returns (non_empty (supported_providers source).0 chosen.0, chosen.1)

-- ===== src/Providers/Defs.antt =====
-- `src/types/mod.rs` (`Provider`, `RpcAccess`, `RpcAuth`) and `SupportedRpcService` of
-- `src/providers.rs` with its derived order.
use evm_rpc_canister.Ord.{Ord}
use evm_rpc_canister.Ord.Instances.{nat_ord, pair_ord, key_ord, key_injective}
use evm_rpc_canister.Prelude.{ℕ, zero, suc, ◌≡◌, Option, some, Text}
use evm_rpc_canister.Types.Service.{
  EthMainnetService, EthSepoliaService, L2MainnetService, RpcService, mainnet_index,
  of_mainnet_index, of_mainnet_index-mainnet_index, sepolia_index, of_sepolia_index,
  of_sepolia_index-sepolia_index, l2_index, of_l2_index, of_l2_index-l2_index,
}

pub data SupportedRpcService : Type 0 where
  eth_mainnet : EthMainnetService → SupportedRpcService
  eth_sepolia : EthSepoliaService → SupportedRpcService
  arbitrum_one base_mainnet optimism_mainnet : L2MainnetService → SupportedRpcService

-- The URLs, and the URL patterns that hold the marker of the API key.
pub data RpcAuth : Type 0 where
  bearer_token : Text → RpcAuth
  url_parameter : Text → RpcAuth

-- The second field of `authenticated` is the public URL to use without an API key.
pub data RpcAccess : Type 0 where
  authenticated : RpcAuth → Option Text → RpcAccess
  unauthenticated : Text → RpcAccess

pub record Provider : Type 0 where
  pub provider_id : ℕ
  pub chain_id : ℕ
  pub access : RpcAccess
  pub alias : Option SupportedRpcService

-- `RpcAccess::public_url`
unfoldable pub public_url : RpcAccess → Option Text
public_url (authenticated auth url) = url
public_url (unauthenticated url) = some url

-- `From<SupportedRpcService> for RpcService`
unfoldable pub to_rpc_service : SupportedRpcService → RpcService
to_rpc_service (eth_mainnet s) = RpcService.eth_mainnet s
to_rpc_service (eth_sepolia s) = RpcService.eth_sepolia s
to_rpc_service (arbitrum_one s) = RpcService.arbitrum_one s
to_rpc_service (base_mainnet s) = RpcService.base_mainnet s
to_rpc_service (optimism_mainnet s) = RpcService.optimism_mainnet s

pub supported_key : SupportedRpcService → ℕ × ℕ
supported_key (eth_mainnet s) = (0, mainnet_index s)
supported_key (eth_sepolia s) = (1, sepolia_index s)
supported_key (arbitrum_one s) = (2, l2_index s)
supported_key (base_mainnet s) = (3, l2_index s)
supported_key (optimism_mainnet s) = (4, l2_index s)

of_supported_fields : ℕ → ℕ → Option SupportedRpcService
of_supported_fields zero n = some (eth_mainnet (of_mainnet_index n))
of_supported_fields (suc zero) n = some (eth_sepolia (of_sepolia_index n))
of_supported_fields (suc (suc zero)) n = some (arbitrum_one (of_l2_index n))
of_supported_fields (suc (suc (suc zero))) n = some (base_mainnet (of_l2_index n))
of_supported_fields _ n = some (optimism_mainnet (of_l2_index n))

of_supported_key : ℕ × ℕ → Option SupportedRpcService
unfolding of_supported_fields
of_supported_key k = of_supported_fields k.0 k.1

of_supported_key-supported_key :
    (s : SupportedRpcService) → of_supported_key (supported_key s) ≡ some s
unfolding supported_key of_supported_key
of_supported_key-supported_key (eth_mainnet s) = rw of_mainnet_index-mainnet_index
of_supported_key-supported_key (eth_sepolia s) = rw of_sepolia_index-sepolia_index
of_supported_key-supported_key (arbitrum_one s) = rw of_l2_index-l2_index
of_supported_key-supported_key (base_mainnet s) = rw of_l2_index-l2_index
of_supported_key-supported_key (optimism_mainnet s) = rw of_l2_index-l2_index

pub supported_inj : (x y : SupportedRpcService) → supported_key x ≡ supported_key y → x ≡ y
supported_inj = key_injective supported_key of_supported_key of_supported_key-supported_key

instance unfoldable pub supported_ord : Ord SupportedRpcService
unfolding supported_key
supported_ord = key_ord supported_key supported_inj

-- ===== src/Selection/Bounds.antt =====
-- How many providers a selection has, and which they are (`src/rpc_client/mod.rs`).
use evm_rpc_canister.Ord.Instances.{nat_ord, pair_ord, key_ord}
use evm_rpc_canister.BTree.Set.{
  contains, IsDistinct, is_distinct, is_distinct-IsDistinct, contains-from_list, length-from_list,
  IsDistinct-take, IsDistinct-map, IsDistinct-perm, contains-take, contains-perm, contains-map,
  contains-map_of, length-perm,
}
use evm_rpc_canister.Prelude.{
  ℕ, ◌≤◌, min, ◌≡◌, ◌∙◌, sym, subst, refl, true, List, [], map, none, length, length-take,
  length-map, take, unwrap_or, arith,
}
use evm_rpc_canister.Types.Service.{
  EthMainnetService, RpcService, rpc_service_ord, mainnet_index, sepolia_index, l2_index, api_ord,
}
use evm_rpc_canister.Types.Config.{RpcServices}
use evm_rpc_canister.Providers.Defs.{SupportedRpcService, to_rpc_service, supported_ord}
use evm_rpc_canister.Providers.Resolve.{supported_new}
use evm_rpc_canister.Providers.Defaults
use evm_rpc_canister.Providers.Usage.{TimedSizedMap, rank_ascending_evict}
use evm_rpc_canister.Selection.{user_defined_providers, supported_providers, best}

pub from_rpc_service : RpcService → SupportedRpcService
from_rpc_service s =
    unwrap_or (supported_new s) (SupportedRpcService.eth_mainnet EthMainnetService.alchemy)

pub from-to_rpc_service : (s : SupportedRpcService) → from_rpc_service (to_rpc_service s) ≡ s
unfolding from_rpc_service supported_new to_rpc_service
from-to_rpc_service (SupportedRpcService.eth_mainnet s) = refl
from-to_rpc_service _ = refl

pub supported_providers-IsDistinct :
    (source : RpcServices) → IsDistinct (supported_providers source).1
unfolding supported_providers Defaults.eth_mainnet Defaults.eth_sepolia Defaults.arbitrum_one
    Defaults.base_mainnet Defaults.optimism_mainnet is_distinct supported_ord pair_ord key_ord
    mainnet_index sepolia_index l2_index
supported_providers-IsDistinct (RpcServices.custom c l) = is_distinct-IsDistinct [] refl
supported_providers-IsDistinct (RpcServices.eth_mainnet l) =
    is_distinct-IsDistinct Defaults.eth_mainnet refl
supported_providers-IsDistinct (RpcServices.eth_sepolia l) =
    is_distinct-IsDistinct Defaults.eth_sepolia refl
supported_providers-IsDistinct (RpcServices.arbitrum_one l) =
    is_distinct-IsDistinct Defaults.arbitrum_one refl
supported_providers-IsDistinct (RpcServices.base_mainnet l) =
    is_distinct-IsDistinct Defaults.base_mainnet refl
supported_providers-IsDistinct (RpcServices.optimism_mainnet l) =
    is_distinct-IsDistinct Defaults.optimism_mainnet refl

pub length-supported : (source : RpcServices) → length (supported_providers source).1 ≤ 6
unfolding supported_providers Defaults.eth_mainnet Defaults.eth_sepolia Defaults.arbitrum_one
    Defaults.base_mainnet Defaults.optimism_mainnet
length-supported (RpcServices.custom c l) = omega arith
length-supported _ = omega arith

-- Without services of the caller, the network has at least five default ones.
pub five-le-supported :
    (source : RpcServices)
    → user_defined_providers source ≡ none
    → 5 ≤ length (supported_providers source).1
unfolding user_defined_providers supported_providers Defaults.eth_mainnet Defaults.eth_sepolia
    Defaults.arbitrum_one Defaults.base_mainnet Defaults.optimism_mainnet
five-le-supported (RpcServices.custom c l) h = cc
five-le-supported _ h = omega arith

module _ (M : TimedSizedMap) where
  open M use {Map, evict_expired, sort_keys_by, sort_keys_by-perm}

  module _ (usage : Map) (supported : List SupportedRpcService) (now n : ℕ) where
    ranked : List SupportedRpcService
    ranked = (rank_ascending_evict M usage supported now).0

    pub length-best :
        IsDistinct supported → length (best M usage supported now n).0 ≡ min n (length supported)
    unfolding best rank_ascending_evict ranked
    length-best h =
        let perm = sort_keys_by-perm (evict_expired usage supported now) supported _ in
        let distinct =
          IsDistinct-map to_rpc_service from_rpc_service from-to_rpc_service (take n ranked)
            (IsDistinct-take n ranked (IsDistinct-perm perm h)) in
        omega (
          arith,
          length-from_list (map to_rpc_service (take n ranked)) distinct,
          length-map to_rpc_service (take n ranked),
          length-take n ranked,
          length-perm perm,
        )

    -- Only supported services are taken.
    pub contains-best :
        (s : RpcService)
        → contains s (best M usage supported now n).0 ≡ true
        → contains s (map to_rpc_service supported) ≡ true
    unfolding best rank_ascending_evict ranked
    contains-best s h =
        let perm = sort_keys_by-perm (evict_expired usage supported now) supported _ in
        let taken =
          contains-map to_rpc_service from_rpc_service from-to_rpc_service s (take n ranked)
            (sym (contains-from_list s (map to_rpc_service (take n ranked))) ∙ h) in
        let member =
          contains-perm perm (from_rpc_service s)
            (contains-take n (from_rpc_service s) ranked taken.1) in
        subst (λ x. contains x (map to_rpc_service supported) ≡ true) (sym taken.0)
          (contains-map_of to_rpc_service from_rpc_service from-to_rpc_service (from_rpc_service s)
            supported member)

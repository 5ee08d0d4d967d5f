-- ===== src/Queries/Agreement.antt =====
-- What the queries of `src/main.rs` show, beside what calls resolve to.
use evm_rpc_canister.Ord.{◌=?◌, =?_iff}
use evm_rpc_canister.Ord.Instances.{nat_ord, option_ord}
use evm_rpc_canister.Prelude.{
  ℕ, Bool, true, false, ◌&&◌, ◌==◌, ◌≡◌, refl, all, All, All-of_all, some, Result, ok, err, arith,
}
use evm_rpc_canister.Types.Service.{RpcService, rpc_service_ord}
use evm_rpc_canister.Types.Error.{ProviderError}
use evm_rpc_canister.Providers.Resolve.{ResolvedRpcService, resolve_rpc_service, known, api}
use evm_rpc_canister.Providers.Defs.{Provider}
use evm_rpc_canister.Queries.{into_provider, get_service_provider_map}

-- The service resolves to the provider with the identifier, which is shown with the service as its
-- alias.
abbrev pub IsShown : RpcService × ℕ → Type 0
IsShown entry =
    (p : Provider) × (resolve_rpc_service entry.0 ≡ ok (known p))
    × ((into_provider p).provider_id ≡ entry.1)
    × ((into_provider p).alias ≡ some entry.0)

is_shown_by : Result ResolvedRpcService ProviderError → RpcService × ℕ → Bool
unfolding into_provider
is_shown_by (ok (known p)) entry =
    ((into_provider p).provider_id == entry.1) && ((into_provider p).alias =? some entry.0)
is_shown_by (ok (api a)) entry = false
is_shown_by (err e) entry = false

is_shown_by-IsShown :
    (r : Result ResolvedRpcService ProviderError) (entry : RpcService × ℕ)
    → is_shown_by r entry ≡ true
    → (p : Provider) × (r ≡ ok (known p))
      × ((into_provider p).provider_id ≡ entry.1)
      × ((into_provider p).alias ≡ some entry.0)
unfolding is_shown_by
is_shown_by-IsShown (ok (known p)) entry h =
    (p, refl, ground arith, (=?_iff (into_provider p).alias (some entry.0)).0 (ground arith))
is_shown_by-IsShown (ok (api a)) entry h = cc
is_shown_by-IsShown (err e) entry h = cc

is_shown : RpcService × ℕ → Bool
unfolding is_shown_by
is_shown entry = is_shown_by (resolve_rpc_service entry.0) entry

all_shown : all is_shown get_service_provider_map ≡ true
unfolding is_shown get_service_provider_map evm_rpc_canister.Providers.Resolve.service_provider_map
    evm_rpc_canister.Providers.Table.providers evm_rpc_canister.Providers.Defs.supported_ord
    evm_rpc_canister.Ord.Instances.key_ord evm_rpc_canister.Ord.Instances.pair_ord
    evm_rpc_canister.Types.Service.mainnet_index resolve_rpc_service
    evm_rpc_canister.Providers.Defs.to_rpc_service evm_rpc_canister.BTree.Map.get
    evm_rpc_canister.Providers.Resolve.provider_map option_ord rpc_service_ord
    evm_rpc_canister.Types.Service.api_ord evm_rpc_canister.Ord.Instances.list_ord
    evm_rpc_canister.Types.Service.sepolia_index evm_rpc_canister.Types.Service.l2_index
all_shown = refl

-- In every entry of `getServiceProviderMap`, the service resolves to the provider with the entry's
-- identifier, and `getProviders` shows that provider with the service as its alias.
pub get_service_provider_map-IsShown : All IsShown get_service_provider_map
unfolding is_shown
get_service_provider_map-IsShown =
    All-of_all IsShown is_shown get_service_provider_map
      (λ entry h. is_shown_by-IsShown (resolve_rpc_service entry.0) entry h) all_shown

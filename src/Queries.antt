-- ===== src/Queries.antt =====
-- The queries of `src/main.rs` that show the table of providers to callers.
pub mod Agreement
use evm_rpc_canister.Prelude.{ℕ, List, map, Option, none, some}
use evm_rpc_canister.Types.Service.{RpcService}
use evm_rpc_canister.Providers.Defs.{Provider, RpcAccess, to_rpc_service}
use evm_rpc_canister.Providers.Table.{providers}
use evm_rpc_canister.Providers.Resolve.{service_provider_map}
use evm_rpc_canister.Memory.{Externals, State}

-- `Provider` of `evm_rpc_types/src/rpc_client/mod.rs`; its access has the same shape as the
-- canister's own.
pub record ShownProvider : Type 0 where
  pub provider_id : ℕ
  pub chain_id : ℕ
  pub access : RpcAccess
  pub alias : Option RpcService

-- `provider.alias.map(RpcService::from)`
abbrev pub shown_alias : Provider → Option RpcService
shown_alias p = elim p.alias [ none ↦ none | some s ↦ some (to_rpc_service s) ]

unfoldable pub into_provider : Provider → ShownProvider
into_provider p = record {
  provider_id = p.provider_id;
  chain_id = p.chain_id;
  access = p.access;
  alias = shown_alias p;
}

unfoldable pub get_providers : List ShownProvider
unfolding into_provider
get_providers = map into_provider providers

unfoldable pub get_service_provider_map : List (RpcService × ℕ)
get_service_provider_map = map (λ entry. (to_rpc_service entry.0, entry.1)) service_provider_map

unfoldable pub get_nodes_in_subnet : {X : Externals} → State X → ℕ
get_nodes_in_subnet s = s.num_subnet_nodes

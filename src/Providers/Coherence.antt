-- ===== src/Providers/Coherence.antt =====
-- The table of `src/providers.rs` beside the maps and lookups that are built from it.
use evm_rpc_canister.Ord.Instances.{nat_ord, pair_ord, key_ord}
use evm_rpc_canister.BTree.Map.{get, insert, extend, get-insert}
use evm_rpc_canister.Prelude.{
  ℕ, ◌≡◌, refl, Bool, true, false, ◌&&◌, not, List, [], ◌∷◌, map, Option, none, some, ◌==◌, find,
  any, Result, ok, err, arith,
}
use evm_rpc_canister.Types.Service.{
  EthMainnetService, EthSepoliaService, L2MainnetService, RpcService, rpc_service_ord,
  mainnet_index, sepolia_index, l2_index,
}
use evm_rpc_canister.Types.Error.{ProviderError, provider_not_found}
use evm_rpc_canister.Providers.Defs.{Provider, SupportedRpcService, supported_ord, to_rpc_service}
use evm_rpc_canister.Providers.Table.{providers}
use evm_rpc_canister.Providers.Resolve.{
  ResolvedRpcService, known, provider_map, service_provider_map, find_provider, get_known_chain_id,
  resolve_rpc_service, supported_new,
}

-- No identifier stands twice.
has_unique_ids : List Provider → Bool
has_unique_ids [] = true
has_unique_ids (p ∷ ps) = not (any (λ q. q.provider_id == p.provider_id) ps) && has_unique_ids ps

find-any :
    (id : ℕ) (ps : List Provider)
    → any (λ q. q.provider_id == id) ps ≡ false
    → find (λ q. q.provider_id == id) ps ≡ none
find-any id [] h = refl
find-any id (p ∷ ps) h = ground (arith, find-any id ps)

abbrev or_in : ℕ → List (ℕ × Provider) → Option Provider → Option Provider
or_in id m none = get id m
or_in id m (some p) = some p

get-extend :
    (id : ℕ) (m : List (ℕ × Provider)) (ps : List Provider)
    → has_unique_ids ps ≡ true
    → get id (extend m (map (λ p. (p.provider_id, p)) ps))
      ≡ or_in id m (find (λ p. p.provider_id == id) ps)
unfolding has_unique_ids extend
get-extend id m [] h = refl
get-extend id m (p ∷ ps) h = ground (
  arith,
  get-extend id (insert p.provider_id p m) ps,
  get-insert p.provider_id id p m,
  find-any p.provider_id ps,
  find-any id ps,
)

providers_unique : has_unique_ids providers ≡ true
unfolding has_unique_ids providers
providers_unique = refl

abbrev pub found : Option Provider → Result ResolvedRpcService ProviderError
found none = err provider_not_found
found (some p) = ok (known p)

-- Resolving an identifier finds exactly the entry of the table that has it, and fails with
-- `ProviderNotFound` where no entry has it.
pub resolve-provider :
    (id : ℕ)
    → resolve_rpc_service (RpcService.provider id)
      ≡ found (find_provider (λ p. p.provider_id == id))
unfolding resolve_rpc_service find_provider provider_map get
resolve-provider id = ground (arith, get-extend id [] providers providers_unique)

-- Every supported service resolves to a provider of the table that carries that service as its
-- alias and is on the chain of the service, and the provider's identifier is known as that service.
pub resolve-supported :
    (s : SupportedRpcService)
    → (p : Provider) × (resolve_rpc_service (to_rpc_service s) ≡ ok (known p))
      × (p.alias ≡ some s)
      × (get_known_chain_id (to_rpc_service s) ≡ some p.chain_id)
      × (supported_new (RpcService.provider p.provider_id) ≡ some s)
unfolding resolve_rpc_service to_rpc_service get_known_chain_id supported_new providers provider_map
    service_provider_map get supported_ord pair_ord key_ord mainnet_index sepolia_index l2_index
resolve-supported (SupportedRpcService.eth_mainnet EthMainnetService.alchemy) =
    (_, refl, refl, refl, refl)
resolve-supported (SupportedRpcService.eth_mainnet EthMainnetService.ankr) =
    (_, refl, refl, refl, refl)
resolve-supported (SupportedRpcService.eth_mainnet EthMainnetService.block_pi) =
    (_, refl, refl, refl, refl)
resolve-supported (SupportedRpcService.eth_mainnet EthMainnetService.public_node) =
    (_, refl, refl, refl, refl)
resolve-supported (SupportedRpcService.eth_mainnet EthMainnetService.cloudflare) =
    (_, refl, refl, refl, refl)
resolve-supported (SupportedRpcService.eth_mainnet EthMainnetService.llama) =
    (_, refl, refl, refl, refl)
resolve-supported (SupportedRpcService.eth_sepolia EthSepoliaService.alchemy) =
    (_, refl, refl, refl, refl)
resolve-supported (SupportedRpcService.eth_sepolia EthSepoliaService.ankr) =
    (_, refl, refl, refl, refl)
resolve-supported (SupportedRpcService.eth_sepolia EthSepoliaService.block_pi) =
    (_, refl, refl, refl, refl)
resolve-supported (SupportedRpcService.eth_sepolia EthSepoliaService.public_node) =
    (_, refl, refl, refl, refl)
resolve-supported (SupportedRpcService.eth_sepolia EthSepoliaService.sepolia) =
    (_, refl, refl, refl, refl)
resolve-supported (SupportedRpcService.arbitrum_one L2MainnetService.alchemy) =
    (_, refl, refl, refl, refl)
resolve-supported (SupportedRpcService.arbitrum_one L2MainnetService.ankr) =
    (_, refl, refl, refl, refl)
resolve-supported (SupportedRpcService.arbitrum_one L2MainnetService.block_pi) =
    (_, refl, refl, refl, refl)
resolve-supported (SupportedRpcService.arbitrum_one L2MainnetService.public_node) =
    (_, refl, refl, refl, refl)
resolve-supported (SupportedRpcService.arbitrum_one L2MainnetService.llama) =
    (_, refl, refl, refl, refl)
resolve-supported (SupportedRpcService.base_mainnet L2MainnetService.alchemy) =
    (_, refl, refl, refl, refl)
resolve-supported (SupportedRpcService.base_mainnet L2MainnetService.ankr) =
    (_, refl, refl, refl, refl)
resolve-supported (SupportedRpcService.base_mainnet L2MainnetService.block_pi) =
    (_, refl, refl, refl, refl)
resolve-supported (SupportedRpcService.base_mainnet L2MainnetService.public_node) =
    (_, refl, refl, refl, refl)
resolve-supported (SupportedRpcService.base_mainnet L2MainnetService.llama) =
    (_, refl, refl, refl, refl)
resolve-supported (SupportedRpcService.optimism_mainnet L2MainnetService.alchemy) =
    (_, refl, refl, refl, refl)
resolve-supported (SupportedRpcService.optimism_mainnet L2MainnetService.ankr) =
    (_, refl, refl, refl, refl)
resolve-supported (SupportedRpcService.optimism_mainnet L2MainnetService.block_pi) =
    (_, refl, refl, refl, refl)
resolve-supported (SupportedRpcService.optimism_mainnet L2MainnetService.public_node) =
    (_, refl, refl, refl, refl)
resolve-supported (SupportedRpcService.optimism_mainnet L2MainnetService.llama) =
    (_, refl, refl, refl, refl)

-- ===== src/Types/Service.antt =====
-- `evm_rpc_types/src/rpc_client/mod.rs`: the services that a caller can name, with the order that
-- `#[derive(Ord)]` gives them (the variant first, then its fields).
use evm_rpc_canister.Ord.{Ord}
use evm_rpc_canister.Ord.Instances.{nat_ord, pair_ord, list_ord, option_ord, key_ord, key_injective}
use evm_rpc_canister.Prelude.{ℕ, zero, suc, ◌≡◌, refl, List, [], Option, none, some, Text}

pub record HttpHeader : Type 0 where
  pub name : Text
  pub value : Text

pub record RpcApi : Type 0 where
  pub url : Text
  pub headers : Option (List HttpHeader)

pub data EthMainnetService : Type 0 where
  alchemy ankr block_pi public_node cloudflare llama : EthMainnetService

pub data EthSepoliaService : Type 0 where
  alchemy ankr block_pi public_node sepolia : EthSepoliaService

pub data L2MainnetService : Type 0 where
  alchemy ankr block_pi public_node llama : L2MainnetService

pub data RpcService : Type 0 where
  provider : ℕ → RpcService
  custom : RpcApi → RpcService
  eth_mainnet : EthMainnetService → RpcService
  eth_sepolia : EthSepoliaService → RpcService
  arbitrum_one base_mainnet optimism_mainnet : L2MainnetService → RpcService

pub header_key : HttpHeader → Text × Text
header_key h = (h.name, h.value)

of_header_key : Text × Text → Option HttpHeader
of_header_key p = some (record { name = p.0; value = p.1 })

of_header_key-header_key : (h : HttpHeader) → of_header_key (header_key h) ≡ some h
unfolding header_key of_header_key
of_header_key-header_key h = refl

pub header_inj : (x y : HttpHeader) → header_key x ≡ header_key y → x ≡ y
header_inj = key_injective header_key of_header_key of_header_key-header_key

instance unfoldable pub header_ord : Ord HttpHeader
unfolding header_key
header_ord = key_ord header_key header_inj

abbrev pub ApiKeyType : Type 0
ApiKeyType = Text × Option (List HttpHeader)

pub api_order_key : RpcApi → ApiKeyType
api_order_key a = (a.url, a.headers)

of_api_order_key : ApiKeyType → Option RpcApi
of_api_order_key p = some (record { url = p.0; headers = p.1 })

of_api_order_key-api_order_key : (a : RpcApi) → of_api_order_key (api_order_key a) ≡ some a
unfolding api_order_key of_api_order_key
of_api_order_key-api_order_key a = refl

pub api_inj : (x y : RpcApi) → api_order_key x ≡ api_order_key y → x ≡ y
api_inj = key_injective api_order_key of_api_order_key of_api_order_key-api_order_key

instance unfoldable pub api_ord : Ord RpcApi
unfolding api_order_key
api_ord = key_ord api_order_key api_inj

-- The position of a variant, which `#[derive(Ord)]` compares.
unfoldable pub mainnet_index : EthMainnetService → ℕ
mainnet_index EthMainnetService.alchemy = 0
mainnet_index EthMainnetService.ankr = 1
mainnet_index EthMainnetService.block_pi = 2
mainnet_index EthMainnetService.public_node = 3
mainnet_index EthMainnetService.cloudflare = 4
mainnet_index EthMainnetService.llama = 5

unfoldable pub of_mainnet_index : ℕ → EthMainnetService
of_mainnet_index zero = EthMainnetService.alchemy
of_mainnet_index (suc zero) = EthMainnetService.ankr
of_mainnet_index (suc (suc zero)) = EthMainnetService.block_pi
of_mainnet_index (suc (suc (suc zero))) = EthMainnetService.public_node
of_mainnet_index (suc (suc (suc (suc zero)))) = EthMainnetService.cloudflare
of_mainnet_index _ = EthMainnetService.llama

unfoldable pub sepolia_index : EthSepoliaService → ℕ
sepolia_index EthSepoliaService.alchemy = 0
sepolia_index EthSepoliaService.ankr = 1
sepolia_index EthSepoliaService.block_pi = 2
sepolia_index EthSepoliaService.public_node = 3
sepolia_index EthSepoliaService.sepolia = 4

unfoldable pub of_sepolia_index : ℕ → EthSepoliaService
of_sepolia_index zero = EthSepoliaService.alchemy
of_sepolia_index (suc zero) = EthSepoliaService.ankr
of_sepolia_index (suc (suc zero)) = EthSepoliaService.block_pi
of_sepolia_index (suc (suc (suc zero))) = EthSepoliaService.public_node
of_sepolia_index _ = EthSepoliaService.sepolia

unfoldable pub l2_index : L2MainnetService → ℕ
l2_index L2MainnetService.alchemy = 0
l2_index L2MainnetService.ankr = 1
l2_index L2MainnetService.block_pi = 2
l2_index L2MainnetService.public_node = 3
l2_index L2MainnetService.llama = 4

unfoldable pub of_l2_index : ℕ → L2MainnetService
of_l2_index zero = L2MainnetService.alchemy
of_l2_index (suc zero) = L2MainnetService.ankr
of_l2_index (suc (suc zero)) = L2MainnetService.block_pi
of_l2_index (suc (suc (suc zero))) = L2MainnetService.public_node
of_l2_index _ = L2MainnetService.llama

pub of_mainnet_index-mainnet_index :
    (s : EthMainnetService) → of_mainnet_index (mainnet_index s) ≡ s
unfolding mainnet_index of_mainnet_index
of_mainnet_index-mainnet_index EthMainnetService.alchemy = refl
of_mainnet_index-mainnet_index _ = refl

pub of_sepolia_index-sepolia_index :
    (s : EthSepoliaService) → of_sepolia_index (sepolia_index s) ≡ s
unfolding sepolia_index of_sepolia_index
of_sepolia_index-sepolia_index EthSepoliaService.alchemy = refl
of_sepolia_index-sepolia_index _ = refl

pub of_l2_index-l2_index : (s : L2MainnetService) → of_l2_index (l2_index s) ≡ s
unfolding l2_index of_l2_index
of_l2_index-l2_index L2MainnetService.alchemy = refl
of_l2_index-l2_index _ = refl

-- The variant's position, a numeric field, and an API; a field that a variant lacks is empty.
abbrev pub ServiceKey : Type 0
ServiceKey = ℕ × ((ℕ × RpcApi))

abbrev pub no_api : RpcApi
no_api = record { url = []; headers = none }

pub service_key : RpcService → ServiceKey
service_key (provider id) = (0, (id, no_api))
service_key (custom api) = (1, (0, api))
service_key (eth_mainnet s) = (2, (mainnet_index s, no_api))
service_key (eth_sepolia s) = (3, (sepolia_index s, no_api))
service_key (arbitrum_one s) = (4, (l2_index s, no_api))
service_key (base_mainnet s) = (5, (l2_index s, no_api))
service_key (optimism_mainnet s) = (6, (l2_index s, no_api))

of_service_fields : ℕ → ℕ → RpcApi → Option RpcService
of_service_fields zero n api = some (provider n)
of_service_fields (suc zero) n api = some (custom api)
of_service_fields (suc (suc zero)) n api = some (eth_mainnet (of_mainnet_index n))
of_service_fields (suc (suc (suc zero))) n api = some (eth_sepolia (of_sepolia_index n))
of_service_fields (suc (suc (suc (suc zero)))) n api = some (arbitrum_one (of_l2_index n))
of_service_fields (suc (suc (suc (suc (suc zero))))) n api = some (base_mainnet (of_l2_index n))
of_service_fields _ n api = some (optimism_mainnet (of_l2_index n))

of_service_key : ServiceKey → Option RpcService
unfolding of_service_fields
of_service_key k = of_service_fields k.0 k.1.0 k.1.1

of_service_key-service_key : (s : RpcService) → of_service_key (service_key s) ≡ some s
unfolding service_key of_service_key
of_service_key-service_key (provider id) = refl
of_service_key-service_key (custom api) = refl
of_service_key-service_key (eth_mainnet s) = rw of_mainnet_index-mainnet_index
of_service_key-service_key (eth_sepolia s) = rw of_sepolia_index-sepolia_index
of_service_key-service_key (arbitrum_one s) = rw of_l2_index-l2_index
of_service_key-service_key (base_mainnet s) = rw of_l2_index-l2_index
of_service_key-service_key (optimism_mainnet s) = rw of_l2_index-l2_index

pub service_inj : (x y : RpcService) → service_key x ≡ service_key y → x ≡ y
service_inj = key_injective service_key of_service_key of_service_key-service_key

instance unfoldable pub rpc_service_ord : Ord RpcService
unfolding service_key
rpc_service_ord = key_ord service_key service_inj

-- ===== src/Providers/Defaults.antt =====
-- `src/providers.rs`: the default services of each network, in the order of preference.
use evm_rpc_canister.Prelude.{List, [], ◌∷◌}
use evm_rpc_canister.Types.Service.{EthMainnetService, EthSepoliaService, L2MainnetService}
use evm_rpc_canister.Providers.Defs.{SupportedRpcService}

unfoldable pub eth_mainnet : List SupportedRpcService
eth_mainnet =
    SupportedRpcService.eth_mainnet EthMainnetService.block_pi
    ∷ SupportedRpcService.eth_mainnet EthMainnetService.ankr
    ∷ SupportedRpcService.eth_mainnet EthMainnetService.public_node
    ∷ SupportedRpcService.eth_mainnet EthMainnetService.llama
    ∷ SupportedRpcService.eth_mainnet EthMainnetService.alchemy
    ∷ SupportedRpcService.eth_mainnet EthMainnetService.cloudflare
    ∷ []

unfoldable pub eth_sepolia : List SupportedRpcService
eth_sepolia =
    SupportedRpcService.eth_sepolia EthSepoliaService.public_node
    ∷ SupportedRpcService.eth_sepolia EthSepoliaService.ankr
    ∷ SupportedRpcService.eth_sepolia EthSepoliaService.block_pi
    ∷ SupportedRpcService.eth_sepolia EthSepoliaService.alchemy
    ∷ SupportedRpcService.eth_sepolia EthSepoliaService.sepolia
    ∷ []

unfoldable pub arbitrum_one : List SupportedRpcService
arbitrum_one =
    SupportedRpcService.arbitrum_one L2MainnetService.llama
    ∷ SupportedRpcService.arbitrum_one L2MainnetService.block_pi
    ∷ SupportedRpcService.arbitrum_one L2MainnetService.public_node
    ∷ SupportedRpcService.arbitrum_one L2MainnetService.alchemy
    ∷ SupportedRpcService.arbitrum_one L2MainnetService.ankr
    ∷ []

unfoldable pub base_mainnet : List SupportedRpcService
base_mainnet =
    SupportedRpcService.base_mainnet L2MainnetService.llama
    ∷ SupportedRpcService.base_mainnet L2MainnetService.block_pi
    ∷ SupportedRpcService.base_mainnet L2MainnetService.public_node
    ∷ SupportedRpcService.base_mainnet L2MainnetService.alchemy
    ∷ SupportedRpcService.base_mainnet L2MainnetService.ankr
    ∷ []

unfoldable pub optimism_mainnet : List SupportedRpcService
optimism_mainnet =
    SupportedRpcService.optimism_mainnet L2MainnetService.llama
    ∷ SupportedRpcService.optimism_mainnet L2MainnetService.block_pi
    ∷ SupportedRpcService.optimism_mainnet L2MainnetService.public_node
    ∷ SupportedRpcService.optimism_mainnet L2MainnetService.alchemy
    ∷ SupportedRpcService.optimism_mainnet L2MainnetService.ankr
    ∷ []

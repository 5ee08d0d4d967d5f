-- ===== src/Providers/Table.antt =====
-- `src/providers.rs`: `PROVIDERS`, the table of the known providers, in its order.
use evm_rpc_canister.Prelude.{◌++◌, List, [], ◌∷◌, none, some, text}
use evm_rpc_canister.Constants.{
  eth_mainnet_chain_id, eth_sepolia_chain_id, arbitrum_one_chain_id, base_mainnet_chain_id,
  optimism_mainnet_chain_id,
}
use evm_rpc_canister.Types.Service.{EthMainnetService, EthSepoliaService, L2MainnetService}
use evm_rpc_canister.Providers.Defs.{
  Provider, authenticated, unauthenticated, bearer_token, url_parameter, SupportedRpcService,
}

-- Ethereum mainnet and Sepolia, identifiers 0 to 4
unfoldable pub ethereum_providers : List Provider
ethereum_providers =
    record {
      provider_id = 0;
      chain_id = eth_mainnet_chain_id;
      access =
          authenticated (bearer_token (text "https://cloudflare-eth.com/v1/mainnet"))
            (some (text "https://cloudflare-eth.com/v1/mainnet"));
      alias = some (SupportedRpcService.eth_mainnet EthMainnetService.cloudflare);
    }
    ∷ record {
      provider_id = 1;
      chain_id = eth_mainnet_chain_id;
      access =
          authenticated (url_parameter (text "https://rpc.ankr.com/eth/{API_KEY}"))
            (some (text "https://rpc.ankr.com/eth"));
      alias = some (SupportedRpcService.eth_mainnet EthMainnetService.ankr);
    }
    ∷ record {
      provider_id = 2;
      chain_id = eth_mainnet_chain_id;
      access = unauthenticated (text "https://ethereum-rpc.publicnode.com");
      alias = some (SupportedRpcService.eth_mainnet EthMainnetService.public_node);
    }
    ∷ record {
      provider_id = 3;
      chain_id = eth_mainnet_chain_id;
      access =
          authenticated (url_parameter (text "https://ethereum.blockpi.network/v1/rpc/{API_KEY}"))
            (some (text "https://ethereum.public.blockpi.network/v1/rpc/public"));
      alias = some (SupportedRpcService.eth_mainnet EthMainnetService.block_pi);
    }
    ∷ record {
      provider_id = 4;
      chain_id = eth_sepolia_chain_id;
      access = unauthenticated (text "https://rpc.sepolia.org");
      alias = some (SupportedRpcService.eth_sepolia EthSepoliaService.sepolia);
    }
    ∷ []

-- Sepolia, and Alchemy on both Ethereum networks, identifiers 5 to 9
unfoldable pub sepolia_providers : List Provider
sepolia_providers =
    record {
      provider_id = 5;
      chain_id = eth_sepolia_chain_id;
      access =
          authenticated (url_parameter (text "https://rpc.ankr.com/eth_sepolia/{API_KEY}"))
            (some (text "https://rpc.ankr.com/eth_sepolia"));
      alias = some (SupportedRpcService.eth_sepolia EthSepoliaService.ankr);
    }
    ∷ record {
      provider_id = 6;
      chain_id = eth_sepolia_chain_id;
      access =
          authenticated
            (url_parameter (text "https://ethereum-sepolia.blockpi.network/v1/rpc/{API_KEY}"))
            (none);
      alias = some (SupportedRpcService.eth_sepolia EthSepoliaService.block_pi);
    }
    ∷ record {
      provider_id = 7;
      chain_id = eth_sepolia_chain_id;
      access = unauthenticated (text "https://ethereum-sepolia-rpc.publicnode.com");
      alias = some (SupportedRpcService.eth_sepolia EthSepoliaService.public_node);
    }
    ∷ record {
      provider_id = 8;
      chain_id = eth_mainnet_chain_id;
      access =
          authenticated (bearer_token (text "https://eth-mainnet.g.alchemy.com/v2"))
            (some (text "https://eth-mainnet.g.alchemy.com/v2/demo"));
      alias = some (SupportedRpcService.eth_mainnet EthMainnetService.alchemy);
    }
    ∷ record {
      provider_id = 9;
      chain_id = eth_sepolia_chain_id;
      access =
          authenticated (bearer_token (text "https://eth-sepolia.g.alchemy.com/v2"))
            (some (text "https://eth-sepolia.g.alchemy.com/v2/demo"));
      alias = some (SupportedRpcService.eth_sepolia EthSepoliaService.alchemy);
    }
    ∷ []

-- Arbitrum One, identifiers 10 to 13
unfoldable pub arbitrum_providers : List Provider
arbitrum_providers =
    record {
      provider_id = 10;
      chain_id = arbitrum_one_chain_id;
      access =
          authenticated (url_parameter (text "https://rpc.ankr.com/arbitrum/{API_KEY}"))
            (some (text "https://rpc.ankr.com/arbitrum"));
      alias = some (SupportedRpcService.arbitrum_one L2MainnetService.ankr);
    }
    ∷ record {
      provider_id = 11;
      chain_id = arbitrum_one_chain_id;
      access =
          authenticated (bearer_token (text "https://arb-mainnet.g.alchemy.com/v2"))
            (some (text "https://arb-mainnet.g.alchemy.com/v2/demo"));
      alias = some (SupportedRpcService.arbitrum_one L2MainnetService.alchemy);
    }
    ∷ record {
      provider_id = 12;
      chain_id = arbitrum_one_chain_id;
      access =
          authenticated (url_parameter (text "https://arbitrum.blockpi.network/v1/rpc/{API_KEY}"))
            (some (text "https://arbitrum.public.blockpi.network/v1/rpc/public"));
      alias = some (SupportedRpcService.arbitrum_one L2MainnetService.block_pi);
    }
    ∷ record {
      provider_id = 13;
      chain_id = arbitrum_one_chain_id;
      access = unauthenticated (text "https://arbitrum-one-rpc.publicnode.com");
      alias = some (SupportedRpcService.arbitrum_one L2MainnetService.public_node);
    }
    ∷ []

-- Base, identifiers 14 to 17
unfoldable pub base_providers : List Provider
base_providers =
    record {
      provider_id = 14;
      chain_id = base_mainnet_chain_id;
      access =
          authenticated (url_parameter (text "https://rpc.ankr.com/base/{API_KEY}"))
            (some (text "https://rpc.ankr.com/base"));
      alias = some (SupportedRpcService.base_mainnet L2MainnetService.ankr);
    }
    ∷ record {
      provider_id = 15;
      chain_id = base_mainnet_chain_id;
      access =
          authenticated (bearer_token (text "https://base-mainnet.g.alchemy.com/v2"))
            (some (text "https://base-mainnet.g.alchemy.com/v2/demo"));
      alias = some (SupportedRpcService.base_mainnet L2MainnetService.alchemy);
    }
    ∷ record {
      provider_id = 16;
      chain_id = base_mainnet_chain_id;
      access =
          authenticated (url_parameter (text "https://base.blockpi.network/v1/rpc/{API_KEY}"))
            (some (text "https://base.public.blockpi.network/v1/rpc/public"));
      alias = some (SupportedRpcService.base_mainnet L2MainnetService.block_pi);
    }
    ∷ record {
      provider_id = 17;
      chain_id = base_mainnet_chain_id;
      access = unauthenticated (text "https://base-rpc.publicnode.com");
      alias = some (SupportedRpcService.base_mainnet L2MainnetService.public_node);
    }
    ∷ []

-- Optimism, identifiers 18 to 21
unfoldable pub optimism_providers : List Provider
optimism_providers =
    record {
      provider_id = 18;
      chain_id = optimism_mainnet_chain_id;
      access =
          authenticated (url_parameter (text "https://rpc.ankr.com/optimism/{API_KEY}"))
            (some (text "https://rpc.ankr.com/optimism"));
      alias = some (SupportedRpcService.optimism_mainnet L2MainnetService.ankr);
    }
    ∷ record {
      provider_id = 19;
      chain_id = optimism_mainnet_chain_id;
      access =
          authenticated (bearer_token (text "https://opt-mainnet.g.alchemy.com/v2"))
            (some (text "https://opt-mainnet.g.alchemy.com/v2/demo"));
      alias = some (SupportedRpcService.optimism_mainnet L2MainnetService.alchemy);
    }
    ∷ record {
      provider_id = 20;
      chain_id = optimism_mainnet_chain_id;
      access =
          authenticated (url_parameter (text "https://optimism.blockpi.network/v1/rpc/{API_KEY}"))
            (some (text "https://optimism.public.blockpi.network/v1/rpc/public"));
      alias = some (SupportedRpcService.optimism_mainnet L2MainnetService.block_pi);
    }
    ∷ record {
      provider_id = 21;
      chain_id = optimism_mainnet_chain_id;
      access = unauthenticated (text "https://optimism-rpc.publicnode.com");
      alias = some (SupportedRpcService.optimism_mainnet L2MainnetService.public_node);
    }
    ∷ []

-- Llama on every network but Sepolia, identifiers 22 to 25
unfoldable pub llama_providers : List Provider
llama_providers =
    record {
      provider_id = 22;
      chain_id = eth_mainnet_chain_id;
      access = unauthenticated (text "https://eth.llamarpc.com");
      alias = some (SupportedRpcService.eth_mainnet EthMainnetService.llama);
    }
    ∷ record {
      provider_id = 23;
      chain_id = arbitrum_one_chain_id;
      access = unauthenticated (text "https://arbitrum.llamarpc.com");
      alias = some (SupportedRpcService.arbitrum_one L2MainnetService.llama);
    }
    ∷ record {
      provider_id = 24;
      chain_id = base_mainnet_chain_id;
      access = unauthenticated (text "https://base.llamarpc.com");
      alias = some (SupportedRpcService.base_mainnet L2MainnetService.llama);
    }
    ∷ record {
      provider_id = 25;
      chain_id = optimism_mainnet_chain_id;
      access = unauthenticated (text "https://optimism.llamarpc.com");
      alias = some (SupportedRpcService.optimism_mainnet L2MainnetService.llama);
    }
    ∷ []

unfoldable pub providers : List Provider
unfolding ethereum_providers sepolia_providers arbitrum_providers base_providers optimism_providers
    llama_providers
providers =
    ethereum_providers
    ++ (sepolia_providers
        ++ (arbitrum_providers ++ (base_providers ++ (optimism_providers ++ llama_providers))))

-- ===== src/Constants.antt =====
-- `src/constants.rs`
use evm_rpc_canister.Prelude.{ℕ, Text, text}

abbrev pub collateral_cycles_per_node : ℕ
collateral_cycles_per_node = 10_000_000

abbrev pub nodes_in_subnet : ℕ
nodes_in_subnet = 34

unfoldable pub api_key_replace_string : Text
unfolding text
api_key_replace_string = text "{API_KEY}"

unfoldable pub valid_api_key_chars : Text
unfolding text
valid_api_key_chars = text "0123456789ABCDEFGHIJKLMNOPQRTSUVWXYZabcdefghijklmnopqrstuvwxyz$-_.+!*"

abbrev pub eth_mainnet_chain_id : ℕ
eth_mainnet_chain_id = 1

abbrev pub eth_sepolia_chain_id : ℕ
eth_sepolia_chain_id = 11155111

abbrev pub arbitrum_one_chain_id : ℕ
arbitrum_one_chain_id = 42161

abbrev pub base_mainnet_chain_id : ℕ
base_mainnet_chain_id = 8453

abbrev pub optimism_mainnet_chain_id : ℕ
optimism_mainnet_chain_id = 10

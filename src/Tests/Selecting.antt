-- ===== src/Tests/Selecting.antt =====
-- Selections with the default services and with listed ones.
use evm_rpc_canister.BTree.Set.{IsDistinct, is_distinct, is_distinct-IsDistinct, IsAscending}
use evm_rpc_canister.Prelude.{
  ◌≤◌, ◌≡◌, ◌≢◌, refl, true, List, [], ◌∷◌, none, some, text, ok, length, arith,
}
use evm_rpc_canister.Prelude.Exec.{returns, traps}
use evm_rpc_canister.Types.Service.{RpcApi, RpcService, EthMainnetService, rpc_service_ord}
use evm_rpc_canister.Types.Config.{RpcServices, threshold}
use evm_rpc_canister.Providers.Defs.{SupportedRpcService, supported_ord, to_rpc_service}
use evm_rpc_canister.Providers.Usage.{usage_new, record_evict}
use evm_rpc_canister.Providers.Defaults
use evm_rpc_canister.Selection.{
  Providers, providers_new, best, user_defined_providers, supported_providers, choose_providers,
  choose_default, choose_specified,
}
use evm_rpc_canister.Selection.Accepts.{
  is_accepted, providers_new-ne-traps, specified_threshold_accepts, min-le-selected,
}
use evm_rpc_canister.Selection.Repeats.{repeated_service}
use evm_rpc_canister.Tests.Libraries.{counting_map, Counts}

abbrev ankr : SupportedRpcService
ankr = SupportedRpcService.eth_mainnet EthMainnetService.ankr

abbrev llama : SupportedRpcService
llama = SupportedRpcService.eth_mainnet EthMainnetService.llama

-- `llama` answered once.
abbrev usage : Counts
usage = record_evict counting_map (usage_new counting_map) llama 0

abbrev default_services : RpcServices
default_services = RpcServices.eth_mainnet none

abbrev listed : RpcServices
listed = RpcServices.eth_mainnet (some (EthMainnetService.llama ∷ EthMainnetService.ankr ∷ []))

providers_new-ne-traps_example :
    providers_new counting_map usage default_services (threshold (some 3) 2) 0
    ≢ traps (text "BUG: duplicate providers")
providers_new-ne-traps_example =
    providers_new-ne-traps counting_map usage default_services 0 (threshold (some 3) 2)
      (text "BUG: duplicate providers")

user_defined_default : user_defined_providers default_services ≡ none
unfolding user_defined_providers
user_defined_default = refl

abbrev three_best : Providers
three_best = record {
  chain = 1;
  services =
      RpcService.eth_mainnet EthMainnetService.ankr
      ∷ RpcService.eth_mainnet EthMainnetService.block_pi
      ∷ RpcService.eth_mainnet EthMainnetService.llama
      ∷ [];
}

selected_three :
    providers_new counting_map usage default_services (threshold (some 3) 2) 0
    ≡ returns (ok three_best, usage)
unfolding providers_new user_defined_providers supported_providers choose_providers choose_default
    best Defaults.eth_mainnet evm_rpc_canister.BTree.Set.from_list
    evm_rpc_canister.Providers.Usage.rank_ascending_evict evm_rpc_canister.Tests.Libraries.sorted
    evm_rpc_canister.Tests.Libraries.answers_of record_evict
    evm_rpc_canister.Providers.Defs.supported_ord evm_rpc_canister.Ord.Instances.key_ord
    evm_rpc_canister.Ord.Instances.pair_ord evm_rpc_canister.Types.Service.mainnet_index usage_new
    rpc_service_ord to_rpc_service
selected_three = refl

abbrev two_listed : List RpcService
two_listed =
    RpcService.eth_mainnet EthMainnetService.llama
    ∷ RpcService.eth_mainnet EthMainnetService.ankr
    ∷ []

user_defined_listed : user_defined_providers listed ≡ some two_listed
unfolding user_defined_providers
user_defined_listed = refl

specified_threshold_accepts_example :
    is_accepted (providers_new counting_map usage listed (threshold (some 2) 1) 0) ≡ true
specified_threshold_accepts_example =
    specified_threshold_accepts counting_map usage listed 0 two_listed (some 2) 1
      user_defined_listed

abbrev both : Providers
both = record {
  chain = 1;
  services =
      RpcService.eth_mainnet EthMainnetService.ankr
      ∷ RpcService.eth_mainnet EthMainnetService.llama
      ∷ [];
}

selected_both :
    providers_new counting_map usage listed (threshold (some 2) 2) 0 ≡ returns (ok both, usage)
unfolding providers_new user_defined_providers supported_providers choose_providers choose_specified
    evm_rpc_canister.BTree.Set.from_list rpc_service_ord evm_rpc_canister.Ord.Instances.key_ord
    evm_rpc_canister.Ord.Instances.pair_ord evm_rpc_canister.Types.Service.mainnet_index
selected_both = refl

two_distinct : is_distinct two_listed ≡ true
unfolding is_distinct rpc_service_ord evm_rpc_canister.Ord.Instances.key_ord
    evm_rpc_canister.Ord.Instances.pair_ord evm_rpc_canister.Types.Service.mainnet_index
two_distinct = refl

two_listed-IsDistinct : IsDistinct two_listed
two_listed-IsDistinct = is_distinct-IsDistinct two_listed two_distinct

min-le-selected_example : 2 ≤ length both.services
unfolding user_defined_providers
min-le-selected_example =
    min-le-selected counting_map usage listed 0 (some 2) 2 both usage
      (two_listed-IsDistinct, omega arith) selected_both

abbrev node : RpcApi
node = record { url = text "https://node"; headers = none }

repeated_service_example :
    providers_new counting_map usage
      (RpcServices.custom 1 (node ∷ node ∷ node ∷ []))
      (threshold none 3)
      0
    ≡ returns (ok (record { chain = 1; services = RpcService.custom node ∷ [] }), usage)
repeated_service_example = repeated_service counting_map usage 1 2 0 node (omega arith)

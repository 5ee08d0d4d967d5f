-- ===== src/Tests/Answering.antt =====
-- Results that are combined, requests that are counted and charged, and answers to callers.
use evm_rpc_canister.Ord.Instances.{nat_ord, list_ord, pair_ord}
use evm_rpc_canister.Prelude.{
  ℕ, ◌+◌, ◌≤◌, ◌≡◌, ◌↔◌, ◌⊎◌, refl, Bool, true, false, List, [], ◌∷◌, Option, none, some, Text,
  text, ok, err,
}
use evm_rpc_canister.Prelude.Exec.{returns, has_returned}
use evm_rpc_canister.Numbers.Nat256.{Nat256}
use evm_rpc_canister.Types.Request.{number}
use evm_rpc_canister.Types.Service.{RpcService, EthMainnetService, L2MainnetService}
use evm_rpc_canister.Types.Error.{RpcResult}
use evm_rpc_canister.Types.Error.Derived.{result_partial_eq, error_ord}
use evm_rpc_canister.Types.MultiResult.{consistent, inconsistent, collapse}
use evm_rpc_canister.Types.MultiResult.Agreement.{IsUnanimous, collapse_iff}
use evm_rpc_canister.Providers.Defs.{Provider, SupportedRpcService, to_rpc_service}
use evm_rpc_canister.Providers.Resolve.{
  find_provider, resolve_rpc_service, known, ResolvedRpcService, get_known_chain_id, supported_new,
}
use evm_rpc_canister.Providers.Coherence.{resolve-supported}
use evm_rpc_canister.Metrics.{Metrics}
use evm_rpc_canister.Metrics.Totals.{total}
use evm_rpc_canister.Http.{
  RejectCode, ic_error, not_handled_error, Outcome, response, error, observe_all,
}
use evm_rpc_canister.Http.Recorded.{outcomes, num_counted, observe_all-totals}
use evm_rpc_canister.Client.{EthRpcClient, eth_get_logs, eth_call, call_size}
use evm_rpc_canister.Client.Sizes.{IsAllowed, call_size_iff}
use evm_rpc_canister.CandidRpc.{ReductionError, process_result, check_block_range}
use evm_rpc_canister.CandidRpc.Answers.{check_block_range_iff, process_result-total, num_known}

abbrev ankr : RpcService
ankr = RpcService.eth_mainnet EthMainnetService.ankr

abbrev llama : RpcService
llama = RpcService.eth_mainnet EthMainnetService.llama

abbrev results : List (RpcService × RpcResult ℕ)
results = (ankr, ok 4) ∷ (llama, ok 5) ∷ []

abbrev unanimous : List (RpcService × RpcResult ℕ)
unanimous = (ankr, ok 4) ∷ (llama, ok 4) ∷ []

collapse_iff_example :
    ((collapse (inconsistent unanimous) ≡ consistent (ok 4)) ↔ IsUnanimous (ok 4) unanimous)
    × (((q : RpcResult ℕ) × IsUnanimous q unanimous)
        ⊎ (collapse (inconsistent unanimous) ≡ inconsistent unanimous))
collapse_iff_example = collapse_iff unanimous (ok 4)

resolve-supported_example :
    (p : Provider) × (resolve_rpc_service llama ≡ ok (known p))
    × (p.alias ≡ some (SupportedRpcService.eth_mainnet EthMainnetService.llama))
    × (get_known_chain_id llama ≡ some p.chain_id)
    × (supported_new (RpcService.provider p.provider_id)
        ≡ some (SupportedRpcService.eth_mainnet EthMainnetService.llama))
unfolding to_rpc_service
resolve-supported_example =
    resolve-supported (SupportedRpcService.eth_mainnet EthMainnetService.llama)

abbrev pub no_counters : Metrics
no_counters = record {
  requests = [];
  responses = [];
  inconsistent_responses = [];
  err_http_outcall = [];
  err_max_response_size_exceeded = [];
}

abbrev pub is_fatal : RejectCode → Text → Bool
is_fatal code message = elim code [ RejectCode.sys_fatal ↦ true | _ ↦ false ]

abbrev attempts : List (Outcome is_fatal)
attempts =
    error (ic_error RejectCode.sys_fatal (text "too large"))
    ∷ error (not_handled_error (text "bug"))
    ∷ response 200
    ∷ []

observe_all-totals_example :
    (final : Metrics) × (observe_all is_fatal
        (text "eth_call")
        (some (text "node"))
        attempts
        no_counters
      ≡ returns final)
    × (total final.requests ≡ 3)
    × (outcomes final ≡ 2)
unfolding num_counted
observe_all-totals_example =
    observe_all-totals is_fatal (text "eth_call") (text "node") attempts no_counters

abbrev client : EthRpcClient
client = record {
  providers = record { chain = 1; services = ankr ∷ [] };
  config = record { response_size_estimate = some 4_096; response_consensus = none };
}

call_size_iff_example :
    (has_returned (call_size client eth_get_logs) ≡ true) ↔ IsAllowed (some 4_096)
call_size_iff_example = call_size_iff client eth_get_logs

a_page : call_size client eth_get_logs ≡ returns 4_096
unfolding call_size
a_page = refl

abbrev pub block_100 : Nat256
block_100 = record { nat = 100; fits = refl }

abbrev block_600 : Nat256
block_600 = record { nat = 600; fits = refl }

abbrev pub block_601 : Nat256
block_601 = record { nat = 601; fits = refl }

check_block_range_iff_example :
    (check_block_range (some (number block_100)) (some (number block_600)) 500 ≡ none)
    ↔ ((100 ≤ 600 + 500) × (600 ≤ 100 + 500))
check_block_range_iff_example = check_block_range_iff block_100 block_600 500

abbrev pub no_domain : Text → Option Text
no_domain url = none

process_result-total_example :
    total
      (process_result no_domain eth_call
        (err (ReductionError.inconsistent_results results))
        no_counters).1.inconsistent_responses
    ≡ 2
unfolding num_known process_result resolve_rpc_service evm_rpc_canister.BTree.Map.get
    evm_rpc_canister.Providers.Resolve.service_provider_map
    evm_rpc_canister.Providers.Table.providers evm_rpc_canister.Providers.Defs.supported_ord
    evm_rpc_canister.Ord.Instances.key_ord pair_ord evm_rpc_canister.Types.Service.mainnet_index
    evm_rpc_canister.Providers.Resolve.provider_map evm_rpc_canister.Types.Service.sepolia_index
process_result-total_example =
    process_result-total no_domain eth_call (err (ReductionError.inconsistent_results results))
      no_counters

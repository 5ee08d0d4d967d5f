-- ===== src/Tests/Calling.antt =====
-- A call of one service, from the caller's arguments to the answer.
use mathlib.Core.HLevel.{Discrete}
use native.Mathlib.Decide.{ℕ_discrete}
use evm_rpc_canister.BTree.Set
use evm_rpc_canister.Prelude.{
  ℕ, ◌≡◌, refl, true, false, All, ◌>>=◌, List, [], ◌∷◌, none, some, text, ok, err, Text,
}
use evm_rpc_canister.Prelude.Exec
use evm_rpc_canister.Types.Service.{RpcService, RpcApi, rpc_service_ord}
use evm_rpc_canister.Types.Config.{RpcServices}
use evm_rpc_canister.Types.Response.{LogEntry}
use evm_rpc_canister.JsonRpc.Requests.{GetLogsParam}
use evm_rpc_canister.JsonRpc.Responses as Reply
use evm_rpc_canister.Types.Error.{RpcResult, ProviderError}
use evm_rpc_canister.Types.Error.Derived.{result_partial_eq}
use evm_rpc_canister.Ord.Instances.{nat_ord}
use evm_rpc_canister.Types.MultiResult.{PartialEq, map_results}
use evm_rpc_canister.Memory.{State, initial}
use evm_rpc_canister.Client.{EthRpcClient, client_new, eth_call, consensus_strategy}
use evm_rpc_canister.CandidRpc.{process_result, ReductionError}
use evm_rpc_canister.Calls.{call_services, Network, Request, Call, request_for}
use evm_rpc_canister.Calls.Invalid.{call_services-traps, call_services-hostless}
use evm_rpc_canister.Providers.Resolve.{ResolvedRpcService}
use evm_rpc_canister.Calls.Complete.{IsReady, call_services-returns}
use evm_rpc_canister.Direct.{Outcalls, RawRequest}
use evm_rpc_canister.Endpoints.{Libraries, World, converted_call, endpoint}
use evm_rpc_canister.Endpoints.Answers.{endpoint-answers, call_of}
use evm_rpc_canister.Tests.Libraries.{externals}
use evm_rpc_canister.Tests.Platforms.{platform, hex_library}
use evm_rpc_canister.Tests.Multiples.{multi_results}
use evm_rpc_canister.Tests.Converting.{
  of_discrete, nat256_discrete, u8_discrete, list_discrete, array_discrete,
}
use evm_rpc_canister.Tests.Answering.{no_domain, no_counters}

abbrev libraries : Libraries
libraries = record {
  externals = externals;
  multi = multi_results;
  platform = platform;
  hex = hex_library;
  encode = λ t. [];
  reduce = λ strategy results. err (ReductionError.inconsistent_results []);
  domain_of = no_domain;
  transaction_hash = λ bytes. none;
}

abbrev node : RpcApi
node = record { url = text "https://node"; headers = none }

abbrev node_service : RpcService
node_service = RpcService.custom node

abbrev one_node : RpcServices
one_node = RpcServices.custom 1 (node ∷ [])

-- Every request is valid, and is answered with a number.
abbrev network : Network ℕ ℕ
network = record {
  is_valid = λ url headers. true;
  host = λ url. some (text "node");
  answer = λ s r. ok r.params;
}

abbrev world : World libraries
world = record { state = initial externals; metrics = no_counters }

abbrev one_client : EthRpcClient
one_client = record {
  providers = record { chain = 1; services = node_service ∷ [] };
  config = record { response_size_estimate = none; response_consensus = none };
}

selected :
    client_new externals.usage_map world.state.ok_results one_node none 5
    ≡ Exec.returns (ok one_client, world.state.ok_results)
unfolding client_new evm_rpc_canister.Selection.providers_new Set.from_list
selected = refl

abbrev eth_call_request : Call ℕ
eth_call_request = call_of libraries eth_call 7 2304

abbrev built_request : Request ℕ
built_request = record {
  url = text "https://node";
  headers = [];
  max_response_bytes = 2304;
  transform_name = text "cleanup_response";
  transform_context = [];
  method = text "eth_call";
  params = 7;
}

one_request :
    request_for network world.state eth_call_request node_service ≡ Exec.returns (ok built_request)
unfolding request_for evm_rpc_canister.Access.apply_override initial
    evm_rpc_canister.Endpoints.transform_op
one_request = refl

one-IsReady :
    All (IsReady network multi_results world.state eth_call_request) one_client.providers.services
one-IsReady = ((ok built_request, one_request, (text "node", refl)), tt)

log_discrete : Discrete LogEntry
log_discrete = hlevel (nat256_discrete, list_discrete, array_discrete, u8_discrete, ℕ_discrete)

instance logs_eq : PartialEq (RpcResult (List LogEntry))
logs_eq = of_discrete (hlevel (log_discrete, list_discrete, ℕ_discrete))

-- The requests of `eth_getLogs` and its replies
abbrev log_network : Network (List (GetLogsParam platform)) (List (Reply.LogEntry platform))
log_network = record {
  is_valid = λ url headers. true;
  host = λ url. some (text "node");
  answer = λ s r. ok [];
}

endpoint-answers_example :
    (results : multi_results.MultiResults ℕ) × (final : World libraries) × (endpoint libraries
        (λ c w. converted_call libraries network eth_call 7 (λ n. n) c w world 6)
        one_node
        none
        5
        world
      ≡ Exec.returns (
        map_results
            (λ n. n)
            (process_result no_domain eth_call
              (libraries.reduce (consensus_strategy one_client) results)
              no_counters).0,
        final,
      ))
    × (multi_results.len results ≡ 1)
    × ((s : RpcService) (r : RpcResult (Request ℕ))
        → Set.contains s (node_service ∷ []) ≡ true
        → request_for network world.state eth_call_request s ≡ Exec.returns r
        → multi_results.get s results ≡ some (r >>= λ q. ok q.params))
unfolding evm_rpc_canister.Client.call_size rpc_service_ord evm_rpc_canister.Ord.Instances.key_ord
    evm_rpc_canister.Ord.Instances.pair_ord evm_rpc_canister.Types.Service.api_ord
    evm_rpc_canister.Ord.Instances.list_ord text evm_rpc_canister.Ord.Instances.option_ord
endpoint-answers_example =
    endpoint-answers libraries network eth_call 7 (λ n. n) one_node none 5 world world 6 one_client
      world.state.ok_results 2304 selected refl one-IsReady

call_services-returns_example :
    (results : multi_results.MultiResults ℕ) × (final : State externals) × (call_services network
        multi_results one_client eth_call_request world.state world.state 6
      ≡ Exec.returns (results, final))
    × (multi_results.len results ≡ 1)
    × ((s : RpcService) (r : RpcResult (Request ℕ))
        → Set.contains s (node_service ∷ []) ≡ true
        → request_for network world.state eth_call_request s ≡ Exec.returns r
        → multi_results.get s results ≡ some (r >>= λ q. ok q.params))
unfolding Set.is_distinct rpc_service_ord evm_rpc_canister.Ord.Instances.key_ord
    evm_rpc_canister.Ord.Instances.pair_ord evm_rpc_canister.Types.Service.api_ord
    evm_rpc_canister.Ord.Instances.list_ord text evm_rpc_canister.Ord.Instances.option_ord
call_services-returns_example =
    call_services-returns network multi_results world.state eth_call_request one_client world.state
      6 refl one-IsReady

abbrev no_nodes : RpcServices
no_nodes = RpcServices.custom 1 []

none_selected :
    client_new externals.usage_map world.state.ok_results no_nodes none 5
    ≡ Exec.returns (err ProviderError.provider_not_found, world.state.ok_results)
unfolding client_new evm_rpc_canister.Selection.providers_new Set.from_list
none_selected = refl

-- A network whose library http takes no URL
abbrev no_url : Network ℕ ℕ
no_url = record { is_valid = λ url headers. false; host = λ url. none; answer = λ s r. ok r.params }

call_services-traps_example :
    Exec.has_returned
      (call_services no_url multi_results one_client eth_call_request world.state world.state 6)
    ≡ false
unfolding rpc_service_ord evm_rpc_canister.Ord.Instances.key_ord
    evm_rpc_canister.Ord.Instances.pair_ord evm_rpc_canister.Types.Service.api_ord
    evm_rpc_canister.Ord.Instances.list_ord text evm_rpc_canister.Ord.Instances.option_ord
    evm_rpc_canister.Providers.Resolve.resolve_rpc_service evm_rpc_canister.Access.resolved_api
    evm_rpc_canister.Access.apply_override initial
call_services-traps_example =
    call_services-traps no_url multi_results world.state eth_call_request one_client world.state 6
      node_service (ResolvedRpcService.api node) node refl refl refl refl

-- A network where URLs have no host
abbrev no_host : Network ℕ ℕ
no_host = record { is_valid = λ url headers. true; host = λ url. none; answer = λ s r. ok r.params }

call_services-hostless_example :
    Exec.has_returned
      (call_services no_host multi_results one_client eth_call_request world.state world.state 6)
    ≡ false
unfolding rpc_service_ord evm_rpc_canister.Ord.Instances.key_ord
    evm_rpc_canister.Ord.Instances.pair_ord evm_rpc_canister.Types.Service.api_ord
    evm_rpc_canister.Ord.Instances.list_ord text evm_rpc_canister.Ord.Instances.option_ord
    evm_rpc_canister.Providers.Resolve.resolve_rpc_service evm_rpc_canister.Access.resolved_api
    evm_rpc_canister.Access.apply_override initial request_for Set.is_distinct
call_services-hostless_example =
    call_services-hostless no_host multi_results world.state eth_call_request one_client world.state
      6 node_service (ResolvedRpcService.api node) node refl (refl, tt) refl refl refl refl refl

-- Payloads are texts, and a request costs as many cycles as there are nodes.
abbrev outcalls : Outcalls
outcalls = record {
  Body = Text;
  Value = Text;
  from_str = λ payload. ok payload;
  to_string = λ value. ok value;
  debug = λ value. value;
  invalid = λ url headers. none;
  IcRequest = Text;
  host = λ url. some (text "node");
  build = λ r. ok r.body;
  cost_of_http_request = λ nodes q. nodes;
  outcall = λ q. ok (record { status = 200; value = q });
}

abbrev raw_request : RawRequest Text
raw_request = record {
  url = text "https://node";
  headers = [];
  max_response_bytes = 1_000;
  transform_name = text "__transform_json_rpc";
  transform_context = [];
  body = text "{}";
}

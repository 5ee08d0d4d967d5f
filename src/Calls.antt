-- ===== src/Calls.antt =====
-- `EthRpcClient::parallel_call` of `src/rpc_client/mod.rs`: the requests to the services of a client
-- and the results. `MultiResults` and the parallel calls are canhttp's, the checks of requests
-- and the host of a URL those of the library http: parameters.
pub mod Complete
pub mod Invalid
use evm_rpc_canister.BTree.Map
use evm_rpc_canister.BTree.Set
use evm_rpc_canister.Ord.{◌=?◌}
use evm_rpc_canister.Prelude.{
  ℕ, suc, ◌+◌, ◌==◌, ◌≡◌, Bool, true, false, List, [], ◌∷◌, map, filter_map, Option, none, some,
  Text, text, Result, ok, err, map_err, unwrap_or, if◌then◌else◌, length,
}
use evm_rpc_canister.Prelude.Exec.{Exec, returns, traps, ◌>>=◌, ◌>>◌, has_returned, unwrap_none}
use evm_rpc_canister.Types.Service.{RpcService, RpcApi, HttpHeader, rpc_service_ord}
use evm_rpc_canister.Types.Error.{RpcError, RpcResult, provider_error}
use evm_rpc_canister.Providers.Defs.{SupportedRpcService}
use evm_rpc_canister.Providers.Resolve.{ResolvedRpcService, resolve_rpc_service, supported_new}
use evm_rpc_canister.Memory.{Externals, State, record_ok_result}
use evm_rpc_canister.Access.{resolved_api}
use evm_rpc_canister.Client.{EthRpcClient, RpcMethod, method_name, assert}

-- What is held for a service, split into the results that are values and those that are errors
abbrev pub ok_part : {T : Type 0} → Option (RpcResult T) → Option T
ok_part (some (ok t)) = some t
ok_part (some (err e)) = none
ok_part none = none

abbrev pub err_part : {T : Type 0} → Option (RpcResult T) → Option RpcError
err_part (some (ok t)) = none
err_part (some (err e)) = some e
err_part none = none

-- The results of calls, by the service that was called
abbrev pub joined : {T : Type 0} → Option RpcError → Option (RpcResult T) → Option (RpcResult T)
joined (some e) r = some (err e)
joined none r = r

abbrev pub answered : {I O : Type 0} → (I → RpcResult O) → Option I → Option (RpcResult O)
answered f (some i) = some (f i)
answered f none = none

abbrev pub key : {T : Type 0} → RpcService × T → RpcService
key entry = entry.0

-- `MultiResults` of canhttp with services as keys: `get` is what it holds for a service, in one of its
-- two maps. Inserting under a
-- key that is present panics, so the laws of insertion are about keys that are new.
pub record MultiLib : Type 1 where
  pub MultiResults : Type 0 → Type 0
  pub default : {T : Type 0} → MultiResults T
  pub insert_once : {T : Type 0} → RpcService → RpcResult T → MultiResults T → Exec (MultiResults T)
  pub into_inner :
      {T : Type 0} → MultiResults T → List (RpcService × T) × List (RpcService × RpcError)
  pub add_errors :
      {T : Type 0} → List (RpcService × RpcError) → MultiResults T → Exec (MultiResults T)
  pub ok_results : {T : Type 0} → MultiResults T → List (RpcService × T)
  pub len : {T : Type 0} → MultiResults T → ℕ
  pub get : {T : Type 0} → RpcService → MultiResults T → Option (RpcResult T)
  pub parallel_call :
      {I O : Type 0}
      → (RpcService → I → Exec (RpcResult O))
      → List (RpcService × I)
      → Exec (MultiResults O)
  pub default_get : {T : Type 0} (k : RpcService) → get k (default {T = T}) ≡ none
  pub default_len : {T : Type 0} → len (default {T = T}) ≡ 0
  pub insert_once-new :
      {T : Type 0} (k : RpcService) (r : RpcResult T) (m : MultiResults T)
      → get k m ≡ none
      → (m' : MultiResults T) × (insert_once k r m ≡ returns m')
        × (len m' ≡ suc (len m))
        × ((j : RpcService) → get j m' ≡ (if j =? k then some r else get j m))
  pub into_inner_get :
      {T : Type 0} (m : MultiResults T) (k : RpcService)
      → (Map.get k (into_inner m).0 ≡ ok_part (get k m))
        × (Map.get k (into_inner m).1 ≡ err_part (get k m))
  pub into_inner-distinct :
      {T : Type 0} (m : MultiResults T)
      → (Set.is_distinct (map key (into_inner m).0) ≡ true)
        × (Set.is_distinct (map key (into_inner m).1) ≡ true)
  pub into_inner_len :
      {T : Type 0} (m : MultiResults T) → length (into_inner m).0 + length (into_inner m).1 ≡ len m
  pub add_errors-new :
      {T : Type 0} (errors : List (RpcService × RpcError)) (m : MultiResults T)
      → Set.is_distinct (map key errors) ≡ true
      → ((k : RpcService) (e : RpcError) → Map.get k errors ≡ some e → get k m ≡ none)
      → (m' : MultiResults T) × (add_errors errors m ≡ returns m')
        × (len m' ≡ len m + length errors)
        × ((j : RpcService) → get j m' ≡ joined (Map.get j errors) (get j m))
  pub parallel_call-returns :
      {I O : Type 0} (f : RpcService → I → Exec (RpcResult O)) (g : RpcService → I → RpcResult O)
      (requests : List (RpcService × I))
      → Set.is_distinct (map key requests) ≡ true
      → ((k : RpcService) (i : I) → Map.get k requests ≡ some i → f k i ≡ returns (g k i))
      → (m : MultiResults O) × (parallel_call f requests ≡ returns m)
        × (len m ≡ length requests)
        × ((k : RpcService) → get k m ≡ answered (g k) (Map.get k requests))
  pub parallel_call-traps :
      {I O : Type 0} (f : RpcService → I → Exec (RpcResult O)) (requests : List (RpcService × I))
      (k : RpcService) (i : I)
      → Map.get k requests ≡ some i
      → has_returned (f k i) ≡ false
      → has_returned (parallel_call f requests) ≡ false

-- A request that is built for a service
pub record Request (I : Type 0) : Type 0 where
  pub url : Text
  pub headers : List HttpHeader
  pub max_response_bytes : ℕ
  pub transform_name : Text
  pub transform_context : Text
  pub method : Text
  pub params : I

-- What the replicas and services do: whether the library http takes a URL with headers, the host of a
-- URL that it takes, which a path like `/abc` has not, and the outcome of each request that is made.
pub record Network (I O : Type 0) : Type 0 where
  pub is_valid : Text → List HttpHeader → Bool
  pub host : Text → Option Text
  pub answer : RpcService → Request I → RpcResult O

-- What a call is made with
pub record Call (I : Type 0) : Type 0 where
  pub method : RpcMethod
  pub params : I
  pub transform_op : Text
  pub response_size_estimate : ℕ

-- `ResolvedRpcService::post` with the settings of the call
unfoldable pub request_to : {I : Type 0} → Call I → RpcApi → Request I
unfolding text method_name
request_to call api = record {
  url = api.url;
  headers = unwrap_or api.headers [];
  max_response_bytes = call.response_size_estimate;
  transform_name = text "cleanup_response";
  transform_context = call.transform_op;
  method = method_name call.method;
  params = call.params;
}

module _ {I O : Type 0} (N : Network I O) where
  -- `body` fails where the URL or a header is not valid, which `expect` turns into a panic.
  unfoldable pub post : Call I → RpcApi → Exec (Request I)
  unfolding text request_to
  post call api =
      if N.is_valid api.url (unwrap_or api.headers [])
      then returns (request_to call api)
      else traps (text "BUG: invalid request")

  unfoldable pub posted : Call I → RpcResult RpcApi → Exec (RpcResult (Request I))
  unfolding post
  posted call (err e) = returns (err e)
  posted call (ok api) = do request ← post call api; returns (ok request)

  -- A request to a host: the client of `http_client` first asks for the host of the URL, in
  -- `on_request`, and panics if there is none.
  unfoldable pub to_host : Option Text → RpcService → Request I → Exec (RpcResult O)
  to_host none p request = traps unwrap_none
  to_host (some host) p request = returns (N.answer p request)

  unfoldable pub outcall : RpcService → Request I → Exec (RpcResult O)
  unfolding to_host
  outcall p request = to_host (N.host request.url) p request

module _ {X : Externals} where
  -- `for_each(|service| record_ok_result(service, now))`
  unfoldable pub record_all : List SupportedRpcService → ℕ → State X → State X
  unfolding record_ok_result
  record_all [] now s = s
  record_all (service ∷ services) now s = record_all services now (record_ok_result s service now)

module _ {X : Externals} {I O : Type 0} (N : Network I O) where
  unfoldable pub resolved_request :
      State X → Call I → Result ResolvedRpcService RpcError → Exec (RpcResult (Request I))
  unfolding resolved_api posted
  resolved_request s call (err e) = returns (err e)
  resolved_request s call (ok service) = do
    api ← resolved_api s service s.override_provider
    posted N call api

  -- The request for one service, or the error in its place
  unfoldable pub request_for : State X → Call I → RpcService → Exec (RpcResult (Request I))
  unfolding resolved_request resolve_rpc_service
  request_for s call p = resolved_request s call (map_err provider_error (resolve_rpc_service p))

  module _ (M : MultiLib) where
    open M use {
      MultiResults, default, insert_once, into_inner, add_errors, ok_results, len, parallel_call,
    }

    -- The loop over the providers
    unfoldable pub insert_requests :
        State X
        → Call I
        → List RpcService
        → MultiResults (Request I)
        → Exec (MultiResults (Request I))
    unfolding request_for
    insert_requests s call [] requests = returns requests
    insert_requests s call (p ∷ providers) requests = do
      request ← request_for s call p
      requests' ← insert_once p request requests
      insert_requests s call providers requests'

    -- After the services have answered; `s` is the state at that time.
    unfoldable pub collected :
        ℕ
        → List (RpcService × RpcError)
        → ℕ
        → State X
        → MultiResults O
        → Exec (MultiResults O × State X)
    unfolding record_all supported_new assert text
    collected num_providers errors now s results = do
      results' ← add_errors errors results
      assert (len results' == num_providers) (text "BUG: expected 1 result per provider")
      returns (
        results',
        record_all (filter_map supported_new (map (λ r. r.0) (ok_results results'))) now s,
      )

    -- `EthRpcClient::parallel_call`: `later` is the state that the messages in between leave.
    unfoldable pub call_services :
        EthRpcClient → Call I → State X → State X → ℕ → Exec (MultiResults O × State X)
    unfolding insert_requests outcall collected
    call_services client call s later now =
        let providers = client.providers.services in
        do
          requests ← insert_requests s call providers default
          results ← parallel_call (outcall N) (into_inner requests).0
          collected (length providers) (into_inner requests).1 now later results

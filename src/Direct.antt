-- ===== src/Direct.antt =====
-- `request` and `requestCost` of `src/main.rs`, with `json_rpc_request_arg` and `json_rpc_request` of
-- `src/http.rs`: a JSON-RPC payload that is sent to one service as it is, and what that costs. JSON,
-- the checks of the library http, the layers that turn a request into bytes, the cost of an outcall
-- and the outcall are parameters.
pub mod Cost
pub mod Transform
use evm_rpc_canister.Prelude.{
  ℕ, ◌++◌, Bool, List, [], Option, none, some, Text, text, Result, ok, err, map_err, unwrap_or,
  if◌then◌else◌,
}
use evm_rpc_canister.Prelude.Exec.{Exec, returns, traps, unwrap_none, ◌>>=◌}
use evm_rpc_canister.Types.Service.{RpcService, RpcApi, HttpHeader}
use evm_rpc_canister.Types.Error.{
  RpcError, RpcResult, provider_error, validation_error, ValidationError, http_outcall_error,
  HttpOutcallError,
}
use evm_rpc_canister.Providers.Resolve.{ResolvedRpcService, resolve_rpc_service}
use evm_rpc_canister.Memory.{Externals, State}
use evm_rpc_canister.Access.{resolved_api}
use evm_rpc_canister.Http.{charging_policy_default, cycles_to_charge}

-- A request with a JSON-RPC body
pub record RawRequest (Body : Type 0) : Type 0 where
  pub url : Text
  pub headers : List HttpHeader
  pub max_response_bytes : ℕ
  pub transform_name : Text
  pub transform_context : Text
  pub body : Body

-- A reply with its status
pub record RawReply (Value : Type 0) : Type 0 where
  pub status : ℕ
  pub value : Value

-- serde's reader and writer, with its errors as texts; the error of the library http for a URL with
-- headers, if it does not take them, and the host of a URL; the layers of `service_request_builder`,
-- which fail where a header that http takes is no text of the management canister, with the error as
-- text; canhttp's estimate of the cycles for a request on a number of nodes; and what the client of
-- HTTP outcalls gives.
pub record Outcalls : Type 1 where
  pub Body : Type 0
  pub Value : Type 0
  pub IcRequest : Type 0
  pub from_str : Text → Result Body Text
  pub to_string : Value → Result Text Text
  pub debug : Value → Text
  pub invalid : Text → List HttpHeader → Option Text
  pub host : Text → Option Text
  pub build : RawRequest Body → Result IcRequest Text
  pub cost_of_http_request : ℕ → IcRequest → ℕ
  pub outcall : IcRequest → RpcResult (RawReply Value)

module _ (C : Outcalls) where
  open C use {Body, Value, IcRequest}

  -- `.body(body).map_err(..)` on the builder
  unfoldable pub raw_body : Body → ℕ → RpcApi → RpcResult (RawRequest Body)
  unfolding text
  raw_body body max_response_bytes api =
      let headers = unwrap_or api.headers [] in
      elim (C.invalid api.url headers) [
        | some e ↦ err (validation_error (ValidationError.custom (text "Invalid request: " ++ e)))
        | none ↦ ok (record {
          url = api.url;
          headers = headers;
          max_response_bytes = max_response_bytes;
          transform_name = text "__transform_json_rpc";
          transform_context = [];
          body = body;
        })
      ]

  unfoldable pub with_api : ℕ → Body → RpcResult RpcApi → RpcResult (RawRequest Body)
  unfolding raw_body
  with_api max_response_bytes body (err e) = err e
  with_api max_response_bytes body (ok api) = raw_body body max_response_bytes api

  -- `serde_json::to_string(response.body())`
  unfoldable pub written : RpcResult (RawReply Value) → RpcResult Text
  written (err e) = err e
  written (ok reply) =
      map_err
        (λ e. http_outcall_error (
          HttpOutcallError.invalid_http_json_rpc_response reply.status (C.debug reply.value)
            (some e)))
        (C.to_string reply.value)

  -- The request that is made of one to a service; the errors of the layers become, through
  -- `NotHandledError`, errors of validation.
  unfoldable pub prepared : RawRequest Body → RpcResult IcRequest
  prepared r = map_err (λ e. validation_error (ValidationError.custom e)) (C.build r)

  unfoldable pub sent : RpcResult IcRequest → RpcResult (RawReply Value)
  sent (err e) = err e
  sent (ok q) = C.outcall q

  -- `http_client(..).call(request)`, where `on_request` first unwraps the host of the URL
  unfoldable pub call_host : Option Text → RawRequest Body → Exec (RpcResult (RawReply Value))
  unfolding prepared sent
  call_host none r = traps unwrap_none
  call_host (some host) r = returns (sent (prepared r))

  unfoldable pub answer_to : RpcResult (RawRequest Body) → Exec (RpcResult Text)
  unfolding written call_host
  answer_to (err e) = returns (err e)
  answer_to (ok r) = do reply ← call_host (C.host r.url) r; returns (written reply)

module _ {X : Externals} (C : Outcalls) where
  open C use {Body}

  unfoldable pub with_body :
      State X → ResolvedRpcService → ℕ → Result Body Text → Exec (RpcResult (RawRequest Body))
  unfolding text resolved_api with_api
  with_body s service max_response_bytes (err e) =
      returns
        (err (validation_error (ValidationError.custom (text "Invalid JSON RPC request: " ++ e))))
  with_body s service max_response_bytes (ok body) = do
    api ← resolved_api s service s.override_provider
    returns (with_api C max_response_bytes body api)

  unfoldable pub json_rpc_request_arg :
      State X → ResolvedRpcService → Text → ℕ → Exec (RpcResult (RawRequest Body))
  unfolding with_body
  json_rpc_request_arg s service json_rpc_payload max_response_bytes =
      with_body s service max_response_bytes (C.from_str json_rpc_payload)

  -- `json_rpc_request_arg(resolve_rpc_service(service)?, ..)`
  unfoldable pub resolved_arg :
      State X → Text → ℕ → Result ResolvedRpcService RpcError → Exec (RpcResult (RawRequest Body))
  unfolding json_rpc_request_arg
  resolved_arg s json_rpc_payload max_response_bytes (err e) = returns (err e)
  resolved_arg s json_rpc_payload max_response_bytes (ok service) =
      json_rpc_request_arg s service json_rpc_payload max_response_bytes

  unfoldable pub service_arg : State X → RpcService → Text → ℕ → Exec (RpcResult (RawRequest Body))
  unfolding resolved_arg resolve_rpc_service
  service_arg s service json_rpc_payload max_response_bytes =
      resolved_arg s json_rpc_payload max_response_bytes
        (map_err provider_error (resolve_rpc_service service))

  -- `request`
  unfoldable pub request : State X → RpcService → Text → ℕ → Exec (RpcResult Text)
  unfolding service_arg answer_to
  request s service json_rpc_payload max_response_bytes = do
    arg ← service_arg s service json_rpc_payload max_response_bytes
    answer_to C arg

  -- The layers that build the request, with the `expect` on them, and the price of what they give
  unfoldable pub price_of : State X → Result C.IcRequest Text → Exec (RpcResult ℕ)
  unfolding charging_policy_default cycles_to_charge text
  price_of s (err e) = traps (text "Error: invalid request: " ++ e)
  price_of s (ok q) = returns (
      ok (
        cycles_to_charge (charging_policy_default s) (C.cost_of_http_request s.num_subnet_nodes q)))

  unfoldable pub cost_of : State X → RpcResult (RawRequest Body) → Exec (RpcResult ℕ)
  unfolding price_of
  cost_of s (err e) = returns (err e)
  cost_of s (ok r) = price_of s (C.build r)

  -- `requestCost`
  unfoldable pub request_cost : State X → RpcService → Text → ℕ → Exec (RpcResult ℕ)
  unfolding service_arg cost_of
  request_cost s service json_rpc_payload max_response_bytes =
      let priced = do arg ← service_arg s service json_rpc_payload max_response_bytes; cost_of s arg
      in if s.is_demo_active then returns (ok 0) else priced

-- ===== src/Http.antt =====
-- `src/http.rs`: the errors of HTTP outcalls, what the canister records of a request, and what it
-- charges for it.
pub mod Recorded
pub mod Attempts
pub mod Charges
pub mod Layers
use evm_rpc_canister.Ord.Instances.{nat_ord, pair_ord, list_ord}
use evm_rpc_canister.Prelude.{
  ℕ, ◌+◌, ◌*◌, Bool, true, false, not, List, [], ◌∷◌, Option, none, some, Text, ltb, if◌then◌else◌,
}
use evm_rpc_canister.Prelude.Exec.{Exec, returns, traps, unwrap_none, ◌>>=◌}
use evm_rpc_canister.Constants.{collateral_cycles_per_node}
use evm_rpc_canister.Types.Error.{
  LegacyRejectionCode, RpcError, http_outcall_error, validation_error, provider_error,
  HttpOutcallError, ProviderError, ValidationError,
}
use evm_rpc_canister.Memory.{Externals, State}
use evm_rpc_canister.Types.Error.Derived.{rejection_index}
use evm_rpc_canister.Metrics.{Metrics, add_metric_entry}
use evm_rpc_canister.Logs.{Priority, info, trace_http}

-- `RejectCode` of ic_error_types, by the variants that the code matches on.
pub data RejectCode : Type 0 where
  sys_fatal sys_transient destination_invalid canister_reject canister_error sys_unknown :
      RejectCode

-- `From<RejectCode> for LegacyRejectionCode`
unfoldable pub legacy_code : RejectCode → LegacyRejectionCode
legacy_code RejectCode.sys_fatal = LegacyRejectionCode.sys_fatal
legacy_code RejectCode.sys_transient = LegacyRejectionCode.sys_transient
legacy_code RejectCode.destination_invalid = LegacyRejectionCode.destination_invalid
legacy_code RejectCode.canister_reject = LegacyRejectionCode.canister_reject
legacy_code RejectCode.canister_error = LegacyRejectionCode.canister_error
legacy_code RejectCode.sys_unknown = LegacyRejectionCode.unknown

-- The errors of the layers, by the fields that the code reads; an error that is only shown is the
-- text that it is shown as.
pub data HttpClientError : Type 0 where
  ic_error : RejectCode → Text → HttpClientError
  not_handled_error : Text → HttpClientError
  -- expected and received cycles
  cycles_accounting_error : ℕ → ℕ → HttpClientError
  -- status and body
  unsuccessful_http_response : ℕ → Text → HttpClientError
  -- status, body and parsing error
  invalid_json_response : ℕ → Text → Text → HttpClientError
  -- status, and the error as text
  invalid_json_response_id : ℕ → Text → HttpClientError

-- `From<HttpClientError> for RpcError`; `from_utf8_lossy` reads the bytes of a body as text.
unfoldable pub rpc_error_from : (Text → Text) → HttpClientError → RpcError
unfolding legacy_code
rpc_error_from from_utf8_lossy (ic_error code message) =
    http_outcall_error (HttpOutcallError.ic_error (legacy_code code) message)
rpc_error_from from_utf8_lossy (not_handled_error e) = validation_error (ValidationError.custom e)
rpc_error_from from_utf8_lossy (cycles_accounting_error expected received) =
    provider_error (ProviderError.too_few_cycles expected received)
rpc_error_from from_utf8_lossy (unsuccessful_http_response status body) =
    http_outcall_error
      (HttpOutcallError.invalid_http_json_rpc_response status (from_utf8_lossy body) none)
rpc_error_from from_utf8_lossy (invalid_json_response status body parsing_error) =
    http_outcall_error
      (HttpOutcallError.invalid_http_json_rpc_response status body (some parsing_error))
rpc_error_from from_utf8_lossy (invalid_json_response_id status e) =
    validation_error (ValidationError.custom e)

-- `IcError::is_response_too_large` of canhttp is a parameter.
module _ (ic_error_is_too_large : RejectCode → Text → Bool) where
  unfoldable pub is_response_too_large : HttpClientError → Bool
  is_response_too_large (ic_error code message) = ic_error_is_too_large code message
  is_response_too_large _ = false

  unfoldable pub count_request : Text → Text → Metrics → Metrics
  unfolding add_metric_entry
  count_request method host m = record m { requests = add_metric_entry (method, host) 1 m.requests }

  -- `on_request`, by the host of the URI, which is unwrapped: the host that is kept for the outcome,
  -- and the counters
  unfoldable pub on_request : Text → Option Text → Metrics → Exec (Text × Metrics)
  unfolding count_request
  on_request method none m = traps unwrap_none
  on_request method (some host) m = returns (host, count_request method host m)

  unfoldable pub observe_response : Text → Text → ℕ → Metrics → Metrics
  unfolding add_metric_entry
  observe_response method host status m = record m {
    responses = add_metric_entry (method, (host, status)) 1 m.responses;
  }

  unfoldable pub on_error : Text → Text → HttpClientError → Metrics → Metrics
  unfolding is_response_too_large observe_response add_metric_entry rejection_index legacy_code
  on_error method host (ic_error code message) m =
      if is_response_too_large (ic_error code message)
      then record m {
        err_max_response_size_exceeded =
            add_metric_entry (method, host) 1 m.err_max_response_size_exceeded;
      }
      else record m {
        err_http_outcall =
            add_metric_entry (method, (host, rejection_index (legacy_code code))) 1
              m.err_http_outcall;
      }
  on_error method host (unsuccessful_http_response status body) m =
      observe_response method host status m
  on_error method host (invalid_json_response status body parsing_error) m =
      observe_response method host status m
  on_error method host (invalid_json_response_id status e) m = observe_response method host status m
  on_error method host (not_handled_error e) m = m
  on_error method host (cycles_accounting_error expected received) m = m

  -- The priority at which `on_error` logs an error, if it does
  unfoldable pub error_priority : HttpClientError → Option Priority
  unfolding is_response_too_large
  error_priority (ic_error code message) =
      if is_response_too_large (ic_error code message) then none else some trace_http
  error_priority (unsuccessful_http_response status body) = some trace_http
  error_priority (invalid_json_response status body parsing_error) = some trace_http
  error_priority (invalid_json_response_id status e) = some trace_http
  error_priority (not_handled_error e) = some info
  error_priority (cycles_accounting_error expected received) = none

  -- How an attempt at a request ends: with the status of a response, or with an error.
  pub data Outcome : Type 0 where
    response : ℕ → Outcome
    error : HttpClientError → Outcome

  unfoldable pub on_outcome : Text → Text → Outcome → Metrics → Metrics
  unfolding observe_response on_error
  on_outcome method host (response status) m = observe_response method host status m
  on_outcome method host (error e) m = on_error method host e m

  -- The attempts at a request, each of which passes through the observability layer.
  unfoldable pub observe_all : Text → Option Text → List Outcome → Metrics → Exec Metrics
  unfolding on_request on_outcome
  observe_all method uri_host [] m = returns m
  observe_all method uri_host (o ∷ os) m = do
    begun ← on_request method uri_host m
    observe_all method uri_host os (on_outcome method begun.0 o begun.1)

-- The largest `u128`.
abbrev pub u128_max : ℕ
u128_max = 340282366920938463463374607431768211455

-- `u128::saturating_add` and `u128::saturating_mul`
abbrev pub saturate : ℕ → ℕ
saturate n = if ltb u128_max n then u128_max else n

pub record ChargingPolicyWithCollateral : Type 0 where
  pub charge_user : Bool
  pub collateral_cycles : ℕ

unfoldable pub charging_policy_new : ℕ → Bool → ℕ → ChargingPolicyWithCollateral
charging_policy_new num_nodes_in_subnet charge_user collateral_cycles_per_node = record {
  charge_user = charge_user;
  collateral_cycles = saturate (collateral_cycles_per_node * num_nodes_in_subnet);
}

-- `ChargingPolicyWithCollateral::default`
unfoldable pub charging_policy_default : {X : Externals} → State X → ChargingPolicyWithCollateral
unfolding charging_policy_new
charging_policy_default s =
    charging_policy_new s.num_subnet_nodes (not s.is_demo_active) collateral_cycles_per_node

unfoldable pub cycles_to_charge : ChargingPolicyWithCollateral → ℕ → ℕ
cycles_to_charge policy attached_cycles =
    if policy.charge_user then saturate (attached_cycles + policy.collateral_cycles) else 0

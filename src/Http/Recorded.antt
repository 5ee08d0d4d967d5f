-- ===== src/Http/Recorded.antt =====
-- The requests and outcomes that the observability layer of `src/http.rs` counts.
use evm_rpc_canister.Ord.Instances.{nat_ord, pair_ord, list_ord}
use evm_rpc_canister.Prelude.{
  ℕ, ◌+◌, ◌%◌, ◌≡◌, Bool, true, false, List, [], ◌∷◌, Text, length, if◌then◌else◌, arith,
  Bool-cases, inl, inr, refl, some,
}
use evm_rpc_canister.Prelude.Exec.{returns}
use evm_rpc_canister.Types.Error.Derived.{rejection_index}
use evm_rpc_canister.Metrics.{Metrics, u64_bound}
use evm_rpc_canister.Metrics.Totals.{total, total-add_metric_entry}
use evm_rpc_canister.Http.{
  RejectCode, ic_error, not_handled_error, cycles_accounting_error, unsuccessful_http_response,
  invalid_json_response, invalid_json_response_id, legacy_code, is_response_too_large, on_request,
  count_request, observe_response, on_error, Outcome, response, error, on_outcome, observe_all,
}

-- All outcomes that were counted, modulo 2 ^ 64 as the counters are.
abbrev pub outcomes : Metrics → ℕ
outcomes m =
    (total m.responses + total m.err_http_outcall + total m.err_max_response_size_exceeded)
    % u64_bound

module _ (ic_error_is_too_large : RejectCode → Text → Bool) where
  -- The outcomes of which there is a counter: all but internal errors and missing cycles.
  unfoldable pub is_counted : Outcome ic_error_is_too_large → Bool
  is_counted (error (not_handled_error e)) = false
  is_counted (error (cycles_accounting_error expected received)) = false
  is_counted _ = true

  unfoldable pub num_counted : List (Outcome ic_error_is_too_large) → ℕ
  unfolding is_counted
  num_counted [] = 0
  num_counted (o ∷ os) = let n = num_counted os in if is_counted o then 1 + n else n

  outcomes-observe_response :
      (method host : Text) (status : ℕ) (m : Metrics)
      → outcomes (observe_response ic_error_is_too_large method host status m)
        ≡ (outcomes m + 1) % u64_bound
  unfolding observe_response
  outcomes-observe_response method host status m =
      ground (arith, total-add_metric_entry (method, (host, status)) 1 m.responses)

  outcomes-ic_error :
      (method host message : Text) (code : RejectCode) (m : Metrics)
      → outcomes (on_error ic_error_is_too_large method host (ic_error code message) m)
        ≡ (outcomes m + 1) % u64_bound
  unfolding on_error is_response_too_large
  outcomes-ic_error method host message code m =
      elim (Bool-cases (ic_error_is_too_large code message)) [
        | inl e ↦
            ground
              (arith, e, total-add_metric_entry (method, host) 1 m.err_max_response_size_exceeded)
        | inr e ↦ ground (
          arith,
          e,
          total-add_metric_entry (method, (host, rejection_index (legacy_code code))) 1
              m.err_http_outcall,
        )
      ]

  outcomes-on_outcome :
      (method host : Text) (o : Outcome ic_error_is_too_large) (m : Metrics)
      → outcomes (on_outcome ic_error_is_too_large method host o m)
        ≡ (outcomes m + (if is_counted o then 1 else 0)) % u64_bound
  unfolding on_outcome is_counted on_error
  outcomes-on_outcome method host (response status) m =
      outcomes-observe_response method host status m
  outcomes-on_outcome method host (error (ic_error code message)) m =
      outcomes-ic_error method host message code m
  outcomes-on_outcome method host (error (unsuccessful_http_response status body)) m =
      outcomes-observe_response method host status m
  outcomes-on_outcome method host (error (invalid_json_response status body e)) m =
      outcomes-observe_response method host status m
  outcomes-on_outcome method host (error (invalid_json_response_id status e)) m =
      outcomes-observe_response method host status m
  outcomes-on_outcome method host (error (not_handled_error e)) m = omega arith
  outcomes-on_outcome method host (error (cycles_accounting_error x y)) m = omega arith

  requests-on_outcome :
      (method host : Text) (o : Outcome ic_error_is_too_large) (m : Metrics)
      → (on_outcome ic_error_is_too_large method host o m).requests ≡ m.requests
  unfolding on_outcome on_error observe_response
  requests-on_outcome method host o m = ground arith

  -- Where the URI of a request has a host, observing the attempts at it returns, and every attempt is
  -- counted as a request, and once more by how it ended: the total of the requests grows by the number
  -- of attempts, and the total over responses, errors of outcalls and responses that were too large by
  -- the number of attempts that did not end in an internal error or for lack of cycles. All totals are
  -- modulo 2 ^ 64, as the counters are.
  pub observe_all-totals :
      (method host : Text) (os : List (Outcome ic_error_is_too_large)) (m : Metrics)
      → (final : Metrics) × (observe_all ic_error_is_too_large method (some host) os m
          ≡ returns final)
        × (total final.requests ≡ (total m.requests + length os) % u64_bound)
        × (outcomes final ≡ (outcomes m + num_counted os) % u64_bound)
  unfolding observe_all num_counted on_request count_request
  observe_all-totals method host [] m = (m, refl, omega arith, omega arith)
  observe_all-totals method host (o ∷ os) m =
      let m₁ = count_request ic_error_is_too_large method host m in
      let m₂ = on_outcome ic_error_is_too_large method host o m₁ in
      let (final, rest, requests, ended) = observe_all-totals method host os m₂ in
      (
        final,
        rest,
        ground (
          arith,
          requests,
          total-add_metric_entry (method, host) 1 m.requests,
          requests-on_outcome method host o m₁,
        ),
        ground (arith, ended, outcomes-on_outcome method host o m₁),
      )

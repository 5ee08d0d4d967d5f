-- ===== src/Direct/Cost.antt =====
-- `requestCost` agrees with `request` (`src/main.rs`).
use evm_rpc_canister.Prelude.{
  ℕ, ◌+◌, ◌*◌, ◌≡◌, refl, ap, ◌∙◌, none, some, false, Text, ok, err, ◌>>=◌, if◌then◌else◌,
}
use evm_rpc_canister.Prelude.Exec
use evm_rpc_canister.Types.Service.{RpcService}
use evm_rpc_canister.Types.Error.{RpcResult, validation_error, ValidationError}
use evm_rpc_canister.Memory.{Externals, State}
use evm_rpc_canister.Direct.{
  Outcalls, RawRequest, service_arg, written, answer_to, request, cost_of, request_cost, price_of,
  prepared, call_host, sent,
}

module _ {X : Externals} (C : Outcalls) (s : State X) where
  -- What a request costs: the estimate for it, and the collateral of each node
  abbrev pub charge : C.IcRequest → ℕ
  charge q = C.cost_of_http_request s.num_subnet_nodes q + 10_000_000 * s.num_subnet_nodes

  -- The URL of a request has a host, and the layers can build the request.
  abbrev pub IsSendable : RpcResult (RawRequest C.Body) → Type 0
  IsSendable (err e) = Unit
  IsSendable (ok r) =
      (host : Text) × (C.host r.url ≡ some host) × (q : C.IcRequest) × (C.build r ≡ ok q)

  abbrev priced_arg : Exec.Exec (RpcResult (RawRequest C.Body)) → Exec.Exec (RpcResult ℕ)
  priced_arg arg = Exec.◌>>=◌ arg (cost_of C s)

  cost-priced :
      (service : RpcService) (json_rpc_payload : Text) (max_response_bytes : ℕ)
      (a : RpcResult (RawRequest C.Body))
      → s.is_demo_active ≡ false
      → service_arg C s service json_rpc_payload max_response_bytes ≡ Exec.returns a
      → request_cost C s service json_rpc_payload max_response_bytes ≡ cost_of C s a
  unfolding request_cost
  cost-priced service json_rpc_payload max_response_bytes a d h =
      let arg = service_arg C s service json_rpc_payload max_response_bytes in
      ap (λ demo. if demo then Exec.returns (ok 0) else priced_arg arg) d ∙ ap priced_arg h

  -- Where the URL of a request has a host but the layers cannot build the request, `request` answers
  -- with their error, and its price is not that error: `requestCost` traps.
  pub request_cost-unbuildable :
      (service : RpcService) (json_rpc_payload e host : Text) (max_response_bytes : ℕ)
      (r : RawRequest C.Body)
      → s.is_demo_active ≡ false
      → service_arg C s service json_rpc_payload max_response_bytes ≡ Exec.returns (ok r)
      → C.host r.url ≡ some host
      → C.build r ≡ err e
      → (Exec.has_returned (request_cost C s service json_rpc_payload max_response_bytes) ≡ false)
        × (request C s service json_rpc_payload max_response_bytes
            ≡ Exec.returns (err (validation_error (ValidationError.custom e))))
  unfolding request cost_of price_of answer_to call_host prepared sent written
  request_cost-unbuildable service json_rpc_payload e host max_response_bytes r d h known failed = (
    rw (cost-priced service json_rpc_payload max_response_bytes (ok r) d h) (rw failed refl),
    rw h (rw known (rw failed refl)),
  )

  -- A request to a URL without a host traps.
  pub request-hostless :
      (service : RpcService) (json_rpc_payload : Text) (max_response_bytes : ℕ)
      (r : RawRequest C.Body)
      → service_arg C s service json_rpc_payload max_response_bytes ≡ Exec.returns (ok r)
      → C.host r.url ≡ none
      → Exec.has_returned (request C s service json_rpc_payload max_response_bytes) ≡ false
  unfolding request answer_to call_host
  request-hostless service json_rpc_payload max_response_bytes r h known = rw h (rw known refl)

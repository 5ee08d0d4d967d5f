-- ===== src/Http/Layers.antt =====
-- One attempt at a request in `http_client` of `src/http.rs`: the layers below the one that counts,
-- which are those of canhttp and tower_http and a parameter, in the order of the code, with its
-- conversions of their errors.
use evm_rpc_canister.Ord.Instances.{nat_ord, pair_ord, list_ord}
use evm_rpc_canister.Prelude.{
  ℕ, ◌≡◌, ◌∙◌, refl, ap, Bool, Text, text, Result, ok, err, ◌>>=◌, map_err,
}
use evm_rpc_canister.Types.Error.{provider_error, ProviderError}
use evm_rpc_canister.Memory.{Externals, State}
use evm_rpc_canister.Metrics.{Metrics}
use evm_rpc_canister.Http.{
  RejectCode, HttpClientError, ic_error, not_handled_error, cycles_accounting_error,
  unsuccessful_http_response, invalid_json_response, invalid_json_response_id, rpc_error_from,
  observe_response, on_error, Outcome, response, error, on_outcome, charging_policy_default,
  cycles_to_charge,
}

-- `CONTENT_TYPE_HEADER_LOWERCASE` and `CONTENT_TYPE_VALUE` of `src/constants.rs`; the former is the
-- text of `http::header::CONTENT_TYPE` too.
unfoldable pub content_type : Text
content_type = text "content-type"

unfoldable pub content_type_value : Text
content_type_value = text "application/json"

-- The status of what a layer gives on, or of its error
unfoldable pub status_of : {A E : Type 0} → (A → ℕ) → (E → ℕ) → Result A E → ℕ
status_of of_value of_error (ok a) = of_value a
status_of of_value of_error (err e) = of_error e

-- The layers. Errors that are only shown are texts, the others have the fields that the code reads.
pub record Layers : Type 1 where
  pub JsonRpcRequest : Type 0
  pub HttpRequest : Type 0
  pub IcRequest : Type 0
  pub IcResponse : Type 0
  pub HttpResponse : Type 0
  pub JsonRpcResponse : Type 0
  pub insert_header_if_not_present : Text → Text → JsonRpcRequest → JsonRpcRequest
  pub convert_json_request : JsonRpcRequest → Result HttpRequest Text
  pub convert_http_request : HttpRequest → Result IcRequest Text
  -- `CyclesAccounting`, for a number of nodes and a policy; its error has the expected and received
  -- cycles.
  pub cycles_accounting : ℕ → (ℕ → ℕ) → IcRequest → Result IcRequest (ℕ × ℕ)
  pub outcall : IcRequest → Result IcResponse (RejectCode × Text)
  pub convert_http_response : IcResponse → Result HttpResponse Text
  pub filter_non_successful : HttpResponse → Result HttpResponse (ℕ × Text)
  pub convert_json_response : HttpResponse → Result JsonRpcResponse (ℕ × (Text × Text))
  pub filter_id : JsonRpcRequest → JsonRpcResponse → Result JsonRpcResponse (ℕ × Text)
  pub http_status : HttpResponse → ℕ
  pub json_status : JsonRpcResponse → ℕ
  -- A layer keeps the status of a response, and its error tells it.
  pub filter_non_successful-status :
      (r : HttpResponse)
      → status_of http_status (λ e. e.0) (filter_non_successful r) ≡ http_status r
  pub convert_json_response-status :
      (r : HttpResponse)
      → status_of json_status (λ e. e.0) (convert_json_response r) ≡ http_status r
  pub filter_id-status :
      (q : JsonRpcRequest) (r : JsonRpcResponse)
      → status_of json_status (λ e. e.0) (filter_id q r) ≡ json_status r

-- `From` for HttpClientError, of the error of each layer
unfoldable pub ic_error_from : RejectCode × Text → HttpClientError
ic_error_from e = ic_error e.0 e.1

unfoldable pub http_response_error : Text → HttpClientError
http_response_error e = not_handled_error e

unfoldable pub filter_error : ℕ × Text → HttpClientError
filter_error e = unsuccessful_http_response e.0 e.1

unfoldable pub json_response_error : ℕ × (Text × Text) → HttpClientError
json_response_error e = invalid_json_response e.0 e.1.0 e.1.1

unfoldable pub cycles_error : ℕ × ℕ → HttpClientError
cycles_error e = cycles_accounting_error e.0 e.1

unfoldable pub http_request_error : Text → HttpClientError
http_request_error e = not_handled_error e

unfoldable pub json_request_error : Text → HttpClientError
json_request_error e = not_handled_error e

unfoldable pub response_id_error : ℕ × Text → HttpClientError
response_id_error e = invalid_json_response_id e.0 e.1

module _ (L : Layers) where
  unfoldable pub service_request_builder : L.JsonRpcRequest → Result L.IcRequest HttpClientError
  unfolding content_type content_type_value json_request_error http_request_error
  service_request_builder request =
      map_err json_request_error (
        L.convert_json_request
          (L.insert_header_if_not_present content_type content_type_value request))
      >>= λ r. map_err http_request_error (L.convert_http_request r)

  -- What `http_client` does with a reply to the canister's request
  unfoldable pub read_response :
      L.JsonRpcRequest → L.HttpResponse → Result L.JsonRpcResponse HttpClientError
  unfolding filter_error json_response_error response_id_error
  read_response request reply =
      (map_err filter_error (L.filter_non_successful reply) >>= λ r.
      map_err json_response_error (L.convert_json_response r))
      >>= λ r. map_err response_id_error (L.filter_id request r)

  -- One pass through the layers below the one that counts
  unfoldable pub attempt :
      {X : Externals} → State X → L.JsonRpcRequest → Result L.JsonRpcResponse HttpClientError
  unfolding service_request_builder read_response cycles_error ic_error_from http_response_error
      charging_policy_default cycles_to_charge
  attempt s request = service_request_builder request >>= λ built.
      map_err cycles_error (
        L.cycles_accounting s.num_subnet_nodes (cycles_to_charge (charging_policy_default s)) built)
      >>= λ paid. map_err ic_error_from (L.outcall paid) >>= λ reply.
          map_err http_response_error (L.convert_http_response reply) >>= read_response request

  module _ (ic_error_is_too_large : RejectCode → Text → Bool) where
    -- What the layer that counts sees of an attempt
    abbrev pub outcome_of : Result L.JsonRpcResponse HttpClientError → Outcome ic_error_is_too_large
    outcome_of (ok r) = response (L.json_status r)
    outcome_of (err e) = error e

    checked :
        (method host : Text) (m : Metrics) (status : ℕ) (o : Result L.JsonRpcResponse (ℕ × Text))
        → status_of L.json_status (λ e. e.0) o ≡ status
        → on_outcome ic_error_is_too_large method host (outcome_of (map_err response_id_error o)) m
          ≡ observe_response ic_error_is_too_large method host status m
    unfolding status_of response_id_error on_outcome on_error
    checked method host m status (ok r) e =
        ap (λ n. observe_response ic_error_is_too_large method host n m) e
    checked method host m status (err f) e =
        ap (λ n. observe_response ic_error_is_too_large method host n m) e

    parsed :
        (method host : Text) (m : Metrics) (request : L.JsonRpcRequest) (status : ℕ)
        (o : Result L.JsonRpcResponse (ℕ × (Text × Text)))
        → status_of L.json_status (λ e. e.0) o ≡ status
        → on_outcome ic_error_is_too_large method host
            (outcome_of (
              map_err json_response_error o >>= λ r.
              map_err response_id_error (L.filter_id request r)))
            m
          ≡ observe_response ic_error_is_too_large method host status m
    unfolding status_of json_response_error on_outcome on_error
    parsed method host m request status (ok r) e =
        checked method host m status (L.filter_id request r) (L.filter_id-status request r ∙ e)
    parsed method host m request status (err f) e =
        ap (λ n. observe_response ic_error_is_too_large method host n m) e

    passed :
        (method host : Text) (m : Metrics) (request : L.JsonRpcRequest) (status : ℕ)
        (o : Result L.HttpResponse (ℕ × Text))
        → status_of L.http_status (λ e. e.0) o ≡ status
        → on_outcome ic_error_is_too_large method host
            (outcome_of (
              (map_err filter_error o >>= λ r.
              map_err json_response_error (L.convert_json_response r))
              >>= λ r. map_err response_id_error (L.filter_id request r)))
            m
          ≡ observe_response ic_error_is_too_large method host status m
    unfolding status_of filter_error on_outcome on_error
    passed method host m request status (ok r) e =
        parsed method host m request status (L.convert_json_response r)
          (L.convert_json_response-status r ∙ e)
    passed method host m request status (err f) e =
        ap (λ n. observe_response ic_error_is_too_large method host n m) e

    -- Where the request of an attempt is built, its cycles are attached and the replica gives an HTTP
    -- response, this response is counted once, for the method and host of the request and under its
    -- own status, whether it passes the filter of statuses, is read as JSON and has the right
    -- identifier or not; and no other counter changes.
    pub attempt-counted :
        {X : Externals} (s : State X) (method host : Text) (m : Metrics)
        (request : L.JsonRpcRequest) (built paid : L.IcRequest) (reply : L.IcResponse)
        (r : L.HttpResponse)
        → service_request_builder request ≡ ok built
        → L.cycles_accounting s.num_subnet_nodes
            (cycles_to_charge (charging_policy_default s))
            built
          ≡ ok paid
        → L.outcall paid ≡ ok reply
        → L.convert_http_response reply ≡ ok r
        → on_outcome ic_error_is_too_large method host (outcome_of (attempt s request)) m
          ≡ observe_response ic_error_is_too_large method host (L.http_status r) m
    unfolding attempt read_response
    attempt-counted s method host m request built paid reply r b c o h = rw b (
        rw c (
          rw o (
            rw h (
              passed method host m request (L.http_status r) (L.filter_non_successful r)
                (L.filter_non_successful-status r)))))

  -- Where the cycles of an attempt do not cover the request, nothing is sent: whatever the outcall
  -- would give, the error says how many cycles are expected and how many were received.
  pub attempt-unpaid :
      {X : Externals} (from_utf8_lossy : Text → Text) (s : State X) (request : L.JsonRpcRequest)
      (built : L.IcRequest) (expected received : ℕ)
      → service_request_builder request ≡ ok built
      → L.cycles_accounting s.num_subnet_nodes (cycles_to_charge (charging_policy_default s)) built
        ≡ err (expected, received)
      → map_err (rpc_error_from from_utf8_lossy) (attempt s request)
        ≡ err (provider_error (ProviderError.too_few_cycles expected received))
  unfolding attempt rpc_error_from cycles_error
  attempt-unpaid from_utf8_lossy s request built expected received b c = rw b (rw c refl)

-- ===== src/Metrics/Encoding.antt =====
-- What is written of the counters (`encode_metrics` of `src/metrics.rs`). The encoder of
-- ic_metrics_encoder, floating-point numbers and the system's figures are parameters.
use evm_rpc_canister.Prelude.{ℕ, List, [], ◌∷◌, Text, text, Result, ok, ◌>>=◌}
use evm_rpc_canister.Types.Error.{LegacyRejectionCode}
use evm_rpc_canister.Types.Error.Derived.{of_rejection_index}
use evm_rpc_canister.Metrics.{Metrics}
use evm_rpc_canister.Metrics.Labels.{Labels, request_labels, response_labels, error_labels}

-- An encoder with what has been written; an error of a counter is ignored by the code, and what it
-- leaves written is the encoder's. `metric_value` is the conversion `as f64`.
pub record Encoder : Type 1 where
  pub Written : Type 0
  pub IoError : Type 0
  pub F64 : Type 0
  pub metric_value : ℕ → F64
  pub times : F64 → F64 → F64
  pub gauge_vec : Text → Text → Labels → F64 → Written → Result Written IoError
  pub encode_gauge : Text → F64 → Text → Written → Result Written IoError
  pub counter_vec : Text → Text → Labels → F64 → Written → Written

-- The figures of the system
pub record Figures : Type 0 where
  pub canister_balance : ℕ
  pub canister_version : ℕ
  pub stable_size : ℕ
  pub heap_memory_size_bytes : ℕ

-- Keys of errors hold the index of a code.
abbrev pub error_key : Text × (Text × ℕ) → Text × (Text × LegacyRejectionCode)
error_key (method, (host, index)) = (method, (host, of_rejection_index index))

abbrev pub wasm_page_size_in_bytes : ℕ
wasm_page_size_in_bytes = 65_536

module _ (E : Encoder) where
  open E use {Written, IoError}

  unfoldable pub counter_entries :
      {K : Type 0} → (K → Labels) → Text → List (K × ℕ) → Text → Written → Written
  counter_entries labels name [] help w = w
  counter_entries labels name ((k, v) ∷ m) help w =
      counter_entries labels name m help (E.counter_vec name help (labels k) (E.metric_value v) w)

  -- The gauges, which are written first
  unfoldable pub encode_gauges : Figures → Written → Result Written IoError
  unfolding text
  encode_gauges figures w = do
    w₁ ←
        E.gauge_vec (text "cycle_balance") (text "Cycle balance of this canister")
          ((text "canister", text "evmrpc") ∷ []) (E.metric_value figures.canister_balance) w
    w₂ ←
        E.encode_gauge (text "evmrpc_canister_version") (E.metric_value figures.canister_version)
          (text "Canister version") w₁
    w₃ ←
        E.encode_gauge (text "stable_memory_bytes")
          (E.times (E.metric_value figures.stable_size) (E.metric_value wasm_page_size_in_bytes))
          (text "Size of the stable memory allocated by this canister.") w₂
    E.encode_gauge (text "heap_memory_bytes") (E.metric_value figures.heap_memory_size_bytes)
        (text "Size of the heap memory allocated by this canister.") w₃

  -- The counters in their order. That of charged cycles comes first and has no entries, as nothing
  -- writes it.
  unfoldable pub encode_counters : Metrics → Written → Written
  unfolding text counter_entries request_labels response_labels error_labels
  encode_counters m w =
      let requests =
        counter_entries request_labels (text "evmrpc_requests") m.requests
          (text "Number of JSON-RPC requests") w in
      let responses =
        counter_entries response_labels (text "evmrpc_responses") m.responses
          (text "Number of JSON-RPC responses") requests in
      let inconsistent =
        counter_entries request_labels (text "evmrpc_inconsistent_responses")
          m.inconsistent_responses (text "Number of inconsistent RPC responses") responses in
      counter_entries (λ k. error_labels (error_key k)) (text "evmrpc_err_http_outcall")
        m.err_http_outcall (text "Number of unsuccessful HTTP outcalls") inconsistent

  unfoldable pub encode_metrics : Figures → Metrics → Written → Result Written IoError
  unfolding encode_gauges encode_counters
  encode_metrics figures m w = encode_gauges figures w >>= λ v. ok (encode_counters m v)

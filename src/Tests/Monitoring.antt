-- ===== src/Tests/Monitoring.antt =====
-- Attempts, labels and pages.
use evm_rpc_canister.Prelude.{
  inl, zero, suc, length, ℕ, ◌+◌, ◌≡◌, refl, Bool, true, false, List, [], ◌∷◌, none, some, Text,
  text, ok, arith, if◌then◌else◌, ltb,
}
use evm_rpc_canister.Metrics.{Metrics}
use evm_rpc_canister.Metrics.Encoding.{Encoder, Figures}
use evm_rpc_canister.Http.{RejectCode, ic_error, error, count_request, on_outcome, error_priority}
use evm_rpc_canister.Http.Attempts.{
  HttpJsonRpcRequest, RetryPolicy, attempts, ids, AllDiffer, attempts-differ,
}
use evm_rpc_canister.Pages.{Push, log_error, http_request, http_request-too_large}
use evm_rpc_canister.Direct.Transform.{
  JsonValues, IcHttpResponse, transform_http_request, transform_http_request-agrees,
}
use evm_rpc_canister.Tests.Administering.{installed}
use evm_rpc_canister.Tests.Logging.{logged, log_library, since_five}

-- The limit of a response is doubled while it is below two million bytes and a response is too large.
abbrev doubling : RetryPolicy ℕ Bool
doubling limit too_large =
    if too_large then (if ltb limit 2_000_000 then some (limit + limit) else none) else none

abbrev asked : HttpJsonRpcRequest ℕ Text
asked = record { parts = 1_024; id = 0; body = text "eth_call" }

-- Two attempts fail, and others take three identifiers meanwhile.
abbrev answers : List (Bool × ℕ)
answers = (true, 3) ∷ (true, 0) ∷ (false, 0) ∷ []

attempts-differ_example : AllDiffer (ids (attempts doubling answers installed asked))
attempts-differ_example =
    attempts-differ doubling answers installed asked (omega arith) (omega arith)

-- The values in the order in which they are written
abbrev values : Encoder
values = record {
  Written = List ℕ;
  IoError = Text;
  F64 = ℕ;
  metric_value = λ n. n;
  times = λ a b. a;
  gauge_vec = λ name help labels value w. ok (value ∷ w);
  encode_gauge = λ name value help w. ok (value ∷ w);
  counter_vec = λ name help labels value w. value ∷ w;
}

abbrev figures : Figures
figures = record {
  canister_balance = 5;
  canister_version = 1;
  stable_size = 2;
  heap_memory_size_bytes = 0;
}

abbrev no_metrics : Metrics
no_metrics = record {
  requests = [];
  responses = [];
  inconsistent_responses = [];
  err_http_outcall = [];
  err_max_response_size_exceeded = [];
}

abbrev always_too_large : RejectCode → Text → Bool
always_too_large code message = true

-- An entry in front, for its priority and all others
abbrev in_front : Push ℕ
in_front priority entry log p = entry ∷ log p

http_request-too_large_example :
    http_request values
      (record log_library {
        pushed =
            log_error in_front 9
              (error_priority always_too_large (ic_error RejectCode.sys_fatal (text "size")))
              logged;
      })
      (λ e. e)
      []
      false
      (text "/logs")
      since_five
      figures
      (on_outcome always_too_large
        (text "eth_call")
        (text "a.org")
        (error (ic_error RejectCode.sys_fatal (text "size")))
        (count_request always_too_large (text "eth_call") (text "a.org") no_metrics))
    ≡ http_request values log_library
        (λ e. e)
        []
        false
        (text "/logs")
        since_five
        figures
        (count_request always_too_large (text "eth_call") (text "a.org") no_metrics)
http_request-too_large_example =
    http_request-too_large values log_library (λ e. e) [] in_front 9 always_too_large
      (text "eth_call") (text "a.org") (text "size") RejectCode.sys_fatal refl false (text "/logs")
      since_five figures no_metrics

-- Numbers as values, which any text of that length stands for
ones : ℕ → Text
ones zero = []
ones (suc n) = 49 ∷ ones n

abbrev lengths : JsonValues
lengths = record {
  Value = ℕ;
  from_slice = λ t. some (length t);
  to_vec = λ n. some (ones n);
  to_vec-succeeds = λ n. (ones n, refl);
}

abbrev spaced : IcHttpResponse
spaced = record {
  status = 200;
  body = text "{ }";
  headers = record { name = text "date"; value = text "now" } ∷ [];
}

abbrev other : IcHttpResponse
other = record { status = 200; body = text "abc"; headers = [] }

transform_http_request-agrees_example :
    transform_http_request lengths spaced ≡ transform_http_request lengths other
unfolding text
transform_http_request-agrees_example =
    transform_http_request-agrees lengths spaced other refl (inl (3, refl, refl))

-- ===== src/Tests/Outcalls.antt =====
-- An attempt at a request whose layers are small functions: requests are numbers, and responses have
-- a status, a body and an identifier.
use evm_rpc_canister.Ord.Instances.{nat_ord, pair_ord, list_ord}
use evm_rpc_canister.Prelude.{
  ℕ, ◌≡◌, refl, ltb, ◌==◌, [], ◌∷◌, Text, text, Result, ok, err, if◌then◌else◌, Bool-cases, inl,
  inr,
}
use evm_rpc_canister.Memory.{initial}
use evm_rpc_canister.Http.{RejectCode, observe_response, on_outcome}
use evm_rpc_canister.Http.Layers.{Layers, status_of, attempt, outcome_of, attempt-counted}
use evm_rpc_canister.Tests.Libraries.{externals}
use evm_rpc_canister.Tests.Answering.{no_counters, is_fatal}

record Reply : Type 0 where
  status : ℕ
  body : Text
  id : ℕ

successful : Reply → Result Reply (ℕ × Text)
successful r = if ltb r.status 300 then ok r else err (r.status, r.body)

parse : Text → Reply → Result Reply (ℕ × (Text × Text))
parse [] r = err (r.status, ([], text "no value"))
parse (c ∷ cs) r = ok r

same_id : ℕ → Reply → Result Reply (ℕ × Text)
same_id q r = if r.id == q then ok r else err (r.status, text "another identifier")

successful_status : (r : Reply) → status_of (λ a. a.status) (λ e. e.0) (successful r) ≡ r.status
unfolding successful status_of
successful_status r = elim (Bool-cases (ltb r.status 300)) [ inl e ↦ rw e refl | inr e ↦ rw e refl ]

parse_status : (b : Text) (r : Reply) → status_of (λ a. a.status) (λ e. e.0) (parse b r) ≡ r.status
unfolding parse status_of
parse_status [] r = refl
parse_status (c ∷ cs) r = refl

same_id_status : (q : ℕ) (r : Reply) → status_of (λ a. a.status) (λ e. e.0) (same_id q r) ≡ r.status
unfolding same_id status_of
same_id_status q r = elim (Bool-cases (r.id == q)) [ inl e ↦ rw e refl | inr e ↦ rw e refl ]

-- The service answers every request with the identifier 3.
abbrev layers : Layers
layers = record {
  JsonRpcRequest = ℕ;
  HttpRequest = ℕ;
  IcRequest = ℕ;
  IcResponse = Reply;
  HttpResponse = Reply;
  JsonRpcResponse = Reply;
  insert_header_if_not_present = λ name value q. q;
  convert_json_request = λ q. ok q;
  convert_http_request = λ q. ok q;
  cycles_accounting = λ nodes charge q. ok q;
  outcall = λ q. ok (record { status = 200; body = text "{}"; id = 3 });
  convert_http_response = λ r. ok r;
  filter_non_successful = successful;
  convert_json_response = λ r. parse r.body r;
  filter_id = same_id;
  http_status = λ r. r.status;
  json_status = λ r. r.status;
  filter_non_successful-status = successful_status;
  convert_json_response-status = λ r. parse_status r.body r;
  filter_id-status = same_id_status;
}

-- The response has another identifier than the request, and is counted under its status.
attempt-counted_example :
    on_outcome is_fatal
      (text "eth_call")
      (text "node")
      (outcome_of layers is_fatal (attempt layers (initial externals) 4))
      no_counters
    ≡ observe_response is_fatal (text "eth_call") (text "node") 200 no_counters
unfolding evm_rpc_canister.Http.Layers.service_request_builder
attempt-counted_example =
    attempt-counted layers is_fatal (initial externals) (text "eth_call") (text "node") no_counters
      4 4 4 (record { status = 200; body = text "{}"; id = 3 })
      (record { status = 200; body = text "{}"; id = 3 }) refl refl refl refl

-- ===== src/Pages.antt =====
-- `http_request` of `src/main.rs`: the pages that the canister shows.
use evm_rpc_canister.Ord.{◌=?◌}
use evm_rpc_canister.Ord.Instances.{nat_ord, list_ord}
use evm_rpc_canister.Prelude.{
  ◌++◌, ◌≡◌, refl, true, Bool, List, Option, none, some, Text, text, Result, ok, err, if◌then◌else◌,
}
use evm_rpc_canister.Prelude.Exec.{Exec, returns, traps}
use evm_rpc_canister.Metrics.{Metrics}
use evm_rpc_canister.Metrics.Encoding.{Encoder, Figures, encode_metrics, encode_counters}
use evm_rpc_canister.Logs.{Priority, LogLibrary, LogQuery, LogResponse, logs_response}
use evm_rpc_canister.Http.{
  RejectCode, ic_error, error, count_request, on_outcome, on_error, is_response_too_large,
  error_priority,
}

pub data HttpResponse (Written : Type 0) : Type 0 where
  metrics_page : Written → HttpResponse Written
  server_error : Text → HttpResponse Written
  logs_page : LogResponse → HttpResponse Written
  not_found : HttpResponse Written

-- `show_error` is the text of an error of the encoder, `new` a `MetricsEncoder::new`.
module _ (E : Encoder) (L : LogLibrary) (show_error : E.IoError → Text) (new : E.Written) where
  unfoldable pub metrics_response : Result E.Written E.IoError → HttpResponse E.Written
  unfolding text
  metrics_response (ok writer) = metrics_page writer
  metrics_response (err e) = server_error (text "Failed to encode metrics: " ++ show_error e)

  unfoldable pub http_request :
      Bool → Text → LogQuery → Figures → Metrics → Exec (HttpResponse E.Written)
  unfolding text metrics_response encode_metrics logs_response
  http_request in_replicated_execution path query figures m =
      if in_replicated_execution
      then traps (text "Update call rejected")
      else returns (
          if path =? text "/metrics"
          then metrics_response (encode_metrics E figures m new)
          else if path =? text "/logs"
          then logs_page (logs_response L query)
          else not_found)

-- The entries of a log by their priority, and how canlog adds one
abbrev pub LogEntries : Type 0 → Type 0
LogEntries Entry = Priority → List Entry

abbrev pub Push : Type 0 → Type 0
Push Entry = Priority → Entry → LogEntries Entry → LogEntries Entry

-- The log after `on_error`, by the priority at which an error is logged
unfoldable pub log_error :
    {Entry : Type 0} → Push Entry → Entry → Option Priority → LogEntries Entry → LogEntries Entry
log_error push entry none log = log
log_error push entry (some priority) log = push priority entry log

-- Responses that are too large leave no trace on any page: whatever the path, and however an error
-- would be written to the log, `http_request` answers with the log and the counters after `on_error`
-- of a response over its limit as it does with those of an attempt that has only begun.
pub http_request-too_large :
    (E : Encoder) (L : LogLibrary) (show_error : E.IoError → Text) (new : E.Written)
    (push : Push L.Entry) (entry : L.Entry) (ic_error_is_too_large : RejectCode → Text → Bool)
    (method host message : Text) (code : RejectCode)
    → ic_error_is_too_large code message ≡ true
    → (replicated : Bool) (path : Text) (query : LogQuery) (figures : Figures) (m : Metrics)
    → let begun = count_request ic_error_is_too_large method host m in
      let failed = ic_error code message in
      let log = log_error push entry (error_priority ic_error_is_too_large failed) L.pushed in
      http_request E
        (record L { pushed = log })
        show_error
        new
        replicated
        path
        query
        figures
        (on_outcome ic_error_is_too_large method host (error failed) begun)
      ≡ http_request E L show_error new replicated path query figures begun
unfolding http_request encode_metrics encode_counters on_outcome on_error is_response_too_large
    error_priority log_error
http_request-too_large E L show_error new push entry ic_error_is_too_large method host message code
      h replicated path query figures m =
    rw h refl

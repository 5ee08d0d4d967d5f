-- ===== src/Logs.antt =====
-- `src/logs/mod.rs` and the path /logs of `http_request` in `src/main.rs`. The log itself, with its
-- entries, its order and its text, is canlog's, the query of a URL ic_http_types': parameters.
pub mod Shown
use evm_rpc_canister.Ord.{◌=?◌}
use evm_rpc_canister.Ord.Instances.{nat_ord, list_ord}
use evm_rpc_canister.Prelude.{
  ℕ, ◌++◌, ◌==◌, leb, Bool, List, [], ◌∷◌, Option, none, some, Text, text, Result, ok, err,
  if◌then◌else◌,
}
use evm_rpc_canister.Prelude.Exec.{Exec, returns, traps}
use evm_rpc_canister.SendRaw.{Lowercase}

pub data Priority : Type 0 where
  info debug trace_http : Priority

-- `Priority::from_str`
unfoldable pub priority_from_str : Lowercase → Text → Result Priority Text
unfolding text
priority_from_str L s =
    let lower = L.to_lowercase s in
    if lower =? text "info"
    then ok info
    else if lower =? text "trace_http"
    then ok trace_http
    else if lower =? text "debug"
    then ok debug
    else err (text "could not recognize priority")

-- `Sort` of canlog, by the variants in use
pub data Sort : Type 0 where
  ascending descending : Sort

-- canlog and the parameters of a request's URL; `pushed` is what `push_logs` adds for a priority.
pub record LogLibrary : Type 1 where
  pub lowercase : Lowercase
  pub Entry : Type 0
  pub timestamp : Entry → ℕ
  pub pushed : Priority → List Entry
  pub sort_from_str : Text → Result Sort Text
  pub sort_logs : Sort → List Entry → List Entry
  pub serialize_logs : ℕ → List Entry → Text
  pub parse_u64 : Text → Option ℕ

-- The parameters of a query, where they are given
pub record LogQuery : Type 0 where
  pub time : Option Text
  pub priority : Option Text
  pub sort : Option Text

-- A response by its kind, with its body
pub data LogResponse : Type 0 where
  shows : Text → LogResponse
  bad_request : Text → LogResponse

abbrev pub max_body_size : ℕ
max_body_size = 2_000_000

module _ (L : LogLibrary) where
  open L use {Entry}

  -- `Vec::retain` of entries that are not older
  unfoldable pub retain : ℕ → List Entry → List Entry
  retain time [] = []
  retain time (e ∷ es) =
      let rest = retain time es in if leb time (L.timestamp e) then e ∷ rest else rest

  abbrev pub all_priorities : List Entry
  all_priorities = L.pushed info ++ (L.pushed debug ++ L.pushed trace_http)

  abbrev pub pushed_for : Result Priority Text → List Entry
  pushed_for (ok priority) = L.pushed priority
  pushed_for (err e) = all_priorities

  -- The entries of the given priority, or of all where there is none or it is not recognized
  unfoldable pub pushed_logs : Option Text → List Entry
  unfolding priority_from_str
  pushed_logs none = all_priorities
  pushed_logs (some priority) = pushed_for (priority_from_str L.lowercase priority)

  abbrev pub default_sort : ℕ → Sort
  default_sort time = if time == 0 then ascending else descending

  abbrev pub sort_or_default : ℕ → Result Sort Text → Sort
  sort_or_default time (ok order) = order
  sort_or_default time (err e) = default_sort time

  unfoldable pub ordering_from_query_params : Option Text → ℕ → Sort
  ordering_from_query_params none time = default_sort time
  ordering_from_query_params (some sort) time = sort_or_default time (L.sort_from_str sort)

  -- The entries that are shown, in their order
  unfoldable pub shown_logs : LogQuery → ℕ → List Entry
  unfolding retain pushed_logs ordering_from_query_params
  shown_logs query time =
      L.sort_logs (ordering_from_query_params query.sort time)
        (retain time (pushed_logs query.priority))

  unfoldable pub logs_since : LogQuery → Option ℕ → LogResponse
  unfolding shown_logs text
  logs_since query none = bad_request (text "failed to parse the 'time' parameter")
  logs_since query (some time) = shows (L.serialize_logs max_body_size (shown_logs query time))

  -- `http_request` for the path /logs
  unfoldable pub logs_response : LogQuery → LogResponse
  unfolding logs_since
  logs_response query = elim query.time [
    | none ↦ logs_since query (some 0)
    | some arg ↦ logs_since query (L.parse_u64 arg)
  ]

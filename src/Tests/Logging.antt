-- ===== src/Tests/Logging.antt =====
-- A log.
use evm_rpc_canister.Prelude.{ℕ, List, [], ◌∷◌, none, some, text, ok}
use evm_rpc_canister.Logs.{Priority, info, debug, trace_http, ascending, LogLibrary, LogQuery}
use evm_rpc_canister.Tests.Strings.{ascii_lowercase}

-- Entries are their times.
abbrev pub logged : Priority → List ℕ
logged info = 3 ∷ 8 ∷ []
logged debug = 9 ∷ []
logged trace_http = []

abbrev pub log_library : LogLibrary
log_library = record {
  lowercase = ascii_lowercase;
  Entry = ℕ;
  timestamp = λ e. e;
  pushed = logged;
  sort_from_str = λ s. ok ascending;
  sort_logs = λ order es. es;
  serialize_logs = λ size es. [];
  parse_u64 = λ s. some 5;
}

abbrev pub since_five : LogQuery
since_five = record { time = some (text "5"); priority = some (text "INFO"); sort = none }

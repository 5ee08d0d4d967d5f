-- ===== src/Lib.antt =====
-- The EVM RPC canister: a canister of the Internet Computer that forwards Ethereum JSON-RPC calls to
-- several providers over HTTP outcalls and combines their answers. The library models its data, its
-- state and the logic around the outcalls, and proves what makes them correct.
--
-- The parts, with the repository's files that they are read from:
--
-- Prelude, Ord, BTree. Shared: lists with native numbers, texts as UTF-8 bytes, results, code that may
--   trap (Prelude/Exec), Rust's `Ord` with its derived instances, and `BTreeSet` and `BTreeMap` as
--   sorted lists, and stable sorting.
-- Constants, Validate. src/constants.rs and src/validate.rs.
-- Types. evm_rpc_types/src: the services and configurations that callers pass (rpc_client/mod.rs) in
--   Service and Config, errors (result/mod.rs) in Error, and MultiRpcResult in MultiResult with its
--   `map`, `and_then` and `collapse`.
-- Providers. src/providers.rs: the table (Table), the maps built from it and resolution (Resolve), the
--   default services (Defaults) and the record of answers (Usage). The table is in pieces, one for
--   each network and one for Llama, which `providers` joins.
-- Selection. Providers::new of src/rpc_client/mod.rs: `providers_new`, `choose_providers` and the
--   branches of the latter.
-- Client. EthRpcClient of the same file, and ResponseSizeEstimate of src/rpc_client/eth_rpc/mod.rs.
-- Calls. EthRpcClient::parallel_call of the same file: the requests to the services, which on_request of
--   src/http.rs asks for their host, and their results.
-- Endpoints. The methods of src/rpc_client/mod.rs, src/candid_rpc/mod.rs and src/main.rs for Ethereum's
--   JSON-RPC methods, from the caller's arguments to the answer.
-- Direct. request and requestCost of src/main.rs with `json_rpc_request_arg` of src/http.rs;
--   Direct/Transform has what the replicas make of the reply.
-- Logs. src/logs/mod.rs and the path /logs of src/main.rs.
-- ClientLibrary. evm_rpc_client/src: the builders of lib.rs and request/mod.rs, and runtime/mod.rs;
--   ClientLibrary/Outputs has the types that each request comes with, and sending one.
-- Alloy. The optional feature alloy of evm_rpc_types/src: alloy.rs, request/alloy.rs (Requests),
--   response/alloy.rs (Responses) and result/alloy.rs (Results). Clients get answers in these types.
-- Pages. `http_request` of src/main.rs, over Logs and Metrics/Encoding.
-- Numbers. Nat256 and the hexadecimal types of evm_rpc_types/src/lib.rs, Amount of
--   src/rpc_client/amount/mod.rs, and the byte arrays of src/rpc_client/json/mod.rs.
-- JsonRpc, Conversion. The types of src/rpc_client/json (requests.rs, responses.rs) and the conversions
--   of src/candid_rpc/cketh_conversion.rs between them and Types/Request and Types/Response, which are
--   evm_rpc_types/src/request/mod.rs and response/mod.rs. A field `data` is called data_bytes.
-- Memory. src/memory.rs: the cells are the fields of `State`; each function of the file is one here.
--   Memory/Storable has the bytes of API keys, and Admin/Stored that they fit.
-- Access. Provider::api, OverrideProvider and ResolvedRpcService::api of src/types/mod.rs.
-- Admin. updateApiKeys with its guard, init and post_upgrade of src/main.rs. Admin/Reach has the
--   steps that change the state, and the states that they reach; Admin/Refinement has what they promise
--   of the settings, without how these are kept.
-- SendRaw. src/rpc_client/eth_rpc_error/mod.rs: the parsers of errors of eth_sendRawTransaction and
--   `sanitize_send_raw_transaction_result`.
-- Transform. src/rpc_client/eth_rpc/mod.rs: `cleanup_response` with the transformations that it applies.
-- Metrics, Http. The counters of src/metrics.rs and src/types/mod.rs, their labels and what
--   `encode_metrics` writes; src/http.rs with its errors, one pass through the layers (Http/Layers),
--   the attempts at a request and what is counted for each, and ChargingPolicyWithCollateral.
-- CandidRpc. src/candid_rpc/mod.rs: `process_result`, and eth_getLogs with its guard.
-- Queries. getProviders, getServiceProviderMap and getNodesInSubnet of src/main.rs.
-- Tests. Runs on concrete inputs.
--
-- How the parts interact: a call makes a client (Client over Selection over Providers), each selected
-- service is resolved (Providers) to a URL and headers (Access, which reads API keys and the override
-- from Memory) and called (Calls), the attempts are counted and charged (Http, Metrics), and the
-- results become one answer (CandidRpc, Types/MultiResult), which Conversion puts into the caller's
-- types; Endpoints composes these. The attempts at one request are counted in Http/Recorded on their
-- own; in Endpoints, what other messages and the attempts make of the state and the counters while a
-- call waits is any state and any counters. Admin changes what Memory holds.
--
-- Conventions. A panic or failed assertion traps, and a trap has no state, since the Internet Computer
-- undoes the changes of a message that traps. Thread-local cells are fields of a state that is passed
-- on. Unsigned integers are native numbers with their wrap-around written out: the request counter and
-- the counters of metrics are taken modulo 2 ^ 64, `as u8` is the remainder by 256, and the arithmetic
-- of charges saturates at 2 ^ 128 - 1. Nat256 and arrays carry the proof of their bound, as their private
-- fields and types do in the code; a conversion that might panic is a function once it is proved that
-- it never does (`returned`). The marks of units on amounts are left out. The only functions on fuel
-- are `pop_all`, which is given the length of the vector and so empties it, and the decimal digits of
-- n, for which n + 1 steps are more than enough.
--
-- Parameters stand for other libraries: TimedSizedMap of canhttp (Providers/Usage) with the laws
-- that sorting keys rearranges and orders them, regular expressions (Memory/Regex),
-- `str::to_lowercase` and the JSON of replies (SendRaw), the JSON, CBOR and hashes of responses
-- (Transform), `is_response_too_large`, the policy of retries and the layers of canhttp (Http), the
-- encoder of metrics (Metrics/Encoding), the texts of stable memory (Memory/Storable), the types of
-- alloy (Alloy), the domain of a URL (CandidRpc), MultiResults and parallel_call of canhttp with
-- the checks of the library http and the host of a URL (Calls, Direct), canhttp's reductions and
-- rlp (Endpoints), serde_json and the costs of outcalls (Direct), canlog (Logs), calls between
-- canisters (ClientLibrary), num_bigint, ethnum, hex and the addresses of ic_ethereum_types
-- (Numbers), and the system's test for controllers (Admin).
--
-- Not modelled: the outcalls themselves and the inside of the layers of tower and canhttp around
-- them, the reduction of results by canhttp, serialization (Candid, JSON, CBOR, and stable memory
-- but API keys), the texts of errors and log entries, and the fields of alloy's types that the
-- conversions always leave empty.
pub mod Prelude
pub mod Ord
pub mod BTree
pub mod Constants
pub mod Types
pub mod Providers
pub mod Selection
pub mod Validate
pub mod Memory
pub mod Access
pub mod Admin
pub mod SendRaw
pub mod Metrics
pub mod Numbers
pub mod Http
pub mod JsonRpc
pub mod Conversion
pub mod Client
pub mod ClientLibrary
pub mod Calls
pub mod CandidRpc
pub mod Endpoints
pub mod Direct
pub mod Logs
pub mod Alloy
pub mod Pages
pub mod Queries
pub mod Transform
mod Tests

-- ===== src/CandidRpc.antt =====
-- `src/candid_rpc/mod.rs`: how the results of the services become the answer to the caller.
pub mod Answers
use evm_rpc_canister.Ord.Instances.{nat_ord, pair_ord, list_ord}
use evm_rpc_canister.Prelude.{
  ℕ, ◌-◌, ◌++◌, ◌||◌, Bool, ltb, List, [], ◌∷◌, Option, none, some, Text, text, show, contains_byte,
  Result, ok, err, unwrap_or, if◌then◌else◌,
}
use evm_rpc_canister.Prelude.Exec.{Exec, returns}
use evm_rpc_canister.Types.Request.{BlockTag, number}
use evm_rpc_canister.Types.Service.{RpcService}
use evm_rpc_canister.Types.Error.{
  RpcError, RpcResult, validation_error, ValidationError, ProviderError,
}
use evm_rpc_canister.Types.MultiResult.{MultiRpcResult, consistent, inconsistent}
use evm_rpc_canister.Providers.Defs.{
  Provider, RpcAccess, RpcAuth, authenticated, unauthenticated, bearer_token, url_parameter,
}
use evm_rpc_canister.Providers.Resolve.{ResolvedRpcService, api, known, resolve_rpc_service}
use evm_rpc_canister.Metrics.{Metrics, add_metric_entry}
use evm_rpc_canister.Client.{RpcMethod, method_name}

-- The outcome of a reduction by canhttp: `ReducedResult` with its `ReductionError`, by the variants
-- that the code matches on.
pub data ReductionError (A : Type 0) : Type 0 where
  consistent_error : RpcError → ReductionError A
  inconsistent_results : List (RpcService × RpcResult A) → ReductionError A

abbrev pub ReducedResult : Type 0 → Type 0
ReducedResult A = Result A (ReductionError A)

-- The URL that names a provider's host
unfoldable pub access_url : RpcAccess → Text
access_url (authenticated (bearer_token url) public_url) = url
access_url (authenticated (url_parameter url_pattern) public_url) = url_pattern
access_url (unauthenticated public_url) = public_url

-- The library url gives the domain of a URL, or none where the URL is malformed or its host is an
-- address.
module _ (domain_of : Text → Option Text) where
  -- `hostname_from_url` of `src/util.rs`: a domain without the characters `{` and `}`
  unfoldable pub hostname_from_url : Text → Option Text
  hostname_from_url url = elim (domain_of url) [
    | none ↦ none
    | some domain ↦
        if contains_byte domain 123 || contains_byte domain 125 then none else some domain
  ]

  -- `Provider::hostname`
  unfoldable pub hostname : Provider → Option Text
  unfolding hostname_from_url access_url
  hostname p = hostname_from_url (access_url p.access)

  unfoldable pub count_resolved :
      RpcMethod → Result ResolvedRpcService ProviderError → Metrics → Metrics
  unfolding hostname method_name add_metric_entry
  count_resolved method (ok (known provider)) m = record m {
    inconsistent_responses =
        add_metric_entry (method_name method, unwrap_or (hostname provider) (text "(unknown)")) 1
          m.inconsistent_responses;
  }
  count_resolved method (ok (api a)) m = m
  count_resolved method (err e) m = m

  unfoldable pub count_all : {A : Type 0} → RpcMethod → List (RpcService × A) → Metrics → Metrics
  unfolding count_resolved
  count_all method [] m = m
  count_all method (entry ∷ results) m =
      count_all method results (count_resolved method (resolve_rpc_service entry.0) m)

  unfoldable pub process_result :
      {A : Type 0} → RpcMethod → ReducedResult A → Metrics → MultiRpcResult A × Metrics
  unfolding count_all
  process_result method (ok value) m = (consistent (ok value), m)
  process_result method (err (consistent_error e)) m = (consistent (err e), m)
  process_result method (err (inconsistent_results results)) m =
      (inconsistent results, count_all method results m)

unfoldable pub range_error : ℕ → ℕ → RpcError
range_error block_count max_block_range = validation_error (
    ValidationError.custom (
      text "Requested "
      ++ (show block_count
          ++ (text " blocks; limited to "
              ++ (show max_block_range ++ text " when specifying a start and end block")))))

-- `if to > from { to - from } else { from - to }`
unfoldable pub block_count : ℕ → ℕ → ℕ
block_count from to = if ltb from to then to - from else from - to

-- The guard of `eth_get_logs`: the error for two block numbers that are too far apart
unfoldable pub check_block_range : Option BlockTag → Option BlockTag → ℕ → Option RpcError
unfolding block_count range_error
check_block_range (some (number from)) (some (number to)) max_block_range =
    if ltb max_block_range (block_count from.nat to.nat)
    then some (range_error (block_count from.nat to.nat) max_block_range)
    else none
check_block_range _ _ max_block_range = none

-- `eth_get_logs`: `call` is the client's call of the services with what `process_result` and the
-- conversion of the logs make of it.
unfoldable pub get_logs :
    {A W : Type 0}
    → (W → Exec (MultiRpcResult A × W))
    → Option BlockTag
    → Option BlockTag
    → ℕ
    → W
    → Exec (MultiRpcResult A × W)
unfolding check_block_range
get_logs call from_block to_block max_block_range w =
    elim (check_block_range from_block to_block max_block_range) [
      | some e ↦ returns (consistent (err e), w)
      | none ↦ call w
    ]

-- ===== src/CandidRpc/Answers.antt =====
-- The answers of `src/candid_rpc/mod.rs` to the caller, and what is counted for them.
use evm_rpc_canister.Ord.Instances.{nat_ord, pair_ord, list_ord}
use evm_rpc_canister.Prelude.{
  ℕ, ◌+◌, ◌%◌, ◌≤◌, ◌<◌, ◌≡◌, ◌↔◌, refl, List, [], ◌∷◌, Option, none, some, Text, text, ok, err,
  unwrap_or, Result, arith,
}
use evm_rpc_canister.Prelude.Exec.{Exec, returns}
use evm_rpc_canister.Numbers.Nat256.{Nat256}
use evm_rpc_canister.Types.Request.{BlockTag, number}
use evm_rpc_canister.Types.Service.{RpcService}
use evm_rpc_canister.Types.Error.{RpcError, ProviderError}
use evm_rpc_canister.Types.MultiResult.{MultiRpcResult, consistent, inconsistent}
use evm_rpc_canister.Providers.Resolve.{ResolvedRpcService, api, known, resolve_rpc_service}
use evm_rpc_canister.Metrics.{Metrics, u64_bound}
use evm_rpc_canister.Metrics.Totals.{total, total-add_metric_entry}
use evm_rpc_canister.Client.{RpcMethod, method_name}
use evm_rpc_canister.CandidRpc.{
  ReducedResult, ReductionError, inconsistent_results, hostname, count_resolved, count_all,
  process_result, check_block_range, block_count, range_error, get_logs,
}

block_count_up : (from d : ℕ) → block_count from (from + d) ≡ d
unfolding block_count
block_count_up from d = ground arith

block_count_down : (from d : ℕ) → block_count (from + d) from ≡ d
unfolding block_count
block_count_down from d = ground arith

-- Two block numbers pass the guard of `eth_get_logs` exactly if neither is more than the limit
-- above the other, in whichever order they are given.
pub check_block_range_iff :
    (from to : Nat256) (max_block_range : ℕ)
    → (check_block_range (some (number from)) (some (number to)) max_block_range ≡ none)
      ↔ ((from.nat ≤ to.nat + max_block_range) × (to.nat ≤ from.nat + max_block_range))
unfolding check_block_range block_count
check_block_range_iff from to max_block_range = ground arith

-- For block numbers that are further apart than the limit the guard has the error, in either order.
check_block_range-too_wide :
    (low high : Nat256) (distance max_block_range : ℕ)
    → high.nat ≡ low.nat + distance
    → max_block_range < distance
    → (check_block_range (some (number low)) (some (number high)) max_block_range
        ≡ some (range_error distance max_block_range))
      × (check_block_range (some (number high)) (some (number low)) max_block_range
          ≡ some (range_error distance max_block_range))
unfolding check_block_range
check_block_range-too_wide low high distance max_block_range e h =
    let up : block_count low.nat high.nat ≡ distance = rw e (block_count_up low.nat distance) in
    let down : block_count high.nat low.nat ≡ distance = rw e (block_count_down low.nat distance) in
    (ground (arith, up), ground (arith, down))

-- Where the guard has an error, `eth_get_logs` answers with it, whatever the call would do.
get_logs-guarded :
    {A W : Type 0} (call : W → Exec (MultiRpcResult A × W)) (from to : Option BlockTag)
    (max_block_range : ℕ) (w : W) (e : RpcError)
    → check_block_range from to max_block_range ≡ some e
    → get_logs call from to max_block_range w ≡ returns (consistent (err e), w)
unfolding get_logs
get_logs-guarded call from to max_block_range w e h = rw (h, get_logs) refl

-- So it answers with the error for block numbers that are further apart than the limit, in either
-- order.
pub get_logs-limited :
    {A W : Type 0} (call : W → Exec (MultiRpcResult A × W)) (low high : Nat256)
    (distance max_block_range : ℕ) (w : W)
    → high.nat ≡ low.nat + distance
    → max_block_range < distance
    → (get_logs call (some (number low)) (some (number high)) max_block_range w
        ≡ returns (consistent (err (range_error distance max_block_range)), w))
      × (get_logs call (some (number high)) (some (number low)) max_block_range w
          ≡ returns (consistent (err (range_error distance max_block_range)), w))
get_logs-limited call low high distance max_block_range w e h =
    let (up, down) = check_block_range-too_wide low high distance max_block_range e h in
    (get_logs-guarded call _ _ _ w _ up, get_logs-guarded call _ _ _ w _ down)

-- Whether a service resolves to a provider of the table.
abbrev known_count : Result ResolvedRpcService ProviderError → ℕ
known_count (ok (known provider)) = 1
known_count (ok (api a)) = 0
known_count (err e) = 0

-- The number of services that resolve to a provider of the table.
unfoldable pub num_known : {A : Type 0} → List (RpcService × A) → ℕ
num_known [] = 0
num_known (entry ∷ results) = known_count (resolve_rpc_service entry.0) + num_known results

total-count_resolved :
    (domain_of : Text → Option Text) (method : RpcMethod)
    (r : Result ResolvedRpcService ProviderError) (m : Metrics)
    → total (count_resolved domain_of method r m).inconsistent_responses
      ≡ (total m.inconsistent_responses + known_count r) % u64_bound
unfolding count_resolved
total-count_resolved domain_of method (ok (known provider)) m =
    total-add_metric_entry
      (method_name method, unwrap_or (hostname domain_of provider) (text "(unknown)")) 1
      m.inconsistent_responses
total-count_resolved domain_of method (ok (api a)) m = omega arith
total-count_resolved domain_of method (err e) m = omega arith

total-count_all :
    {A : Type 0} (domain_of : Text → Option Text) (method : RpcMethod)
    (results : List (RpcService × A)) (m : Metrics)
    → total (count_all domain_of method results m).inconsistent_responses
      ≡ (total m.inconsistent_responses + num_known results) % u64_bound
unfolding count_all num_known
total-count_all domain_of method [] m = omega arith
total-count_all domain_of method (entry ∷ results) m =
    let r = resolve_rpc_service entry.0 in
    let m₁ = count_resolved domain_of method r m in
    let first = total-count_resolved domain_of method r m in
    let rest = total-count_all domain_of method results m₁ in omega arith

-- The number of results of services from the table in an inconsistent outcome, none in another.
abbrev pub num_inconsistent : {A : Type 0} → MultiRpcResult A → ℕ
num_inconsistent (consistent r) = 0
num_inconsistent (inconsistent results) = num_known results

-- When the results of a call are processed, the total of the counters of inconsistent responses
-- grows, modulo 2 ^ 64, by the number of services in the answer that resolve to a provider of the
-- table if the answer is inconsistent, and not at all if it is consistent.
pub process_result-total :
    {A : Type 0} (domain_of : Text → Option Text) (method : RpcMethod) (reduced : ReducedResult A)
    (m : Metrics)
    → total (process_result domain_of method reduced m).1.inconsistent_responses
      ≡ (total m.inconsistent_responses
          + num_inconsistent (process_result domain_of method reduced m).0)
        % u64_bound
unfolding process_result
process_result-total domain_of method (ok value) m = omega arith
process_result-total domain_of method (err (ReductionError.consistent_error e)) m = omega arith
process_result-total domain_of method (err (inconsistent_results results)) m =
    total-count_all domain_of method results m

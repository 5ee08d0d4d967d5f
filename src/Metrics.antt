-- ===== src/Metrics.antt =====
-- The counters of `src/metrics.rs` and `Metrics` of `src/types/mod.rs`.
pub mod Totals
pub mod Decimal
pub mod Labels
pub mod Encoding
use evm_rpc_canister.Ord.{Ord, ◌=?◌}
use evm_rpc_canister.Ord.Instances.{nat_ord, pair_ord, list_ord}
use evm_rpc_canister.Prelude.{ℕ, ◌+◌, ◌%◌, ◌==◌, List, [], ◌∷◌, Text, if◌then◌else◌}
use evm_rpc_canister.Types.Error.{LegacyRejectionCode}

-- The bound of `u64`.
abbrev pub u64_bound : ℕ
u64_bound = 18446744073709551616

-- A `HashMap` of counters, in some order of its entries.
module _ {K : Type 0} ⦃o : Ord K⦄ where
  -- `entry(k).and_modify(|counter| *counter += amount).or_insert(amount)`
  unfoldable pub entry_add : K → ℕ → List (K × ℕ) → List (K × ℕ)
  entry_add k amount [] = (k, amount) ∷ []
  entry_add k amount ((j, counter) ∷ m) =
      if k =? j
      then (j, (counter + amount) % u64_bound) ∷ m
      else (j, counter) ∷ entry_add k amount m

  -- `add_metric_entry!`
  unfoldable pub add_metric_entry : K → ℕ → List (K × ℕ) → List (K × ℕ)
  unfolding entry_add
  add_metric_entry k amount m = if amount == 0 then m else entry_add k amount m

-- Keys: the method, the host, and a status or the index of a rejection code. The counter of charged
-- cycles is never written.
pub record Metrics : Type 0 where
  pub requests : List ((Text × Text) × ℕ)
  pub responses : List ((Text × (Text × ℕ)) × ℕ)
  pub inconsistent_responses : List ((Text × Text) × ℕ)
  pub err_http_outcall : List ((Text × (Text × ℕ)) × ℕ)
  pub err_max_response_size_exceeded : List ((Text × Text) × ℕ)

-- ===== src/Metrics/Totals.antt =====
-- Sums of counters of `src/metrics.rs`.
use evm_rpc_canister.Ord.{Ord, ◌=?◌}
use evm_rpc_canister.Prelude.{ℕ, ◌+◌, ◌%◌, ◌≡◌, List, [], ◌∷◌, arith, Bool-cases, inl, inr}
use evm_rpc_canister.Metrics.{entry_add, add_metric_entry, u64_bound}

-- The sum of all counters, as the counters themselves modulo 2 ^ 64.
abbrev pub sum {ℓ} : {K : Type ℓ} → List (K × ℕ) → ℕ
sum [] = 0
sum ((k, n) ∷ m) = n + sum m

abbrev pub total {ℓ} : {K : Type ℓ} → List (K × ℕ) → ℕ
total m = sum m % u64_bound

module _ {K : Type 0} ⦃o : Ord K⦄ where
  pub total-entry_add :
      (k : K) (n : ℕ) (m : List (K × ℕ)) → total (entry_add k n m) ≡ (total m + n) % u64_bound
  unfolding entry_add
  total-entry_add k n [] = omega arith
  total-entry_add k n ((j, c) ∷ m) = elim (Bool-cases (k =? j)) [
    | inl e ↦ ground (arith, e)
    | inr e ↦ ground (arith, e, total-entry_add k n m)
  ]

  pub total-add_metric_entry :
      (k : K) (n : ℕ) (m : List (K × ℕ))
      → total (add_metric_entry k n m) ≡ (total m + n) % u64_bound
  unfolding add_metric_entry
  total-add_metric_entry k n m = ground (arith, total-entry_add k n m)

-- ===== src/Types/MultiResult.antt =====
-- `MultiRpcResult` of `evm_rpc_types/src/result/mod.rs`: the results of several services, which are
-- one result if they agree.
pub mod Agreement
pub mod Chaining
pub mod Injective
use evm_rpc_canister.Prelude.{
  Bool, List, [], ◌∷◌, map, all, is_empty, Result, ok, err, map_ok, ◌>>=◌, if◌then◌else◌, Text,
  text, ◌≡◌, ◌↔◌, true,
}
use evm_rpc_canister.Prelude.Exec.{Exec, returns, traps}
use evm_rpc_canister.Types.Service.{RpcService}
use evm_rpc_canister.Types.Error.{RpcResult}

-- Rust's `PartialEq` where it is derived: the test decides equality.
pub record PartialEq {ℓ} (A : Type ℓ) : Type ℓ where
  pub same : A → A → Bool
  pub same_iff : (a b : A) → (same a b ≡ true) ↔ (a ≡ b)

pub data MultiRpcResult (A : Type 0) : Type 0 where
  consistent : RpcResult A → MultiRpcResult A
  inconsistent : List (RpcService × RpcResult A) → MultiRpcResult A

module _ {A : Type 0} ⦃p : PartialEq (RpcResult A)⦄ where
  -- `collapse` of the results of several services
  unfoldable pub collapse_results : List (RpcService × RpcResult A) → MultiRpcResult A
  collapse_results [] = inconsistent []
  collapse_results (first ∷ v) =
      if all (λ entry. p.same entry.1 first.1) (first ∷ v)
      then consistent first.1
      else inconsistent (first ∷ v)

  unfoldable pub collapse : MultiRpcResult A → MultiRpcResult A
  unfolding collapse_results
  collapse (consistent r) = consistent r
  collapse (inconsistent v) = collapse_results v

module _ {A B : Type 0} ⦃p : PartialEq (RpcResult B)⦄ where
  -- `MultiRpcResult::map`
  unfoldable pub map_results : (A → B) → MultiRpcResult A → MultiRpcResult B
  unfolding collapse
  map_results f (consistent r) = consistent (map_ok f r)
  map_results f (inconsistent v) =
      collapse (inconsistent (map (λ entry. (entry.0, map_ok f entry.1)) v))

  -- `MultiRpcResult::and_then`
  unfoldable pub and_then : (A → RpcResult B) → MultiRpcResult A → MultiRpcResult B
  unfolding collapse
  and_then f (consistent r) = consistent (r >>= f)
  and_then f (inconsistent v) = collapse (inconsistent (map (λ entry. (entry.0, entry.1 >>= f)) v))

-- The panics show the value, which is left out of the message.
unfoldable pub expect_consistent : {A : Type 0} → MultiRpcResult A → Exec (RpcResult A)
expect_consistent (consistent r) = returns r
expect_consistent (inconsistent v) = traps (text "Expected consistent, but got: ")

unfoldable pub expect_inconsistent :
    {A : Type 0} → MultiRpcResult A → Exec (List (RpcService × RpcResult A))
expect_inconsistent (consistent r) = traps (text "Expected inconsistent:, but got: ")
expect_inconsistent (inconsistent v) = returns v

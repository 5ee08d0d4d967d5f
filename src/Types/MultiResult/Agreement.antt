-- ===== src/Types/MultiResult/Agreement.antt =====
-- When the results of several services count as one (`collapse` of
-- `evm_rpc_types/src/result/mod.rs`).
use evm_rpc_canister.Prelude.{
  List, [], ◌∷◌, all, All, is_empty, true, false, ◌≡◌, ◌⊎◌, inl, inr, ◌↔◌, refl, subst, arith,
  Bool-cases,
}
use evm_rpc_canister.Types.Service.{RpcService}
use evm_rpc_canister.Types.Error.{RpcResult}
use evm_rpc_canister.Types.MultiResult.{
  PartialEq, consistent, inconsistent, collapse_results, collapse,
}

module _ {A : Type 0} where
  -- There is a result, and every service gave this one.
  abbrev pub AllGave : RpcResult A → List (RpcService × RpcResult A) → Type 0
  AllGave r v = All (λ entry. entry.1 ≡ r) v

  abbrev pub IsUnanimous : RpcResult A → List (RpcService × RpcResult A) → Type 0
  IsUnanimous r v = (is_empty v ≡ false) × AllGave r v

module _ {A : Type 0} ⦃p : PartialEq (RpcResult A)⦄ where
  AllGave-all :
      (r : RpcResult A) (v : List (RpcService × RpcResult A))
      → AllGave r v
      → all (λ entry. p.same entry.1 r) v ≡ true
  AllGave-all r [] h = refl
  AllGave-all r (e ∷ v) h = ground (arith, AllGave-all r v h.1, (p.same_iff e.1 r).1 h.0)

  all-AllGave :
      (r : RpcResult A) (v : List (RpcService × RpcResult A))
      → all (λ entry. p.same entry.1 r) v ≡ true
      → AllGave r v
  all-AllGave r [] h = tt
  all-AllGave r (e ∷ v) h = ((p.same_iff e.1 r).0 (ground arith), all-AllGave r v (ground arith))

  collapse_results-first :
      (s : RpcService) (r : RpcResult A) (v : List (RpcService × RpcResult A))
      → AllGave r v
      → collapse_results ((s, r) ∷ v) ≡ consistent r
  unfolding collapse_results
  collapse_results-first s r v h = ground (arith, AllGave-all r ((s, r) ∷ v) (refl, h))

  pub collapse_results-IsUnanimous :
      (r : RpcResult A) (v : List (RpcService × RpcResult A))
      → IsUnanimous r v
      → collapse_results v ≡ consistent r
  collapse_results-IsUnanimous r [] h = cc
  collapse_results-IsUnanimous r ((s, q) ∷ v) h =
      subst (λ x. AllGave x v → collapse_results ((s, q) ∷ v) ≡ consistent x) h.1.0
        (collapse_results-first s q v) h.1.1

  -- Whether the results agree.
  abbrev Outcome : List (RpcService × RpcResult A) → Type 0
  Outcome v =
      ((r : RpcResult A) × IsUnanimous r v × (collapse_results v ≡ consistent r))
      ⊎ (collapse_results v ≡ inconsistent v)

  pub collapse_results-cases : (v : List (RpcService × RpcResult A)) → Outcome v
  unfolding collapse_results
  collapse_results-cases [] = inr refl
  collapse_results-cases ((s, q) ∷ v) =
      elim (Bool-cases (all (λ entry. p.same entry.1 q) ((s, q) ∷ v))) [
        | inl e ↦
            let h = all-AllGave q ((s, q) ∷ v) e in
            inl (q, (refl, h), collapse_results-first s q v h.1)
        | inr e ↦ inr (ground (arith, e))
      ]

  -- Results of several services are collapsed into one result exactly if there is at least one
  -- and all are equal to it; in every other case they are left as they are.
  pub collapse_iff :
      (v : List (RpcService × RpcResult A)) (r : RpcResult A)
      → ((collapse (inconsistent v) ≡ consistent r) ↔ IsUnanimous r v)
        × (((q : RpcResult A) × IsUnanimous q v) ⊎ (collapse (inconsistent v) ≡ inconsistent v))
  unfolding collapse
  collapse_iff v r = elim (collapse_results-cases v) [
    | inl c ↦
        let same_result : collapse_results v ≡ consistent r → c.0 ≡ r = λ h. cc in
        (
          (λ h. subst (λ x. IsUnanimous x v) (same_result h) c.1, collapse_results-IsUnanimous r v),
          inl (c.0, c.1),
        )
    | inr e ↦ ((λ h. cc, collapse_results-IsUnanimous r v), inr e)
  ]

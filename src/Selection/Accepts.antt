-- ===== src/Selection/Accepts.antt =====
-- Which strategies `Providers::new` of `src/rpc_client/mod.rs` accepts, and what it then selects.
use evm_rpc_canister.BTree.Set.{
  from_list, from_list-IsAscending, IsAscending, insert, contains, IsDistinct, contains-from_list,
  length-from_list,
}
use evm_rpc_canister.Prelude.{
  ℕ, ◌%◌, ◌≤◌, ◌<◌, min, ◌≡◌, ◌≢◌, ◌∙◌, refl, sym, ap, subst, Bool, true, false, ◌&&◌, List, [],
  ◌∷◌, map, Option, none, some, Text, ◌==◌, ltb, leb, length, is_empty, Result, ok, err, arith,
  Option-cases, inl, inr,
}
use evm_rpc_canister.Prelude.Exec.{Exec, returns, traps}
use evm_rpc_canister.Types.Service.{RpcService, rpc_service_ord}
use evm_rpc_canister.Types.Config.{ConsensusStrategy, equality, threshold, RpcServices}
use evm_rpc_canister.Types.Error.{ProviderError}
use evm_rpc_canister.Providers.Defs.{to_rpc_service}
use evm_rpc_canister.Providers.Usage.{TimedSizedMap}
use evm_rpc_canister.Selection.{
  user_defined_providers, supported_providers, Providers, best, providers_new,
  default_num_providers_for_equality,
}
use evm_rpc_canister.Selection.Bounds.{
  supported_providers-IsDistinct, length-supported, five-le-supported, length-best, contains-best,
}

-- Whether providers were selected.
abbrev pub is_accepted {ℓ} : {U : Type ℓ} → Exec (Result Providers ProviderError × U) → Bool
is_accepted (returns (ok p, u)) = true
is_accepted (returns (err e, u)) = false
is_accepted (traps m) = false

-- The caller's total, if any, is the number of services as a `u8`.
abbrev pub total_fits : Option ℕ → ℕ → Bool
total_fits none n = true
total_fits (some t) n = t == n

-- The number of default services that a strategy asks for.
abbrev pub wanted : ConsensusStrategy → Option ℕ
wanted equality = some default_num_providers_for_equality
wanted (threshold total min) = total

-- The caller lists no service twice, and fewer than 256, or lists none at all.
abbrev pub IsListedOnce : Option (List RpcService) → Type 0
IsListedOnce none = Unit
IsListedOnce (some services) = IsDistinct services × (length services < 256)

nonempty_from_list :
    (s : RpcService) (l : List RpcService) → is_empty (insert s (from_list l)) ≡ false
unfolding insert
nonempty_from_list s l = elim (from_list l) as (λ x. is_empty (insert s x) ≡ false) [
  | [] ↦ refl
  | y ∷ r ↦ ground arith
]

module _ (M : TimedSizedMap) (usage : M.Map) (source : RpcServices) (now : ℕ) where
  abbrev pub supported_count : ℕ
  supported_count = length (supported_providers source).1

  length-best_source :
      (n : ℕ) → length (best M usage (supported_providers source).1 now n).0 ≡ min n supported_count
  length-best_source n =
      length-best M usage (supported_providers source).1 now n
        (supported_providers-IsDistinct source)

  -- The assertion that the selected providers are distinct never fails: a selection never traps.
  pub providers_new-ne-traps :
      (strategy : ConsensusStrategy) (m : Text)
      → providers_new M usage source strategy now ≢ traps m
  unfolding providers_new
  providers_new-ne-traps equality m e = ground arith
  providers_new-ne-traps (threshold none min) m e = ground arith
  providers_new-ne-traps (threshold (some total) min) m e =
      ground (arith, length-best_source total, length-supported source)

  -- With default services, a threshold strategy is accepted exactly when
  -- 0 < min ≤ total ≤ number of default services.
  pub default_threshold_accepts :
      (total min : ℕ)
      → user_defined_providers source ≡ none
      → is_accepted (providers_new M usage source (threshold (some total) min) now)
        ≡ (ltb 0 min && (leb min total && leb total supported_count))
  unfolding providers_new
  default_threshold_accepts total min h =
      ground (arith, length-best_source total, length-supported source)

  -- With services that the caller lists, a threshold strategy is accepted exactly when min is
  -- positive and at most the number of listed services as a `u8`, and a total, if there is one, is
  -- that number.
  pub specified_threshold_accepts :
      (services : List RpcService) (total : Option ℕ) (min : ℕ)
      → user_defined_providers source ≡ some services
      → is_accepted (providers_new M usage source (threshold total min) now) ≡ (
          ltb 0 min
          && (leb min (length services % 256) && total_fits total (length services % 256)))
  unfolding providers_new from_list
  specified_threshold_accepts [] total min h = ground arith
  specified_threshold_accepts (s ∷ l) total min h = ground (arith, nonempty_from_list s l)

  -- An accepted selection of default services is the best of them, as many as the strategy wants.
  default_chosen :
      (strategy : ConsensusStrategy) (p : Providers) (u : M.Map)
      → user_defined_providers source ≡ none
      → providers_new M usage source strategy now ≡ returns (ok p, u)
      → (k : ℕ) × (wanted strategy ≡ some k)
        × (k ≤ supported_count)
        × (p ≡ record {
          chain = (supported_providers source).0;
          services = (best M usage (supported_providers source).1 now k).0;
        })
  unfolding providers_new
  default_chosen equality p u h e =
      (3, refl, omega (arith, five-le-supported source h), ground arith)
  default_chosen (threshold none min) p u h e = absurd (ground arith)
  default_chosen (threshold (some total) min) p u h e =
      (total, refl, ground (arith, length-supported source), ground arith)

  specified_chosen :
      (services : List RpcService) (strategy : ConsensusStrategy) (p : Providers) (u : M.Map)
      → user_defined_providers source ≡ some services
      → providers_new M usage source strategy now ≡ returns (ok p, u)
      → (p.chain ≡ (supported_providers source).0) × (u ≡ usage) × (p.services ≡ from_list services)
  unfolding providers_new
  specified_chosen services equality p u h e = ground arith
  specified_chosen services (threshold total min) p u h e = ground arith

  default_shape :
      (strategy : ConsensusStrategy) (p : Providers) (u : M.Map)
      → user_defined_providers source ≡ none
      → providers_new M usage source strategy now ≡ returns (ok p, u)
      → (p.chain ≡ (supported_providers source).0) × (wanted strategy ≡ some (length p.services))
  default_shape strategy p u h e =
      let (k, w, le, q) = default_chosen strategy p u h e in
      (
        ap (λ (r : Providers). r.chain) q,
        w
            ∙ ap some
                (omega (arith, length-best_source k, ap (λ (r : Providers). length r.services) q)),
      )

  -- What is selected of the default services is on the chain of the source: three services for
  -- equality and `total` services for a threshold, and each of them is a default service.
  pub default_selection :
      (strategy : ConsensusStrategy) (p : Providers) (u : M.Map) (s : RpcService)
      → user_defined_providers source ≡ none
      → providers_new M usage source strategy now ≡ returns (ok p, u)
      → contains s p.services ≡ true
      → (p.chain ≡ (supported_providers source).0)
        × (wanted strategy ≡ some (length p.services))
        × (contains s (map to_rpc_service (supported_providers source).1) ≡ true)
  default_selection strategy p u s h e m =
      let (k, w, le, q) = default_chosen strategy p u h e in
      let (c, n) = default_shape strategy p u h e in
      (
        c,
        n,
        contains-best M usage (supported_providers source).1 now k s
            (subst (λ (r : Providers). contains s r.services ≡ true) q m),
      )

  -- Services that the caller lists are selected as they are, each once, with no use of the ranking.
  pub specified_selection :
      (services : List RpcService) (strategy : ConsensusStrategy) (p : Providers) (u : M.Map)
      → user_defined_providers source ≡ some services
      → providers_new M usage source strategy now ≡ returns (ok p, u)
      → (p.chain ≡ (supported_providers source).0)
        × (u ≡ usage)
        × IsAscending p.services
        × ((s : RpcService) → contains s p.services ≡ contains s services)
  specified_selection services strategy p u h e =
      let (c, v, q) = specified_chosen services strategy p u h e in
      (
        c,
        v,
        subst IsAscending (sym q) (from_list-IsAscending services),
        λ s. ap (contains s) q ∙ contains-from_list s services,
      )

  min-le-default :
      (total : Option ℕ) (min : ℕ) (p : Providers) (u : M.Map)
      → user_defined_providers source ≡ none
      → providers_new M usage source (threshold total min) now ≡ returns (ok p, u)
      → min ≤ length p.services
  min-le-default none min p u h e = cc (default_shape (threshold none min) p u h e).1
  min-le-default (some total) min p u h e =
      let accepted = sym (default_threshold_accepts total min h) ∙ ap is_accepted e in
      ground (arith, accepted, (default_shape (threshold (some total) min) p u h e).1)

  min-le-specified :
      (services : List RpcService) (total : Option ℕ) (min : ℕ) (p : Providers) (u : M.Map)
      → user_defined_providers source ≡ some services
      → IsListedOnce (some services)
      → providers_new M usage source (threshold total min) now ≡ returns (ok p, u)
      → min ≤ length p.services
  min-le-specified services total min p u h once e =
      let accepted = sym (specified_threshold_accepts services total min h) ∙ ap is_accepted e in
      let q = (specified_chosen services (threshold total min) p u h e).2 in
      ground (
        arith,
        accepted,
        ap (λ (l : List RpcService). length l) q,
        length-from_list services once.0,
      )

  -- A threshold that is accepted can be met, if the caller lists fewer than 256 services and none
  -- twice: no fewer than `min` providers are queried.
  pub min-le-selected :
      (total : Option ℕ) (min : ℕ) (p : Providers) (u : M.Map)
      → IsListedOnce (user_defined_providers source)
      → providers_new M usage source (threshold total min) now ≡ returns (ok p, u)
      → min ≤ length p.services
  min-le-selected total min p u once e = elim (Option-cases (user_defined_providers source)) [
    | inl h ↦ min-le-default total min p u h e
    | inr (l, h) ↦ min-le-specified l total min p u h (subst IsListedOnce h once) e
  ]

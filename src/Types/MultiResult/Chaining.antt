-- ===== src/Types/MultiResult/Chaining.antt =====
-- Steps that follow one another on the results of several services (`map` and `and_then` of
-- `evm_rpc_types/src/result/mod.rs`).
use evm_rpc_canister.Prelude.{
  List, [], ◌∷◌, map, ◌≡◌, ◌∙◌, inl, inr, refl, sym, ap, ap₂, ok, err, ◌>>=◌, map_ok,
}
use evm_rpc_canister.Types.Service.{RpcService}
use evm_rpc_canister.Types.Error.{RpcResult}
use evm_rpc_canister.Types.MultiResult.{
  PartialEq, MultiRpcResult, consistent, inconsistent, collapse_results, collapse, and_then,
  map_results,
}
use evm_rpc_canister.Types.MultiResult.Agreement.{
  AllGave, IsUnanimous, collapse_results-cases, collapse_results-IsUnanimous,
}

module _ {A B : Type 0} where
  abbrev step : (A → RpcResult B) → RpcService × RpcResult A → RpcService × RpcResult B
  step f entry = (entry.0, entry.1 >>= f)

  AllGave-map :
      (f : A → RpcResult B) (r : RpcResult A) (v : List (RpcService × RpcResult A))
      → AllGave r v
      → AllGave (r >>= f) (map (step f) v)
  AllGave-map f r [] h = tt
  AllGave-map f r (e ∷ v) h = (ap (λ x. x >>= f) h.0, AllGave-map f r v h.1)

  IsUnanimous-map :
      (f : A → RpcResult B) (r : RpcResult A) (v : List (RpcService × RpcResult A))
      → IsUnanimous r v
      → IsUnanimous (r >>= f) (map (step f) v)
  IsUnanimous-map f r [] h = cc
  IsUnanimous-map f r (e ∷ v) h = (refl, AllGave-map f r (e ∷ v) h.1)

-- Collapsing before a step is the same as not collapsing.
and_then-collapse_results :
    {A B : Type 0} ⦃p : PartialEq (RpcResult A)⦄ ⦃q : PartialEq (RpcResult B)⦄ (f : A → RpcResult B)
    (v : List (RpcService × RpcResult A))
    → and_then f (collapse_results v) ≡ and_then f (inconsistent v)
unfolding and_then collapse
and_then-collapse_results f v = elim (collapse_results-cases v) [
  | inl c ↦
      ap (and_then f) c.2
      ∙ sym
          (collapse_results-IsUnanimous (c.0 >>= f) (map (step f) v) (IsUnanimous-map f c.0 v c.1))
  | inr e ↦ ap (and_then f) e
]

module _ {A B C : Type 0} where
  >>=-assoc :
      (f : A → RpcResult B) (g : B → RpcResult C) (r : RpcResult A)
      → ((r >>= f) >>= g) ≡ (r >>= λ a. f a >>= g)
  >>=-assoc f g (ok a) = refl
  >>=-assoc f g (err e) = refl

  map-step :
      (f : A → RpcResult B) (g : B → RpcResult C) (v : List (RpcService × RpcResult A))
      → map (step g) (map (step f) v) ≡ map (step (λ a. f a >>= g)) v
  map-step f g [] = refl
  map-step f g ((s, r) ∷ v) = ap₂ (λ x xs. (s, x) ∷ xs) (>>=-assoc f g r) (map-step f g v)

module _ {A B C : Type 0} ⦃p : PartialEq (RpcResult B)⦄ ⦃q : PartialEq (RpcResult C)⦄ where
  -- Chaining two fallible steps is the same as one step that does both: that the results are
  -- collapsed in between has no effect, whether they agree before, after the first step, after the
  -- second or never.
  pub and_then-and_then :
      (f : A → RpcResult B) (g : B → RpcResult C) (m : MultiRpcResult A)
      → and_then g (and_then f m) ≡ and_then (λ a. f a >>= g) m
  unfolding and_then collapse
  and_then-and_then f g (consistent r) = ap consistent (>>=-assoc f g r)
  and_then-and_then f g (inconsistent v) =
      and_then-collapse_results g (map (step f) v) ∙ ap collapse_results (map-step f g v)

module _ {A B : Type 0} ⦃p : PartialEq (RpcResult B)⦄ where
  map_ok-as_bind :
      (f : A → B) (v : List (RpcService × RpcResult A))
      → map (λ entry. (entry.0, map_ok f entry.1)) v ≡ map (step (λ a. ok (f a))) v
  map_ok-as_bind f [] = refl
  map_ok-as_bind f ((s, ok a) ∷ v) = ap (λ xs. (s, ok (f a)) ∷ xs) (map_ok-as_bind f v)
  map_ok-as_bind f ((s, err e) ∷ v) = ap (λ xs. (s, err e) ∷ xs) (map_ok-as_bind f v)

  -- An infallible step is a fallible step that never fails.
  pub map_results-and_then :
      (f : A → B) (m : MultiRpcResult A) → map_results f m ≡ and_then (λ a. ok (f a)) m
  unfolding map_results and_then collapse
  map_results-and_then f (consistent (ok a)) = refl
  map_results-and_then f (consistent (err e)) = refl
  map_results-and_then f (inconsistent v) = ap collapse_results (map_ok-as_bind f v)

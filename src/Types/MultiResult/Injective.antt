-- ===== src/Types/MultiResult/Injective.antt =====
-- Conversions of the results of several services (`MultiRpcResult::map` of
-- `evm_rpc_types/src/result/mod.rs`) by functions that keep different values different.
use evm_rpc_canister.Prelude.{List, [], ◌∷◌, map, is_empty, ok, err, map_ok, ◌≡◌, ◌↔◌, ap, refl}
use evm_rpc_canister.Types.Service.{RpcService}
use evm_rpc_canister.Types.Error.{RpcResult}
use evm_rpc_canister.Types.MultiResult.{PartialEq, consistent, inconsistent, map_results}
use evm_rpc_canister.Types.MultiResult.Agreement.{AllGave, IsUnanimous, collapse_iff}

module _ {A B : Type 0} (f : A → B) (inj : (a b : A) → f a ≡ f b → a ≡ b) where
  map_ok-inj : (q r : RpcResult A) → map_ok f q ≡ map_ok f r → q ≡ r
  map_ok-inj (ok a) (ok b) e = ap ok (inj a b (cc e))
  map_ok-inj (ok a) (err b) e = cc e
  map_ok-inj (err a) (ok b) e = cc e
  map_ok-inj (err a) (err b) e = cc e

  abbrev pub converted : List (RpcService × RpcResult A) → List (RpcService × RpcResult B)
  converted v = map (λ entry. (entry.0, map_ok f entry.1)) v

  AllGave-back :
      (r : RpcResult A) (v : List (RpcService × RpcResult A))
      → AllGave (map_ok f r) (converted v)
      → AllGave r v
  AllGave-back r [] h = tt
  AllGave-back r (e ∷ v) h = (map_ok-inj e.1 r h.0, AllGave-back r v h.1)

  AllGave-converted :
      (r : RpcResult A) (v : List (RpcService × RpcResult A))
      → AllGave r v
      → AllGave (map_ok f r) (converted v)
  AllGave-converted r [] h = tt
  AllGave-converted r (e ∷ v) h = (ap (map_ok f) h.0, AllGave-converted r v h.1)

  is_empty-converted : (v : List (RpcService × RpcResult A)) → is_empty (converted v) ≡ is_empty v
  is_empty-converted [] = refl
  is_empty-converted (e ∷ v) = refl

  module _ ⦃p : PartialEq (RpcResult B)⦄ where
    -- Where a conversion keeps different values different, converted results of several services
    -- agree on a converted result exactly if there is one and the services all gave it.
    pub map_results_iff :
        (v : List (RpcService × RpcResult A)) (r : RpcResult A)
        → (map_results f (inconsistent v) ≡ consistent (map_ok f r)) ↔ IsUnanimous r v
    unfolding map_results
    map_results_iff v r =
        let c = (collapse_iff (converted v) (map_ok f r)).0 in
        let e = is_empty-converted v in
        (
          λ h. let u = c.0 h in (cc (u.0, e), AllGave-back r v u.1),
          λ u. c.1 (cc (u.0, e), AllGave-converted r v u.1),
        )

-- ===== src/Selection/Repeats.antt =====
-- A service that the caller lists several times (`choose_providers` of `src/rpc_client/mod.rs`).
use evm_rpc_canister.BTree.Set.{from_list, insert}
use evm_rpc_canister.Prelude.{
  ℕ, zero, suc, ◌<◌, ◌≡◌, refl, ap, ◌∙◌, List, [], ◌∷◌, map, length, none, ok, arith,
}
use evm_rpc_canister.Prelude.Exec.{returns}
use evm_rpc_canister.Types.Service.{RpcApi, RpcService, rpc_service_ord}
use evm_rpc_canister.Types.Config.{RpcServices, threshold}
use evm_rpc_canister.Ord.{=?_refl}
use evm_rpc_canister.Providers.Usage.{TimedSizedMap}
use evm_rpc_canister.Selection.{providers_new}

-- `n` copies
abbrev pub repeated {ℓ} : {A : Type ℓ} → ℕ → A → List A
repeated zero a = []
repeated (suc n) a = a ∷ repeated n a

length-repeated : (n : ℕ) (api : RpcApi) → length (map RpcService.custom (repeated n api)) ≡ n
length-repeated zero api = refl
length-repeated (suc n) api = ap suc (length-repeated n api)

from_list-repeated :
    (n : ℕ) (api : RpcApi)
    → from_list (map RpcService.custom (repeated (suc n) api)) ≡ RpcService.custom api ∷ []
unfolding from_list insert
from_list-repeated zero api = refl
from_list-repeated (suc n) api =
    ap (insert (RpcService.custom api)) (from_list-repeated n api)
    ∙ ground (arith, =?_refl (RpcService.custom api))

module _ (M : TimedSizedMap) where
  -- A caller that lists one service from 1 to 255 times may ask that as many results agree: the
  -- strategy is accepted, and the only provider that is queried is this one.
  pub repeated_service :
      (usage : M.Map) (chain n now : ℕ) (api : RpcApi)
      → n < 255
      → providers_new M usage
          (RpcServices.custom chain (repeated (suc n) api))
          (threshold none (suc n))
          now
        ≡ returns (ok (record { chain = chain; services = RpcService.custom api ∷ [] }), usage)
  unfolding providers_new
  repeated_service usage chain n now api h =
      ground (arith, length-repeated n api, from_list-repeated n api)

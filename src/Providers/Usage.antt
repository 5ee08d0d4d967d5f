-- ===== src/Providers/Usage.antt =====
-- `SupportedRpcServiceUsage` of `src/providers.rs`: when which service last answered. The map that
-- holds it is the type `TimedSizedMap` of the library canhttp, a parameter here with what that
-- library documents of it: sorting keys rearranges them, in the order of the extracted values.
use Prim.Native.Nat.{Ordering, compare}
use Prim.Native.Nat.Ordering.{gt}
use mathlib.Core.List.{Permᴰ}
use evm_rpc_canister.Prelude.{ℕ, ◌*◌, ◌≡◌, ◌≢◌, List, [], ◌∷◌, Option, unwrap_or, All, arith}
use evm_rpc_canister.Providers.Defs.{SupportedRpcService}

-- Each element is related to every later one.
abbrev pub IsSortedBy :
    (SupportedRpcService → SupportedRpcService → Type 0) → List SupportedRpcService → Type 0
IsSortedBy R [] = Unit
IsSortedBy R (x ∷ xs) = All (R x) xs × IsSortedBy R xs

-- What `Ord` promises of a comparison: of two values one is not above the other, and this is
-- transitive.
abbrev pub IsOrder : (Option ℕ → Option ℕ → Ordering) → Type 0
IsOrder cmp =
    ((a b : Option ℕ) → cmp a b ≡ gt → cmp b a ≢ gt)
    × ((a b c : Option ℕ) → cmp a b ≢ gt → cmp b c ≢ gt → cmp a c ≢ gt)

-- Times are in nanoseconds. `len` is the number of values that a key holds, if it holds any; a
-- sort key is computed from it and compared by the given order.
pub record TimedSizedMap : Type 1 where
  pub Map : Type 0
  pub new : ℕ → ℕ → Map
  pub insert_evict : Map → ℕ → SupportedRpcService → Map
  pub evict_expired : Map → List SupportedRpcService → ℕ → Map
  pub len : Map → SupportedRpcService → Option ℕ
  pub sort_keys_by :
      Map → List SupportedRpcService → (Option ℕ → Option ℕ → Ordering) → List SupportedRpcService
  pub sort_keys_by-perm :
      (m : Map) (keys : List SupportedRpcService) (cmp : Option ℕ → Option ℕ → Ordering)
      → Permᴰ (sort_keys_by m keys cmp) keys
  pub sort_keys_by-sorted :
      (m : Map) (keys : List SupportedRpcService) (cmp : Option ℕ → Option ℕ → Ordering)
      → IsOrder cmp
      → IsSortedBy (λ a b. cmp (len m a) (len m b) ≢ gt) (sort_keys_by m keys cmp)

-- `Reverse` of the number of values: more values come first.
unfoldable pub ascending_num_elements : Option ℕ → Option ℕ → Ordering
ascending_num_elements a b = compare (unwrap_or b 0) (unwrap_or a 0)

pub ascending_num_elements-IsOrder : IsOrder ascending_num_elements
unfolding ascending_num_elements
ascending_num_elements-IsOrder = (λ a b h. ground arith, λ a b c h k. ground arith)

module _ (M : TimedSizedMap) where
  open M use {Map, new, insert_evict, evict_expired, len, sort_keys_by}

  -- twenty minutes, 500 values
  unfoldable pub usage_new : Map
  usage_new = new (20 * 60 * 1_000_000_000) 500

  unfoldable pub record_evict : Map → SupportedRpcService → ℕ → Map
  record_evict usage service now = insert_evict usage now service

  unfoldable pub rank_ascending_evict :
      Map → List SupportedRpcService → ℕ → List SupportedRpcService × Map
  unfolding ascending_num_elements
  rank_ascending_evict usage services now =
      let usage' = evict_expired usage services now in
      (sort_keys_by usage' services ascending_num_elements, usage')

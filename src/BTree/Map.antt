-- ===== src/BTree/Map.antt =====
-- `BTreeMap`: `insert`, `remove`, `get` and `collect`.
use Prim.Native.Nat.Ordering.{lt, eq, gt}
use evm_rpc_canister.Ord.{Ord, ◌=?◌}
use evm_rpc_canister.Prelude.{◌≡◌, refl, List, [], ◌∷◌, Option, none, some, if◌then◌else◌, arith}

module _ {ℓ κ} {K : Type ℓ} {V : Type κ} ⦃o : Ord K⦄ where
  unfoldable pub get : K → List (K × V) → Option V
  get k [] = none
  get k ((j, v) ∷ m) = if k =? j then some v else get k m

  -- A present key keeps its place and gets the new value.
  unfoldable pub insert : K → V → List (K × V) → List (K × V)
  insert k v [] = (k, v) ∷ []
  insert k v ((j, w) ∷ m) = elim (o.cmp k j) [
    | lt ↦ (k, v) ∷ (j, w) ∷ m
    | eq ↦ (k, v) ∷ m
    | gt ↦ (j, w) ∷ insert k v m
  ]

  unfoldable pub remove : K → List (K × V) → List (K × V)
  remove k [] = []
  remove k ((j, w) ∷ m) = let rest = remove k m in if k =? j then rest else (j, w) ∷ rest

  -- `Iterator::collect` inserts in order, so the last value of a key stays.
  unfoldable pub extend : List (K × V) → List (K × V) → List (K × V)
  unfolding insert
  extend m [] = m
  extend m ((k, v) ∷ rest) = extend (insert k v m) rest

  pub get-insert :
      (k j : K) (v : V) (m : List (K × V))
      → get j (insert k v m) ≡ (if j =? k then some v else get j m)
  unfolding get insert
  get-insert k j v [] = refl
  get-insert k j v ((i, w) ∷ m) =
      ground (arith, get-insert k j v m, o.cmp-eq j k, o.cmp-eq k i, o.cmp-eq j i)

  pub get-remove :
      (k j : K) (m : List (K × V)) → get j (remove k m) ≡ (if j =? k then none else get j m)
  unfolding get remove
  get-remove k j [] = ground arith
  get-remove k j ((i, w) ∷ m) =
      ground (arith, get-remove k j m, o.cmp-eq j k, o.cmp-eq k i, o.cmp-eq j i)

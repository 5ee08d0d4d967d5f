-- ===== src/Ord/Sort.antt =====
-- Stable sorting by a key (`slice::sort_by` of the Rust library, with keys that are compared).
use Prim.Native.Nat.Ordering.{gt}
use mathlib.Core.List.{Permᴰ, Memᴰ}
use evm_rpc_canister.Ord.{Ord}
use evm_rpc_canister.Prelude.{◌≡◌, ◌∙◌, refl, sym, ap₂, List, [], ◌∷◌, arith}

module _ {A K : Type 0} ⦃o : Ord K⦄ (key : A → K) where
  -- In front of the first element whose key is not below.
  unfoldable pub place : A → List A → List A
  place x [] = x ∷ []
  place x (y ∷ l) = elim (o.cmp (key x) (key y)) [ gt ↦ y ∷ place x l | _ ↦ x ∷ y ∷ l ]

  unfoldable pub sort_by : List A → List A
  unfolding place
  sort_by [] = []
  sort_by (x ∷ l) = place x (sort_by l)

  place-place :
      (a b : A) → (key a ≡ key b → a ≡ b) → (l : List A) → place a (place b l) ≡ place b (place a l)
  unfolding place
  place-place a b inj [] = ground (arith, inj, o.cmp-eq (key a) (key b), o.cmp-swap (key a) (key b))
  place-place a b inj (x ∷ l) = ground (
    arith,
    place-place a b inj l,
    inj,
    o.cmp-eq (key a) (key b),
    o.cmp-swap (key a) (key b),
    o.cmp-eq (key a) (key x),
    o.cmp-eq (key b) (key x),
    o.cmp-swap (key a) (key x),
    o.cmp-swap (key b) (key x),
    o.cmp-trans (key a) (key b) (key x),
    o.cmp-trans (key b) (key a) (key x),
  )

  -- No two elements of a sequence share a key.
  abbrev pub KeysDiffer : List A → Type 0
  KeysDiffer l = (x y : A) → Memᴰ x l → Memᴰ y l → key x ≡ key y → x ≡ y

  mem-perm : {l m : List A} → Permᴰ l m → {x : A} → Memᴰ x m → Memᴰ x l
  mem-perm Permᴰ.nil i = elim i [ ]
  mem-perm (Permᴰ.cons e p) (Memᴰ.head q) = Memᴰ.head (q ∙ sym e)
  mem-perm (Permᴰ.cons e p) (Memᴰ.tail i) = Memᴰ.tail (mem-perm p i)
  mem-perm (Permᴰ.swap e f) (Memᴰ.head q) = Memᴰ.tail (Memᴰ.head (q ∙ sym f))
  mem-perm (Permᴰ.swap e f) (Memᴰ.tail (Memᴰ.head q)) = Memᴰ.head (q ∙ sym e)
  mem-perm (Permᴰ.swap e f) (Memᴰ.tail (Memᴰ.tail i)) = Memᴰ.tail (Memᴰ.tail i)
  mem-perm (Permᴰ.trans p q) i = mem-perm p (mem-perm q i)

  -- Where no two elements share a key, the sorted sequence does not depend on the order before.
  pub sort_by-perm : {l m : List A} → Permᴰ l m → KeysDiffer l → sort_by l ≡ sort_by m
  unfolding sort_by
  sort_by-perm Permᴰ.nil d = refl
  sort_by-perm (Permᴰ.cons e p) d =
      ap₂ place e (sort_by-perm p (λ x y i j. d x y (Memᴰ.tail i) (Memᴰ.tail j)))
  sort_by-perm (Permᴰ.swap {a' = u} {b' = v} {l = l} e f) d =
      ap₂ (λ x y. place x (place y (sort_by l))) e f
      ∙ place-place v u (d v u (Memᴰ.head (sym e)) (Memᴰ.tail (Memᴰ.head (sym f)))) (sort_by l)
  sort_by-perm (Permᴰ.trans p q) d =
      sort_by-perm p d ∙ sort_by-perm q (λ x y i j. d x y (mem-perm p i) (mem-perm p j))

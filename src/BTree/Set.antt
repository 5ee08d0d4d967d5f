-- ===== src/BTree/Set.antt =====
-- `BTreeSet`: `insert`, `contains` and `collect`, with the laws that their users need.
use Prim.Native.Nat.Ordering.{lt, eq, gt}
use evm_rpc_canister.Ord.{Ord, ◌=?◌, =?_iff, =?_refl}
use evm_rpc_canister.Prelude.{
  ℕ, zero, suc, ◌≤◌, ◌≡◌, refl, Bool, true, false, not, ◌&&◌, ◌||◌, List, [], ◌∷◌, map, length,
  take, if◌then◌else◌, arith, All, Bool-cases, inl, inr, subst, sym,
}
use mathlib.Core.List.{Permᴰ}

module _ {ℓ} {K : Type ℓ} ⦃o : Ord K⦄ where
  unfoldable pub insert : K → List K → List K
  insert x [] = x ∷ []
  insert x (y ∷ s) = elim (o.cmp x y) [ lt ↦ x ∷ y ∷ s | eq ↦ y ∷ s | gt ↦ y ∷ insert x s ]

  -- `Iterator::collect`; equal elements are one, so the order of insertion does not matter.
  unfoldable pub from_list : List K → List K
  unfolding insert
  from_list [] = []
  from_list (x ∷ xs) = insert x (from_list xs)

  -- How often an element occurs.
  abbrev pub count : K → List K → ℕ
  count a [] = 0
  count a (x ∷ xs) = if a =? x then suc (count a xs) else count a xs

  abbrev pub contains : K → List K → Bool
  contains a [] = false
  contains a (x ∷ xs) = (a =? x) || contains a xs

  -- No element occurs twice.
  abbrev pub IsDistinct : List K → Type ℓ
  IsDistinct xs = (a : K) → count a xs ≤ 1

  -- Every element of `s` is above `x`.
  abbrev pub Above : K → List K → Type 0
  Above x [] = Unit
  Above x (y ∷ s) = (o.cmp x y ≡ lt) × Above x s

  -- The representation invariant of a set: strictly ascending.
  abbrev pub IsAscending : List K → Type 0
  IsAscending [] = Unit
  IsAscending (x ∷ s) = Above x s × IsAscending s

  pub contains-insert :
      (a x : K) (s : List K) → contains a (insert x s) ≡ ((a =? x) || contains a s)
  unfolding insert
  contains-insert a x [] = refl
  contains-insert a x (y ∷ s) =
      ground (arith, contains-insert a x s, o.cmp-eq x y, o.cmp-eq a x, o.cmp-eq a y)

  -- The set holds what the sequence holds.
  pub contains-from_list : (a : K) (xs : List K) → contains a (from_list xs) ≡ contains a xs
  unfolding from_list
  contains-from_list a [] = refl
  contains-from_list a (x ∷ xs) =
      ground (arith, contains-insert a x (from_list xs), contains-from_list a xs)

  Above-trans : (x y : K) (s : List K) → o.cmp x y ≡ lt → Above y s → Above x s
  Above-trans x y [] h k = tt
  Above-trans x y (z ∷ s) h k = (o.cmp-trans x y z h k.0, Above-trans x y s h k.1)

  Above-insert : (x y : K) (s : List K) → o.cmp x y ≡ lt → Above x s → Above x (insert y s)
  unfolding insert
  Above-insert x y [] h k = (h, tt)
  Above-insert x y (z ∷ s) h k = ground (arith, Above-insert x y s h)

  insert-IsAscending : (x : K) (s : List K) → IsAscending s → IsAscending (insert x s)
  unfolding insert
  insert-IsAscending x [] h = (tt, tt)
  insert-IsAscending x (y ∷ s) h =
      ground (arith, o.cmp-swap x y, insert-IsAscending x s, Above-trans x y s, Above-insert y x s)

  pub from_list-IsAscending : (xs : List K) → IsAscending (from_list xs)
  unfolding from_list
  from_list-IsAscending [] = tt
  from_list-IsAscending (x ∷ xs) = insert-IsAscending x (from_list xs) (from_list-IsAscending xs)

  pub contains-Above : (x : K) (s : List K) → Above x s → contains x s ≡ false
  contains-Above x [] h = refl
  contains-Above x (y ∷ s) h = ground (arith, contains-Above x s h.1)

  length-insert :
      (x : K) (s : List K)
      → IsAscending s
      → length (insert x s) ≡ (if contains x s then length s else suc (length s))
  unfolding insert
  length-insert x [] h = refl
  length-insert x (y ∷ s) h =
      ground (arith, length-insert x s, contains-Above x s, Above-trans x y s)

  pub count-contains : (a : K) (xs : List K) → contains a xs ≡ false → count a xs ≡ 0
  count-contains a [] h = refl
  count-contains a (x ∷ xs) h = ground (arith, count-contains a xs)

  pub contains-count : (a : K) (xs : List K) → count a xs ≡ 0 → contains a xs ≡ false
  contains-count a [] h = refl
  contains-count a (x ∷ xs) h = ground (arith, contains-count a xs)

  IsDistinct-tail : (x : K) (xs : List K) → IsDistinct (x ∷ xs) → IsDistinct xs
  IsDistinct-tail x xs h a = ground (arith, h a)

  not-contains-tail : (x : K) (xs : List K) → IsDistinct (x ∷ xs) → contains x xs ≡ false
  not-contains-tail x xs h = ground (arith, h x, =?_refl x, contains-count x xs)

  -- A test for `IsDistinct` that computes.
  unfoldable pub is_distinct : List K → Bool
  is_distinct [] = true
  is_distinct (x ∷ xs) = not (contains x xs) && is_distinct xs

  pub is_distinct-IsDistinct : (xs : List K) → is_distinct xs ≡ true → IsDistinct xs
  unfolding is_distinct
  is_distinct-IsDistinct [] h a = omega arith
  is_distinct-IsDistinct (x ∷ xs) h a =
      ground (arith, o.cmp-eq a x, count-contains x xs, is_distinct-IsDistinct xs (ground arith) a)

  -- Collecting loses nothing of a sequence without duplicates.
  pub length-from_list : (xs : List K) → IsDistinct xs → length (from_list xs) ≡ length xs
  unfolding from_list
  length-from_list [] h = refl
  length-from_list (x ∷ xs) h = ground (
    arith,
    length-insert x (from_list xs) (from_list-IsAscending xs),
    contains-from_list x xs,
    not-contains-tail x xs h,
    length-from_list xs (IsDistinct-tail x xs h),
  )

  -- Collecting never adds an element.
  pub length-from_list_le : (xs : List K) → length (from_list xs) ≤ length xs
  unfolding from_list
  length-from_list_le [] = omega arith
  length-from_list_le (x ∷ xs) =
      ground
        (arith, length-insert x (from_list xs) (from_list-IsAscending xs), length-from_list_le xs)

  count-take : (n : ℕ) (a : K) (xs : List K) → count a (take n xs) ≤ count a xs
  count-take zero a xs = omega arith
  count-take (suc n) a [] = omega arith
  count-take (suc n) a (x ∷ xs) = ground (arith, count-take n a xs)

  pub IsDistinct-take : (n : ℕ) (xs : List K) → IsDistinct xs → IsDistinct (take n xs)
  IsDistinct-take n xs h a = omega (arith, h a, count-take n a xs)

  pub contains-take :
      (n : ℕ) (a : K) (xs : List K) → contains a (take n xs) ≡ true → contains a xs ≡ true
  contains-take zero a xs h = cc
  contains-take (suc n) a [] h = cc
  contains-take (suc n) a (x ∷ xs) h = ground (arith, contains-take n a xs)

  -- A rearrangement holds each element as often, and is as long.
  pub count-perm : {xs ys : List K} → Permᴰ xs ys → (a : K) → count a xs ≡ count a ys
  count-perm Permᴰ.nil a = refl
  count-perm (Permᴰ.cons {a = x} {b = y} {l₁ = xs} {l₂ = ys} e p) a =
      ground (arith, e, count-perm p a)
  count-perm (Permᴰ.swap {a = x} {b = y} {a' = u} {b' = v} {l = l} e f) a = ground (arith, e, f)
  count-perm (Permᴰ.trans p q) a = cc (count-perm p a, count-perm q a)

  pub IsDistinct-perm : {xs ys : List K} → Permᴰ xs ys → IsDistinct ys → IsDistinct xs
  IsDistinct-perm p h a = omega (arith, count-perm p a, h a)

  pub contains-perm :
      {xs ys : List K} → Permᴰ xs ys → (a : K) → contains a xs ≡ true → contains a ys ≡ true
  contains-perm Permᴰ.nil a h = h
  contains-perm (Permᴰ.cons {a = x} {b = y} {l₁ = xs} {l₂ = ys} e p) a h =
      ground (arith, e, contains-perm p a)
  contains-perm (Permᴰ.swap {a = x} {b = y} {a' = u} {b' = v} {l = l} e f) a h =
      ground (arith, e, f)
  contains-perm (Permᴰ.trans p q) a h = contains-perm q a (contains-perm p a h)

  pub All-contains {κ} :
      (P : K → Type κ) (a : K) (xs : List K) → All P xs → contains a xs ≡ true → P a
  All-contains P a [] h k = cc
  All-contains P a (x ∷ xs) h k = elim (Bool-cases (a =? x)) [
    | inl e ↦ subst P (sym ((=?_iff a x).0 e)) h.0
    | inr e ↦ All-contains P a xs h.1 (rw e at k)
  ]

pub length-perm {ℓ} : {K : Type ℓ} {xs ys : List K} → Permᴰ xs ys → length xs ≡ length ys
length-perm Permᴰ.nil = refl
length-perm (Permᴰ.cons e p) = omega (arith, length-perm p)
length-perm (Permᴰ.swap e f) = refl
length-perm (Permᴰ.trans p q) = omega (arith, length-perm p, length-perm q)

module _ {ℓ κ} {A : Type ℓ} {B : Type κ} ⦃a : Ord A⦄ ⦃b : Ord B⦄ (f : A → B) (g : B → A)
    (back : (x : A) → g (f x) ≡ x) where
  count-map : (y : B) (xs : List A) → count y (map f xs) ≤ count (g y) xs
  count-map y [] = omega arith
  count-map y (x ∷ xs) = ground (arith, count-map y xs, b.cmp-eq y (f x), a.cmp-eq (g y) x, back x)

  -- The members of an image are the images of the members.
  pub contains-map :
      (y : B) (xs : List A)
      → contains y (map f xs) ≡ true
      → (y ≡ f (g y)) × (contains (g y) xs ≡ true)
  contains-map y [] h = cc
  contains-map y (x ∷ xs) h =
      ground (arith, contains-map y xs, b.cmp-eq y (f x), a.cmp-eq (g y) x, back x)

  pub contains-map_of :
      (x : A) (xs : List A) → contains x xs ≡ true → contains (f x) (map f xs) ≡ true
  contains-map_of x [] h = cc
  contains-map_of x (z ∷ xs) h =
      ground (arith, contains-map_of x xs, b.cmp-eq (f x) (f z), a.cmp-eq x z)

  -- An injective function keeps distinct elements distinct.
  pub IsDistinct-map : (xs : List A) → IsDistinct xs → IsDistinct (map f xs)
  IsDistinct-map xs h y = omega (arith, count-map y xs, h (g y))

-- ===== src/Ord/Instances.antt =====
-- The orders in use, each with its laws.
use Prim.Native.Nat.{Ordering, compare}
use Prim.Native.Nat.Ordering.{lt, eq, gt}
use evm_rpc_canister.Ord.{Ord, swap}
use evm_rpc_canister.Prelude.{ℕ, ◌≡◌, ◌↔◌, refl, ap, List, [], ◌∷◌, Option, none, some, arith}

pub compare-eq : (a b : ℕ) → (compare a b ≡ eq) ↔ (a ≡ b)
compare-eq a b = ground arith

pub compare-swap : (a b : ℕ) → compare b a ≡ swap (compare a b)
compare-swap a b = ground arith

pub compare_trans : (a b c : ℕ) → compare a b ≡ lt → compare b c ≡ lt → compare a c ≡ lt
compare_trans a b c = ground arith

instance abbrev pub nat_ord : Ord ℕ
nat_ord = record {
  cmp = compare;
  cmp-eq = compare-eq;
  cmp-swap = compare-swap;
  cmp-trans = compare_trans;
}

-- `Ordering::then`
abbrev pub chain : Ordering → Ordering → Ordering
chain eq y = y
chain lt y = lt
chain gt y = gt

module _ {ℓ κ} {A : Type ℓ} {B : Type κ} ⦃a : Ord A⦄ ⦃b : Ord B⦄ where
  pub pair_cmp : A × B → A × B → Ordering
  pair_cmp x y = chain (a.cmp x.0 y.0) (b.cmp x.1 y.1)

  pub pair_cmp-eq : (x y : A × B) → (pair_cmp x y ≡ eq) ↔ (x ≡ y)
  unfolding pair_cmp
  pair_cmp-eq x y = ground (arith, a.cmp-eq x.0 y.0, b.cmp-eq x.1 y.1)

  pub pair_cmp-swap : (x y : A × B) → pair_cmp y x ≡ swap (pair_cmp x y)
  unfolding pair_cmp
  pair_cmp-swap x y = ground (arith, a.cmp-swap x.0 y.0, b.cmp-swap x.1 y.1)

  pub pair_cmp_trans : (x y z : A × B) → pair_cmp x y ≡ lt → pair_cmp y z ≡ lt → pair_cmp x z ≡ lt
  unfolding pair_cmp
  pair_cmp_trans x y z = ground (
    arith,
    a.cmp-eq x.0 y.0,
    a.cmp-eq y.0 z.0,
    a.cmp-eq x.0 z.0,
    a.cmp-trans x.0 y.0 z.0,
    b.cmp-trans x.1 y.1 z.1,
  )

  instance unfoldable pub pair_ord : Ord (A × B)
  unfolding pair_cmp
  pair_ord = record {
    cmp = pair_cmp;
    cmp-eq = pair_cmp-eq;
    cmp-swap = pair_cmp-swap;
    cmp-trans = pair_cmp_trans;
  }

module _ {ℓ} {A : Type ℓ} ⦃a : Ord A⦄ where
  pub list_cmp : List A → List A → Ordering
  list_cmp [] [] = eq
  list_cmp [] (y ∷ ys) = lt
  list_cmp (x ∷ xs) [] = gt
  list_cmp (x ∷ xs) (y ∷ ys) = chain (a.cmp x y) (list_cmp xs ys)

  pub list_cmp-eq : (x y : List A) → (list_cmp x y ≡ eq) ↔ (x ≡ y)
  unfolding list_cmp
  list_cmp-eq [] [] = ground arith
  list_cmp-eq [] (y ∷ ys) = ground arith
  list_cmp-eq (x ∷ xs) [] = ground arith
  list_cmp-eq (x ∷ xs) (y ∷ ys) = ground (arith, a.cmp-eq x y, list_cmp-eq xs ys)

  pub list_cmp-swap : (x y : List A) → list_cmp y x ≡ swap (list_cmp x y)
  unfolding list_cmp
  list_cmp-swap [] [] = refl
  list_cmp-swap [] (y ∷ ys) = refl
  list_cmp-swap (x ∷ xs) [] = refl
  list_cmp-swap (x ∷ xs) (y ∷ ys) = ground (arith, a.cmp-swap x y, list_cmp-swap xs ys)

  pub list_cmp_trans : (x y z : List A) → list_cmp x y ≡ lt → list_cmp y z ≡ lt → list_cmp x z ≡ lt
  unfolding list_cmp
  list_cmp_trans x y [] h k =
      elim y as (λ w. list_cmp w [] ≡ lt → list_cmp x [] ≡ lt) [ [] ↦ λ e. cc | w ∷ ws ↦ λ e. cc ] k
  list_cmp_trans [] y (z ∷ zs) h k = refl
  list_cmp_trans (x ∷ xs) [] (z ∷ zs) h k = cc
  list_cmp_trans (x ∷ xs) (y ∷ ys) (z ∷ zs) h k =
      ground (
        arith,
        a.cmp-eq x y,
        a.cmp-eq y z,
        a.cmp-eq x z,
        a.cmp-trans x y z,
        list_cmp_trans xs ys zs,
      )

  instance unfoldable pub list_ord : Ord (List A)
  unfolding list_cmp
  list_ord = record {
    cmp = list_cmp;
    cmp-eq = list_cmp-eq;
    cmp-swap = list_cmp-swap;
    cmp-trans = list_cmp_trans;
  }

  -- `None` is below every `Some`
  pub option_cmp : Option A → Option A → Ordering
  option_cmp none none = eq
  option_cmp none (some y) = lt
  option_cmp (some x) none = gt
  option_cmp (some x) (some y) = a.cmp x y

  pub option_cmp-eq : (x y : Option A) → (option_cmp x y ≡ eq) ↔ (x ≡ y)
  unfolding option_cmp
  option_cmp-eq none none = ground arith
  option_cmp-eq none (some y) = ground arith
  option_cmp-eq (some x) none = ground arith
  option_cmp-eq (some x) (some y) = ground (arith, a.cmp-eq x y)

  pub option_cmp-swap : (x y : Option A) → option_cmp y x ≡ swap (option_cmp x y)
  unfolding option_cmp
  option_cmp-swap none none = refl
  option_cmp-swap none (some y) = refl
  option_cmp-swap (some x) none = refl
  option_cmp-swap (some x) (some y) = a.cmp-swap x y

  pub option_cmp_trans :
      (x y z : Option A) → option_cmp x y ≡ lt → option_cmp y z ≡ lt → option_cmp x z ≡ lt
  unfolding option_cmp
  option_cmp_trans none none none h k = h
  option_cmp_trans none none (some z) h k = refl
  option_cmp_trans none (some y) none h k = cc
  option_cmp_trans none (some y) (some z) h k = refl
  option_cmp_trans (some x) none none h k = h
  option_cmp_trans (some x) none (some z) h k = cc
  option_cmp_trans (some x) (some y) none h k = cc
  option_cmp_trans (some x) (some y) (some z) h k = a.cmp-trans x y z h k

  instance unfoldable pub option_ord : Ord (Option A)
  unfolding option_cmp
  option_ord = record {
    cmp = option_cmp;
    cmp-eq = option_cmp-eq;
    cmp-swap = option_cmp-swap;
    cmp-trans = option_cmp_trans;
  }

module _ {ℓ κ} {A : Type ℓ} {B : Type κ} (key : A → B) (of_key : B → Option A) where
  -- A type whose values are read back from their keys is ordered as its keys are.
  pub key_injective : ((x : A) → of_key (key x) ≡ some x) → (x y : A) → key x ≡ key y → x ≡ y
  key_injective back x y e = cc (back x, back y, ap of_key e)

module _ {ℓ κ} {A : Type ℓ} {B : Type κ} ⦃b : Ord B⦄ where
  pub key_cmp : (A → B) → A → A → Ordering
  key_cmp key x y = b.cmp (key x) (key y)

  module _ (key : A → B) (inj : (x y : A) → key x ≡ key y → x ≡ y) where
    pub key_cmp-eq : (x y : A) → (key_cmp key x y ≡ eq) ↔ (x ≡ y)
    unfolding key_cmp
    key_cmp-eq x y = (
      λ h. inj x y ((b.cmp-eq (key x) (key y)).0 h),
      λ h. (b.cmp-eq (key x) (key y)).1 (ap key h),
    )

    unfoldable pub key_ord : Ord A
    unfolding key_cmp
    key_ord = record {
      cmp = key_cmp key;
      cmp-eq = key_cmp-eq;
      cmp-swap = λ x y. b.cmp-swap (key x) (key y);
      cmp-trans = λ x y z. b.cmp-trans (key x) (key y) (key z);
    }

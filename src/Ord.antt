-- ===== src/Ord.antt =====
-- Rust's `Ord` with its laws (`==` of an `Ord` type is read as `≡`), and the instances that
-- `#[derive(Ord)]` and the standard library give: numbers, pairs, sequences, options, and types
-- compared through an injective key.
pub mod Instances
pub mod Sort
use Prim.Native.Nat.{Ordering}
use Prim.Native.Nat.Ordering.{lt, eq, gt}
use evm_rpc_canister.Prelude.{◌≡◌, ◌↔◌, Bool, true, false, refl, arith}

-- `Ordering::reverse`
abbrev pub swap : Ordering → Ordering
swap lt = gt
swap eq = eq
swap gt = lt

pub record Ord {ℓ} (K : Type ℓ) : Type ℓ where
  pub cmp : K → K → Ordering
  pub cmp-eq : (a b : K) → (cmp a b ≡ eq) ↔ (a ≡ b)
  pub cmp-swap : (a b : K) → cmp b a ≡ swap (cmp a b)
  pub cmp-trans : (a b c : K) → cmp a b ≡ lt → cmp b c ≡ lt → cmp a c ≡ lt

module _ {ℓ} {K : Type ℓ} ⦃o : Ord K⦄ where
  infix 50 ◌=?◌
  -- `PartialEq::eq`
  abbrev pub ◌=?◌ : K → K → Bool
  a =? b = elim (o.cmp a b) [ eq ↦ true | _ ↦ false ]

  pub =?_iff : (a b : K) → ((a =? b) ≡ true) ↔ (a ≡ b)
  =?_iff a b = ground (arith, o.cmp-eq a b)

  pub =?_refl : (a : K) → (a =? a) ≡ true
  =?_refl a = ground (arith, o.cmp-eq a a)

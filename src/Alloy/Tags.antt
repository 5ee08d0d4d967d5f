-- ===== src/Alloy/Tags.antt =====
-- Block tags in both directions (`evm_rpc_types/src/request/alloy.rs`).
use evm_rpc_canister.Prelude.{
  ℕ, ◌^◌, ◌≡◌, ◌↔◌, ◌⊎◌, refl, ap, ◌∙◌, sym, true, false, ltb, ok, err, map_ok, ok-inj, inl, inr,
  arith,
}
use evm_rpc_canister.Types.Error.{RpcResult}
use evm_rpc_canister.Numbers.Nat256.{Nat256, Nat256-eq}
use evm_rpc_canister.Types.Request as Candid
use mathlib.Core.HLevel.{is_prop→PathP}
use mathlib.Core.Bool.{Bool-set}
use evm_rpc_canister.Alloy.{Word, u64, word_bound, Uint, Primitives, nat256_of_uint_value}
use evm_rpc_canister.Alloy.Requests.{
  BlockNumberOrTag, latest, finalized, safe, earliest, pending, number, block_tag_from, checked_u64,
  uint64_try_from, block_number_or_tag_try_from,
}

pub Uint-eq : {w : Word} {a b : Uint w} → a.value ≡ b.value → a ≡ b
Uint-eq {w} {a} {b} e = λ i. record {
  value = e i;
  below =
      is_prop→PathP (λ j. ltb (e j) (word_bound w) ≡ true)
        (λ j. Bool-set (ltb (e j) (word_bound w)) true) a.below b.below i;
}

checked_u64-value :
    (A : Primitives) (n : Uint u64) (m : ℕ) (c : (ltb m (2 ^ 64) ≡ true) ⊎ (ltb m (2 ^ 64) ≡ false))
    → m ≡ n.value
    → checked_u64 A m c ≡ ok n
unfolding checked_u64
checked_u64-value A n m (inl h) e = ap ok (Uint-eq e)
checked_u64-value A n m (inr h) e = absurd (ground (arith, h, e, n.below))

checked_u64-ok :
    (A : Primitives) (n : Uint u64) (m : ℕ) (c : (ltb m (2 ^ 64) ≡ true) ⊎ (ltb m (2 ^ 64) ≡ false))
    → checked_u64 A m c ≡ ok n
    → m ≡ n.value
unfolding checked_u64
checked_u64-ok A n m (inl h) e = ap (λ u. u.value) (ok-inj e)
checked_u64-ok A n m (inr h) e = cc e

module _ (A : Primitives) where
  back : (b : BlockNumberOrTag) → block_number_or_tag_try_from A (block_tag_from A b) ≡ ok b
  unfolding block_number_or_tag_try_from block_tag_from uint64_try_from
  back latest = refl
  back finalized = refl
  back safe = refl
  back earliest = refl
  back pending = refl
  back (number n) = ap (map_ok number) (checked_u64-value A n _ _ (nat256_of_uint_value A n))

  forth_number :
      (v : Nat256) (b : BlockNumberOrTag) (r : RpcResult (Uint u64))
      → uint64_try_from A v ≡ r
      → map_ok number r ≡ ok b
      → Candid.number v ≡ block_tag_from A b
  unfolding uint64_try_from block_tag_from
  forth_number v b (err e) q h = cc h
  forth_number v b (ok n) q h =
      ap Candid.number (Nat256-eq (checked_u64-ok A n v.nat _ q ∙ sym (nat256_of_uint_value A n)))
      ∙ ap (block_tag_from A) (ok-inj h)

  forth :
      (t : Candid.BlockTag) (b : BlockNumberOrTag)
      → block_number_or_tag_try_from A t ≡ ok b
      → t ≡ block_tag_from A b
  unfolding block_number_or_tag_try_from block_tag_from uint64_try_from
  forth Candid.latest b h = ap (block_tag_from A) (ok-inj h)
  forth Candid.finalized b h = ap (block_tag_from A) (ok-inj h)
  forth Candid.safe b h = ap (block_tag_from A) (ok-inj h)
  forth Candid.earliest b h = ap (block_tag_from A) (ok-inj h)
  forth Candid.pending b h = ap (block_tag_from A) (ok-inj h)
  forth (Candid.number v) b h = forth_number v b _ refl h

  -- A block tag is read as a tag of alloy exactly if it is what that tag is written as: so every tag
  -- of alloy comes back as it was, and a block number of 2 ^ 64 or more is refused.
  pub block_tag_iff :
      (t : Candid.BlockTag) (b : BlockNumberOrTag)
      → (block_number_or_tag_try_from A t ≡ ok b) ↔ (t ≡ block_tag_from A b)
  block_tag_iff t b = (forth t b, λ e. ap (block_number_or_tag_try_from A) e ∙ back b)

-- ===== src/Alloy/Agreement.antt =====
-- When services agree in alloy's types (`evm_rpc_types/src/result/alloy.rs`).
use evm_rpc_canister.Prelude.{
  List, [], ◌∷◌, map, All, is_empty, false, ◌≡◌, ◌↔◌, ◌∙◌, refl, ap, none, some, ok, ◌>>=◌,
  ok-Passed, ok-inj,
}
use evm_rpc_canister.Types.Service.{RpcService}
use evm_rpc_canister.Types.Error.{RpcResult}
use evm_rpc_canister.Types.MultiResult.{PartialEq, consistent, inconsistent, and_then}
use evm_rpc_canister.Types.MultiResult.Agreement.{AllGave, IsUnanimous, collapse_iff}
use evm_rpc_canister.Types.Response as Candid
use evm_rpc_canister.Numbers.Hex.{Hex32}
use evm_rpc_canister.Alloy.{Primitives, b256_of_hex32}
use evm_rpc_canister.Alloy.Responses.{Block, block_try_from}
use evm_rpc_canister.Alloy.Results.{block_into, sent_hash, status_into}
use evm_rpc_canister.Alloy.Lossless.{b256_of_hex32-inj, settled, block_try_from-inj}

module _ {A B : Type 0} (f : A → RpcResult B) (b : B) where
  -- Each service gave a value that becomes `b`.
  abbrev pub AllBecame : List (RpcService × RpcResult A) → Type 0
  AllBecame v = All (λ entry. (a : A) × (entry.1 ≡ ok a) × (f a ≡ ok b)) v

  abbrev stepped : List (RpcService × RpcResult A) → List (RpcService × RpcResult B)
  stepped v = map (λ entry. (entry.0, entry.1 >>= f)) v

  AllGave-became : (v : List (RpcService × RpcResult A)) → AllGave (ok b) (stepped v) → AllBecame v
  AllGave-became [] h = tt
  AllGave-became (e ∷ v) h = (ok-Passed e.1 f h.0, AllGave-became v h.1)

  AllBecame-gave : (v : List (RpcService × RpcResult A)) → AllBecame v → AllGave (ok b) (stepped v)
  AllBecame-gave [] h = tt
  AllBecame-gave (e ∷ v) h = (ap (λ r. r >>= f) h.0.1 ∙ h.0.2, AllBecame-gave v h.1)

  is_empty-stepped : (v : List (RpcService × RpcResult A)) → is_empty (stepped v) ≡ is_empty v
  is_empty-stepped [] = refl
  is_empty-stepped (e ∷ v) = refl

  pub and_then_iff :
      ⦃p : PartialEq (RpcResult B)⦄ (v : List (RpcService × RpcResult A))
      → (and_then f (inconsistent v) ≡ consistent (ok b)) ↔ ((is_empty v ≡ false) × AllBecame v)
  unfolding and_then
  and_then_iff v =
      let c = (collapse_iff (stepped v) (ok b)).0 in
      let e = is_empty-stepped v in
      (
        λ h. let u = c.0 h in (cc (u.0, e), AllGave-became v u.1),
        λ u. c.1 (cc (u.0, e), AllBecame-gave v u.1),
      )

module _ (A : Primitives) where
  sent-inj :
      (s : Candid.SendRawTransactionStatus) (g : Hex32)
      → sent_hash A s ≡ ok (b256_of_hex32 A g)
      → s ≡ Candid.sent_ok (some g)
  unfolding sent_hash
  sent-inj (Candid.sent_ok (some h)) g e =
      ap (λ x. Candid.sent_ok (some x)) (b256_of_hex32-inj A (ok-inj e))
  sent-inj (Candid.sent_ok none) g e = cc e
  sent-inj Candid.insufficient_funds g e = cc e
  sent-inj Candid.nonce_too_low g e = cc e
  sent-inj Candid.nonce_too_high g e = cc e

  sent-gives : (g : Hex32) → sent_hash A (Candid.sent_ok (some g)) ≡ ok (b256_of_hex32 A g)
  unfolding sent_hash
  sent-gives g = refl

  became-gave :
      (g : Hex32) (v : List (RpcService × RpcResult Candid.SendRawTransactionStatus))
      → AllBecame (sent_hash A) (b256_of_hex32 A g) v
      → AllGave (ok (Candid.sent_ok (some g))) v
  became-gave g [] h = tt
  became-gave g (e ∷ v) h = (h.0.1 ∙ ap ok (sent-inj h.0.0 g h.0.2), became-gave g v h.1)

  gave-became :
      (g : Hex32) (v : List (RpcService × RpcResult Candid.SendRawTransactionStatus))
      → AllGave (ok (Candid.sent_ok (some g))) v
      → AllBecame (sent_hash A) (b256_of_hex32 A g) v
  gave-became g [] h = tt
  gave-became g (e ∷ v) h = ((Candid.sent_ok (some g), h.0, sent-gives g), gave-became g v h.1)

  -- Of the results of several services, the hash of a transaction is the one result in alloy's type
  -- exactly if there is a result and every service accepted the transaction with this hash: a status
  -- that is an error, or no hash, never becomes one.
  pub status_into_iff :
      ⦃p : PartialEq (RpcResult A.B256)⦄ (g : Hex32)
      (v : List (RpcService × RpcResult Candid.SendRawTransactionStatus))
      → (status_into A (inconsistent v) ≡ consistent (ok (b256_of_hex32 A g)))
        ↔ IsUnanimous (ok (Candid.sent_ok (some g))) v
  unfolding status_into
  status_into_iff g v =
      let c = and_then_iff (sent_hash A) (b256_of_hex32 A g) v in
      (λ h. let u = c.0 h in (u.0, became-gave g v u.1), λ u. c.1 (u.0, gave-became g v u.1))

  became-settled :
      (a : Block A) (b : Candid.Block)
      → block_try_from A b ≡ ok a
      → (v : List (RpcService × RpcResult Candid.Block)) → AllBecame (block_try_from A) a v
      → All (λ entry. (c : Candid.Block) × (entry.1 ≡ ok c) × (settled A c ≡ settled A b)) v
  became-settled a b k [] h = tt
  became-settled a b k (e ∷ v) h =
      ((h.0.0, h.0.1, block_try_from-inj A h.0.0 b a h.0.2 k), became-settled a b k v h.1)

  -- Where the results of several services are one block of alloy, there is a block of the interface
  -- that becomes it, and every service gave that block, but that one may have given no difficulty
  -- where another gave zero.
  pub block_into-agreed :
      ⦃p : PartialEq (RpcResult (Block A))⦄ (a : Block A)
      (v : List (RpcService × RpcResult Candid.Block))
      → block_into A (inconsistent v) ≡ consistent (ok a)
      → (b : Candid.Block) × (block_try_from A b ≡ ok a)
        × All (λ entry. (c : Candid.Block) × (entry.1 ≡ ok c) × (settled A c ≡ settled A b)) v
  unfolding block_into
  block_into-agreed a [] h = cc (((and_then_iff (block_try_from A) a []).0 h).0)
  block_into-agreed a (e ∷ v) h =
      let u = ((and_then_iff (block_try_from A) a (e ∷ v)).0 h).1 in
      (u.0.0, u.0.2, became-settled a u.0.0 u.0.2 (e ∷ v) u)

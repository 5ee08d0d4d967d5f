-- ===== src/Alloy/Lossless.antt =====
-- What alloy's types keep of single values and of blocks: different ones stay different
-- (`evm_rpc_types/src/alloy.rs` and `evm_rpc_types/src/response/alloy.rs`).
use evm_rpc_canister.Prelude.{
  ℕ, ◌≡◌, ◌↔◌, ◌∙◌, refl, ap, sym, Option, none, some, List, map, ok, unwrap_or,
}
use evm_rpc_canister.Numbers.Nat256.{Nat256, Nat256-eq, nat256_zero}
use evm_rpc_canister.Numbers.Hex.{Hex20, Hex32, Hex256, Hex}
use evm_rpc_canister.Types.Response as Candid
use evm_rpc_canister.Conversion.{map_some}
use evm_rpc_canister.Conversion.Lossless.{undone-inj, map-back}
use evm_rpc_canister.Alloy.{
  Primitives, u256_of, u256_of-inj, b256_of_hex32, hex32_of_b256, address_of_hex20,
  hex20_of_address, bytes_of_hex, hex_of_bytes, bloom_of_hex256, hex256_of_bloom,
}
use evm_rpc_canister.Alloy.Responses.{Block, block_try_from}
use evm_rpc_canister.Alloy.Validation.{shown_difficulty}
use evm_rpc_canister.Alloy.Blocks.{IsConvertible, Describes, block-ok, block-converts}

map_some-inj {ℓ κ} :
    {A : Type ℓ} {B : Type κ} (f : A → B)
    → ((a b : A) → f a ≡ f b → a ≡ b)
    → (o p : Option A) → map_some f o ≡ map_some f p
    → o ≡ p
map_some-inj f inj none none e = refl
map_some-inj f inj none (some b) e = cc e
map_some-inj f inj (some a) none e = cc e
map_some-inj f inj (some a) (some b) e = ap some (inj a b (cc e))

module _ (A : Primitives) where
  hex32_back : (h : Hex32) → hex32_of_b256 A (b256_of_hex32 A h) ≡ h
  unfolding hex32_of_b256 b256_of_hex32
  hex32_back h = λ i. record { bytes = A.b256_back h.bytes i }

  hex20_back : (h : Hex20) → hex20_of_address A (address_of_hex20 A h) ≡ h
  unfolding hex20_of_address address_of_hex20
  hex20_back h = λ i. record { bytes = A.address_back h.bytes i }

  hex_back : (h : Hex) → hex_of_bytes A (bytes_of_hex A h) ≡ h
  unfolding hex_of_bytes bytes_of_hex
  hex_back h = λ i. record { bytes = A.bytes_back h.bytes i }

  hex256_back : (h : Hex256) → hex256_of_bloom A (bloom_of_hex256 A h) ≡ h
  unfolding hex256_of_bloom bloom_of_hex256
  hex256_back h = λ i. record { bytes = A.bloom_back h.bytes i }

  pub b256_of_hex32-inj : {g h : Hex32} → b256_of_hex32 A g ≡ b256_of_hex32 A h → g ≡ h
  b256_of_hex32-inj = undone-inj (b256_of_hex32 A) (hex32_of_b256 A) hex32_back

  hashes-inj : {g h : List Hex32} → map (b256_of_hex32 A) g ≡ map (b256_of_hex32 A) h → g ≡ h
  hashes-inj =
      undone-inj (map (b256_of_hex32 A)) (map (hex32_of_b256 A))
        (map-back (b256_of_hex32 A) (hex32_of_b256 A) hex32_back)

  -- A block, with a difficulty of zero where there is none
  abbrev pub settled : Candid.Block → Candid.Block
  settled b = record b { difficulty = some (unwrap_or b.difficulty nat256_zero) }

  settled_value : (d : Option Nat256) → (unwrap_or d nat256_zero).nat ≡ shown_difficulty d
  unfolding nat256_zero
  settled_value none = refl
  settled_value (some d) = refl

  module _ (b c : Candid.Block) (a : Block A) (p : Describes A b a) (q : Describes A c a) where
    number_of_both : (v w : Nat256) {n : ℕ} → n ≡ v.nat → n ≡ w.nat → v ≡ w
    number_of_both v w e f = Nat256-eq (sym e ∙ f)

    difficulty_of_both : unwrap_or b.difficulty nat256_zero ≡ unwrap_or c.difficulty nat256_zero
    difficulty_of_both = Nat256-eq (
        settled_value b.difficulty
        ∙ (sym p.difficulty ∙ (q.difficulty ∙ sym (settled_value c.difficulty))))

    Describes-settled : settled b ≡ settled c
    Describes-settled = λ i. record {
      base_fee_per_gas =
          map_some-inj (λ v. v.nat) (λ v w e. Nat256-eq e) b.base_fee_per_gas c.base_fee_per_gas
            (sym p.base_fee_per_gas ∙ q.base_fee_per_gas) i;
      number = number_of_both b.number c.number p.number q.number i;
      difficulty = some (difficulty_of_both i);
      extra_data =
          undone-inj (bytes_of_hex A) (hex_of_bytes A) hex_back (sym p.extra_data ∙ q.extra_data) i;
      gas_limit = number_of_both b.gas_limit c.gas_limit p.gas_limit q.gas_limit i;
      gas_used = number_of_both b.gas_used c.gas_used p.gas_used q.gas_used i;
      hash = b256_of_hex32-inj (sym p.hash ∙ q.hash) i;
      logs_bloom =
          undone-inj (bloom_of_hex256 A) (hex256_of_bloom A) hex256_back
            (sym p.logs_bloom ∙ q.logs_bloom) i;
      miner =
          undone-inj (address_of_hex20 A) (hex20_of_address A) hex20_back
            (sym p.beneficiary ∙ q.beneficiary) i;
      mix_hash = b256_of_hex32-inj (sym p.mix_hash ∙ q.mix_hash) i;
      nonce = number_of_both b.nonce c.nonce p.nonce q.nonce i;
      parent_hash = b256_of_hex32-inj (sym p.parent_hash ∙ q.parent_hash) i;
      receipts_root = b256_of_hex32-inj (sym p.receipts_root ∙ q.receipts_root) i;
      sha3_uncles = b256_of_hex32-inj (sym p.ommers_hash ∙ q.ommers_hash) i;
      size = u256_of-inj A {v = b.size} {w = c.size} (cc (p.size, q.size)) i;
      state_root = b256_of_hex32-inj (sym p.state_root ∙ q.state_root) i;
      timestamp = number_of_both b.timestamp c.timestamp p.timestamp q.timestamp i;
      total_difficulty =
          map_some-inj (u256_of A) (λ v w e. u256_of-inj A e) b.total_difficulty c.total_difficulty
            (sym p.total_difficulty ∙ q.total_difficulty) i;
      transactions = hashes-inj (sym p.transactions ∙ q.transactions) i;
      transactions_root =
          map_some-inj (b256_of_hex32 A) (λ g h e. b256_of_hex32-inj e) b.transactions_root
            c.transactions_root (p.transactions_root ∙ sym q.transactions_root) i;
      uncles = hashes-inj (sym p.uncles ∙ q.uncles) i;
    }

  -- A block becomes a block of alloy exactly if it has a root of its transactions, a difficulty if it
  -- is older than the Paris upgrade and none or zero if it is not, and its number, gas, timestamp,
  -- nonce and base fee fit in 64 bits.
  pub block_try_from_iff :
      (b : Candid.Block) → ((a : Block A) × (block_try_from A b ≡ ok a)) ↔ IsConvertible b
  block_try_from_iff b = (λ h. (block-ok A b h.0 h.1).0, block-converts A b)

  -- Blocks that become the same block of alloy are the same in every field, but that a difficulty of
  -- zero stands for a missing one.
  pub block_try_from-inj :
      (b c : Candid.Block) (a : Block A)
      → block_try_from A b ≡ ok a
      → block_try_from A c ≡ ok a
      → settled b ≡ settled c
  block_try_from-inj b c a h k = Describes-settled b c a (block-ok A b a h).1 (block-ok A c a k).1

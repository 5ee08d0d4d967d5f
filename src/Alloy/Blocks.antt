-- ===== src/Alloy/Blocks.antt =====
-- Which blocks become alloy's blocks, and that these tell the same (`TryFrom<Block>` of
-- `evm_rpc_types/src/response/alloy.rs`).
use evm_rpc_canister.Prelude.{
  ◌^◌, ◌<◌, ◌≡◌, refl, ap, Option, none, some, List, map, text, transpose, subst, ok, ok-Passed,
  >>=-succeeds, ok-inj, arith,
}
use evm_rpc_canister.Numbers.Nat256.{Nat256, nat256_to_u64}
use evm_rpc_canister.Numbers.Hex.{Hex32}
use evm_rpc_canister.Types.Response as Candid
use evm_rpc_canister.Conversion.{map_some}
use evm_rpc_canister.Alloy.{
  u64, Primitives, u256_of, b256_of_hex32, b64_try_from, address_of_hex20, bytes_of_hex,
  bloom_of_hex256,
}
use evm_rpc_canister.Alloy.Responses.{
  Block, try_from_nat256, validate_transactions_root, validate_difficulty, block_try_from,
}
use evm_rpc_canister.Alloy.Validation.{
  Fits, DifficultyRule, shown_difficulty, try_from_nat256-ok, try_from_nat256-fits, transpose-ok,
  transpose-Fits, difficulty-ok, difficulty-accepted,
}

-- The blocks that alloy's type takes: they have a root of their transactions, the difficulty of their
-- time, and numbers of at most 64 bits where alloy has words.
pub record IsConvertible (b : Candid.Block) : Type 0 where
  pub rooted : (root : Hex32) × (b.transactions_root ≡ some root)
  pub ruled : DifficultyRule b.number.nat b.difficulty
  pub number_fits : b.number.nat < 2 ^ 64
  pub gas_limit_fits : b.gas_limit.nat < 2 ^ 64
  pub gas_used_fits : b.gas_used.nat < 2 ^ 64
  pub timestamp_fits : b.timestamp.nat < 2 ^ 64
  pub nonce_fits : b.nonce.nat < 2 ^ 64
  pub base_fee_fits : Fits u64 b.base_fee_per_gas

module _ (A : Primitives) where
  abbrev hashes : List Hex32 → List A.B256
  hashes l = map (b256_of_hex32 A) l

  -- What alloy's block has of a block
  pub record Describes (b : Candid.Block) (a : Block A) : Type 0 where
    pub hash : a.header.hash ≡ b256_of_hex32 A b.hash
    pub parent_hash : a.header.inner.parent_hash ≡ b256_of_hex32 A b.parent_hash
    pub ommers_hash : a.header.inner.ommers_hash ≡ b256_of_hex32 A b.sha3_uncles
    pub beneficiary : a.header.inner.beneficiary ≡ address_of_hex20 A b.miner
    pub state_root : a.header.inner.state_root ≡ b256_of_hex32 A b.state_root
    pub transactions_root :
        map_some (b256_of_hex32 A) b.transactions_root ≡ some a.header.inner.transactions_root
    pub receipts_root : a.header.inner.receipts_root ≡ b256_of_hex32 A b.receipts_root
    pub logs_bloom : a.header.inner.logs_bloom ≡ bloom_of_hex256 A b.logs_bloom
    pub difficulty : A.uint.value a.header.inner.difficulty ≡ shown_difficulty b.difficulty
    pub number : a.header.inner.number ≡ b.number.nat
    pub gas_limit : a.header.inner.gas_limit ≡ b.gas_limit.nat
    pub gas_used : a.header.inner.gas_used ≡ b.gas_used.nat
    pub timestamp : a.header.inner.timestamp ≡ b.timestamp.nat
    pub extra_data : a.header.inner.extra_data ≡ bytes_of_hex A b.extra_data
    pub mix_hash : a.header.inner.mix_hash ≡ b256_of_hex32 A b.mix_hash
    pub nonce : A.b64_into a.header.inner.nonce ≡ b.nonce.nat
    pub base_fee_per_gas :
        a.header.inner.base_fee_per_gas ≡ map_some (λ v. v.nat) b.base_fee_per_gas
    pub total_difficulty : a.header.total_difficulty ≡ map_some (u256_of A) b.total_difficulty
    pub size : a.header.size ≡ some (u256_of A b.size)
    pub uncles : a.uncles ≡ hashes b.uncles
    pub transactions : a.transactions ≡ hashes b.transactions

  b64-ok :
      (v : Nat256) {n : A.B64} → b64_try_from A v ≡ ok n → (v.nat < 2 ^ 64) × (A.b64_into n ≡ v.nat)
  unfolding b64_try_from nat256_to_u64
  b64-ok v h = ground (arith, h, A.b64_back v.nat)

  b64-fits : (v : Nat256) → v.nat < 2 ^ 64 → b64_try_from A v ≡ ok (A.b64_from v.nat)
  unfolding b64_try_from nat256_to_u64
  b64-fits v h = ground (arith, h)

  root-ok :
      (o : Option Hex32) {h : A.B256}
      → validate_transactions_root A o ≡ ok h
      → (map_some (b256_of_hex32 A) o ≡ some h) × ((root : Hex32) × (o ≡ some root))
  unfolding validate_transactions_root
  root-ok none e = cc e
  root-ok (some r) e = (ap some (ok-inj e), (r, refl))

  root-given : (root : Hex32) → validate_transactions_root A (some root) ≡ ok (b256_of_hex32 A root)
  unfolding validate_transactions_root
  root-given root = refl

  pub block-ok :
      (b : Candid.Block) (a : Block A) → block_try_from A b ≡ ok a → IsConvertible b × Describes b a
  unfolding block_try_from
  block-ok b a h =
      let r = ok-Passed (validate_transactions_root A b.transactions_root) _ h in
      let d = ok-Passed (validate_difficulty A b.number b.difficulty) _ r.2 in
      let n = ok-Passed (try_from_nat256 A u64 b.number (text "number")) _ d.2 in
      let l = ok-Passed (try_from_nat256 A u64 b.gas_limit (text "gas_limit")) _ n.2 in
      let g = ok-Passed (try_from_nat256 A u64 b.gas_used (text "gas_used")) _ l.2 in
      let t = ok-Passed (try_from_nat256 A u64 b.timestamp (text "timestamp")) _ g.2 in
      let c = ok-Passed (b64_try_from A b.nonce) _ t.2 in
      let f =
        ok-Passed
          (transpose (λ v. try_from_nat256 A u64 v (text "base_fee_per_gas")) b.base_fee_per_gas) _
          c.2 in
      let root = root-ok b.transactions_root r.1 in
      let ruled = difficulty-ok A b.number b.difficulty d.1 in
      let number = try_from_nat256-ok A u64 b.number (text "number") n.1 in
      let gas_limit = try_from_nat256-ok A u64 b.gas_limit (text "gas_limit") l.1 in
      let gas_used = try_from_nat256-ok A u64 b.gas_used (text "gas_used") g.1 in
      let timestamp = try_from_nat256-ok A u64 b.timestamp (text "timestamp") t.1 in
      let nonce = b64-ok b.nonce c.1 in
      let base_fee = transpose-ok A u64 b.base_fee_per_gas (text "base_fee_per_gas") f.1 in
      (
        record {
          rooted = root.1;
          ruled = ruled.0;
          number_fits = number.0;
          gas_limit_fits = gas_limit.0;
          gas_used_fits = gas_used.0;
          timestamp_fits = timestamp.0;
          nonce_fits = nonce.0;
          base_fee_fits = base_fee.0;
        },
        subst (Describes b) (ok-inj f.2) (record {
          hash = refl;
          parent_hash = refl;
          ommers_hash = refl;
          beneficiary = refl;
          state_root = refl;
          transactions_root = root.0;
          receipts_root = refl;
          logs_bloom = refl;
          difficulty = ruled.1;
          number = number.1;
          gas_limit = gas_limit.1;
          gas_used = gas_used.1;
          timestamp = timestamp.1;
          extra_data = refl;
          mix_hash = refl;
          nonce = nonce.1;
          base_fee_per_gas = base_fee.1;
          total_difficulty = refl;
          size = refl;
          uncles = refl;
          transactions = refl;
        }),
      )

  pub block-converts :
      (b : Candid.Block) → IsConvertible b → (a : Block A) × (block_try_from A b ≡ ok a)
  unfolding block_try_from
  block-converts b v =
      let d = difficulty-accepted A b.number b.difficulty v.ruled in
      let root : validate_transactions_root A b.transactions_root
          ≡ ok (b256_of_hex32 A v.rooted.0) =
        rw v.rooted.1 (root-given v.rooted.0) in
      >>=-succeeds (validate_transactions_root A b.transactions_root) _ _ root (
        >>=-succeeds (validate_difficulty A b.number b.difficulty) _ _ d.1 (
          >>=-succeeds (try_from_nat256 A u64 b.number (text "number")) _ _
            (try_from_nat256-fits A u64 b.number (text "number") v.number_fits)
            (>>=-succeeds (try_from_nat256 A u64 b.gas_limit (text "gas_limit")) _ _
              (try_from_nat256-fits A u64 b.gas_limit (text "gas_limit") v.gas_limit_fits)
              (>>=-succeeds (try_from_nat256 A u64 b.gas_used (text "gas_used")) _ _
                (try_from_nat256-fits A u64 b.gas_used (text "gas_used") v.gas_used_fits)
                (>>=-succeeds (try_from_nat256 A u64 b.timestamp (text "timestamp")) _ _
                  (try_from_nat256-fits A u64 b.timestamp (text "timestamp") v.timestamp_fits)
                  (>>=-succeeds (b64_try_from A b.nonce) _ _ (b64-fits b.nonce v.nonce_fits) (
                    >>=-succeeds
                      (transpose (λ v. try_from_nat256 A u64 v (text "base_fee_per_gas"))
                        b.base_fee_per_gas)
                      _ _
                      (transpose-Fits A u64 b.base_fee_per_gas (text "base_fee_per_gas")
                        v.base_fee_fits)
                      (_, refl))))))))

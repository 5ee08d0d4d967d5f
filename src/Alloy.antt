-- ===== src/Alloy.antt =====
-- The conversions between the types of the interface and those of the library alloy, an optional
-- feature of `evm_rpc_types`: here those of single values (`evm_rpc_types/src/alloy.rs`). The types of
-- alloy_primitives are parameters.
pub mod Requests
pub mod Responses
pub mod Results
pub mod Validation
pub mod Blocks
pub mod Lossless
pub mod Agreement
pub mod Receipts
pub mod Tags
use evm_rpc_canister.Prelude.{
  ℕ, ◌^◌, ◌<◌, ◌≤◌, ◌≡◌, ◌↔◌, ◌∙◌, refl, ap, true, List, length, Text, Option, none, some, Result,
  ok, err, ◌>>=◌, ltb, arith,
}
use evm_rpc_canister.Prelude.Exec
use evm_rpc_canister.Prelude.Exec.{Exec, returns, returned, returned-eq, has_returned}
use evm_rpc_canister.Numbers.{U8, Array, BigUint, Ethnum, be_value}
use evm_rpc_canister.Numbers.Nat256.{
  Nat256, Nat256-eq, into_be_bytes, into_be_bytes-value, from_be_bytes, from_be_bytes_value,
  nat256_to_u64, nat256_from_word, nat256_word, nat256_word_value,
}
use evm_rpc_canister.Numbers.Hex.{Hex20, Hex32, Hex256, Hex}
use evm_rpc_canister.Types.Error.{RpcResult}

-- Rust's wide words
pub data Word : Type 0 where
  u64 u128 : Word

abbrev pub word_bound : Word → ℕ
word_bound u64 = 2 ^ 64
word_bound u128 = 2 ^ 128

-- A word of alloy, as a number with its bound
pub record Uint (word : Word) : Type 0 where
  pub value : ℕ
  pub below : ltb value (word_bound word) ≡ true

-- alloy_primitives. `U256` is described as the 256-bit numbers of ethnum are; its `new` of 0 and of 1
-- is `U256::ZERO` and `U256::ONE`. `LogData::new` refuses more than four topics. `overflow` is the
-- text of num_bigint's error for a number that does not fit in a machine word.
pub record Primitives : Type 1 where
  pub big_uint : BigUint
  pub overflow : Text
  pub Address : Type 0
  pub address_from : Array 20 → Address
  pub address_into_array : Address → Array 20
  pub address_back : (a : Array 20) → address_into_array (address_from a) ≡ a
  pub address_again : (a : Address) → address_from (address_into_array a) ≡ a
  pub B256 : Type 0
  pub b256_from : Array 32 → B256
  pub b256_array : B256 → Array 32
  pub b256_back : (a : Array 32) → b256_array (b256_from a) ≡ a
  pub b256_again : (h : B256) → b256_from (b256_array h) ≡ h
  pub Bloom : Type 0
  pub bloom_from : Array 256 → Bloom
  pub bloom_into_array : Bloom → Array 256
  pub bloom_back : (a : Array 256) → bloom_into_array (bloom_from a) ≡ a
  pub Bytes : Type 0
  pub bytes_from_iter : List U8 → Bytes
  pub bytes_to_vec : Bytes → List U8
  pub bytes_back : (bs : List U8) → bytes_to_vec (bytes_from_iter bs) ≡ bs
  pub bytes_again : (b : Bytes) → bytes_from_iter (bytes_to_vec b) ≡ b
  pub B64 : Type 0
  pub b64_from : ℕ → B64
  pub b64_into : B64 → ℕ
  pub b64_into-lt : (b : B64) → b64_into b < 2 ^ 64
  pub b64_back : (n : ℕ) → n < 2 ^ 64 → b64_into (b64_from n) ≡ n
  pub uint : Ethnum
  pub LogData : Type 0
  pub log_data_new : List B256 → Bytes → Option LogData
  pub log_data_topics : LogData → List B256
  pub log_data_bytes : LogData → Bytes
  pub log_data_new-none :
      (ts : List B256) (b : Bytes) → (log_data_new ts b ≡ none) ↔ (4 < length ts)
  pub log_data_new-some :
      (ts : List B256) (b : Bytes) (d : LogData)
      → log_data_new ts b ≡ some d
      → (log_data_topics d ≡ ts) × (log_data_bytes d ≡ b)

module _ (A : Primitives) where
  open A use {Address, B256, Bloom, Bytes, B64}

  abbrev pub U256 : Type 0
  U256 = A.uint.U256

  -- `From<Hex20> for Address` and back
  unfoldable pub address_of_hex20 : Hex20 → Address
  address_of_hex20 value = A.address_from value.bytes

  unfoldable pub hex20_of_address : Address → Hex20
  hex20_of_address value = record { bytes = A.address_into_array value }

  -- `From<Hex32> for B256` and back
  unfoldable pub b256_of_hex32 : Hex32 → B256
  b256_of_hex32 value = A.b256_from value.bytes

  unfoldable pub hex32_of_b256 : B256 → Hex32
  hex32_of_b256 value = record { bytes = A.b256_array value }

  -- `From<Hex> for Bytes` and back
  unfoldable pub bytes_of_hex : Hex → Bytes
  bytes_of_hex value = A.bytes_from_iter value.bytes

  unfoldable pub hex_of_bytes : Bytes → Hex
  hex_of_bytes value = record { bytes = A.bytes_to_vec value }

  -- `From<Hex256> for Bloom` and back
  unfoldable pub bloom_of_hex256 : Hex256 → Bloom
  bloom_of_hex256 value = A.bloom_from value.bytes

  unfoldable pub hex256_of_bloom : Bloom → Hex256
  hex256_of_bloom value = record { bytes = A.bloom_into_array value }

  -- `UintTryFrom<Nat256> for U256`, which is always `Ok` and might panic in `into_be_bytes`
  unfoldable pub uint_try_from : Nat256 → Exec U256
  unfolding into_be_bytes
  uint_try_from value =
      Exec.◌>>=◌ (into_be_bytes A.big_uint value) (λ bytes. returns (A.uint.from_be_bytes bytes))

  -- `From<U256> for Nat256`
  unfoldable pub nat256_from_u256 : U256 → Exec Nat256
  unfolding from_be_bytes
  nat256_from_u256 value = from_be_bytes A.big_uint (A.uint.to_be_bytes value)

  -- `TryFrom<Nat256> for B64`
  unfoldable pub b64_try_from : Nat256 → RpcResult B64
  unfolding nat256_to_u64
  b64_try_from value = nat256_to_u64 A.overflow value >>= λ n. ok (A.b64_from n)

  -- `From<B64> for Nat256`
  unfoldable pub nat256_from_b64 : B64 → Exec Nat256
  unfolding nat256_from_word
  nat256_from_b64 value = nat256_from_word A.big_uint (A.b64_into value)

  pub uint_try_from-value :
      (v : Nat256) → (u : U256) × (uint_try_from v ≡ returns u) × (A.uint.value u ≡ v.nat)
  unfolding uint_try_from
  uint_try_from-value v =
      let w = into_be_bytes-value A.big_uint v in
      (
        A.uint.from_be_bytes w.0,
        ap (λ m. Exec.◌>>=◌ m (λ bytes. returns (A.uint.from_be_bytes bytes))) w.1,
        A.uint.from_be_bytes_value w.0 ∙ w.2,
      )

  pub uint_try_from-returns : (v : Nat256) → has_returned (uint_try_from v) ≡ true
  uint_try_from-returns v = ap has_returned (uint_try_from-value v).1

  -- `U256::from` of a `Nat256` as a function, as it never panics
  unfoldable pub u256_of : Nat256 → U256
  unfolding uint_try_from returned
  u256_of v = returned (uint_try_from v) (uint_try_from-returns v)

  pub u256_of_value : (v : Nat256) → A.uint.value (u256_of v) ≡ v.nat
  unfolding u256_of
  u256_of_value v =
      let w = uint_try_from-value v in
      let same : u256_of v ≡ w.0 =
        cc (w.1, returned-eq (uint_try_from v) (uint_try_from-returns v)) in
      ap A.uint.value same ∙ w.2

  pub u256_of-inj : {v w : Nat256} → u256_of v ≡ u256_of w → v ≡ w
  u256_of-inj {v} {w} e = Nat256-eq (cc (u256_of_value v, u256_of_value w, ap A.uint.value e))

  pub nat256_from_u256-value :
      (u : U256) → (v : Nat256) × (nat256_from_u256 u ≡ returns v) × (v.nat ≡ A.uint.value u)
  unfolding nat256_from_u256
  nat256_from_u256-value u =
      let r = from_be_bytes_value A.big_uint (A.uint.to_be_bytes u) in
      (r.0, r.1, r.2 ∙ A.uint.to_be_bytes_value u)

  pub nat256_from_u256-returns : (u : U256) → has_returned (nat256_from_u256 u) ≡ true
  nat256_from_u256-returns u = ap has_returned (nat256_from_u256-value u).1

  -- `Nat256::from` of a `U256` as a function, as it never panics
  unfoldable pub nat256_of_u256 : U256 → Nat256
  unfolding nat256_from_u256 returned
  nat256_of_u256 u = returned (nat256_from_u256 u) (nat256_from_u256-returns u)

  pub nat256_of_u256_value : (u : U256) → (nat256_of_u256 u).nat ≡ A.uint.value u
  unfolding nat256_of_u256
  nat256_of_u256_value u =
      let w = nat256_from_u256-value u in
      let same : nat256_of_u256 u ≡ w.0 =
        cc (w.1, returned-eq (nat256_from_u256 u) (nat256_from_u256-returns u)) in
      ap (λ v. v.nat) same ∙ w.2

  pub word-lt : (w : Word) (n : Uint w) → n.value < 2 ^ 128
  word-lt u64 n = ground (arith, n.below)
  word-lt u128 n = ground (arith, n.below)

  -- `Nat256::from` of a word as a function, as it never panics
  unfoldable pub nat256_of_uint : {w : Word} → Uint w → Nat256
  nat256_of_uint {w} n = nat256_word A.big_uint n.value (word-lt w n)

  pub nat256_of_uint_value : {w : Word} (n : Uint w) → (nat256_of_uint n).nat ≡ n.value
  unfolding nat256_of_uint
  nat256_of_uint_value {w} n = nat256_word_value A.big_uint n.value (word-lt w n)

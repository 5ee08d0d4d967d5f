-- ===== src/Numbers.antt =====
-- Bytes, 256-bit numbers and hexadecimal texts: what `evm_rpc_types/src/lib.rs`,
-- `src/rpc_client/amount/mod.rs` and `src/rpc_client/json/mod.rs` share. Numbers of any size are those
-- of num_bigint, 256-bit numbers those of ethnum: parameters.
pub mod Positional
pub mod Nat256
pub mod Amount
pub mod Hex
use evm_rpc_canister.Prelude.{
  ℕ, zero, suc, ◌+◌, ◌-◌, ◌*◌, ◌%◌, ◌^◌, ◌≤◌, ◌<◌, ◌≡◌, ◌↔◌, Bool, true, ltb, leb, ◌==◌, List, [],
  ◌∷◌, ◌++◌, length, ap, refl, arith, Text, Option, none, some, Result, ok, err, Bool-cases, inl,
  inr, text, length-append,
}
use mathlib.Core.HLevel.{is_prop→PathP}
use mathlib.Core.Bool.{Bool-set}
use evm_rpc_canister.Prelude.Exec.{Exec, returns, traps, ◌>>=◌, has_returned}

-- `u8`
pub record U8 : Type 0 where
  pub value : ℕ
  pub below : ltb value 256 ≡ true

-- `[u8; n]`
pub record Array (n : ℕ) : Type 0 where
  pub elements : List U8
  pub size : (length elements == n) ≡ true

pub U8-eq : {a b : U8} → a.value ≡ b.value → a ≡ b
U8-eq {a} {b} e = λ i. record {
  value = e i;
  below =
      is_prop→PathP (λ j. ltb (e j) 256 ≡ true) (λ j. Bool-set (ltb (e j) 256) true) a.below b.below
        i;
}

pub Array-eq : {n : ℕ} {a b : Array n} → a.elements ≡ b.elements → a ≡ b
Array-eq {n} {a} {b} e = λ i. record {
  elements = e i;
  size =
      is_prop→PathP (λ j. (length (e j) == n) ≡ true) (λ j. Bool-set (length (e j) == n) true)
        a.size b.size i;
}

-- The number that bytes are in the positional system of base 256, the first byte being the highest.
unfoldable pub value_from : ℕ → List U8 → ℕ
value_from acc [] = acc
value_from acc (b ∷ bs) = value_from (acc * 256 + b.value) bs

abbrev pub be_value : List U8 → ℕ
be_value bs = value_from 0 bs

-- num_bigint's numbers are `ℕ`. `to_bytes_be` gives the bytes of a number from the highest, as few as
-- possible but at least one, `to_bytes_le` the same in the other order.
pub record BigUint : Type 0 where
  pub to_bytes_be : ℕ → List U8
  pub to_bytes_le : ℕ → List U8
  pub from_bytes_be : List U8 → ℕ
  pub to_bytes_be-value : (n : ℕ) → be_value (to_bytes_be n) ≡ n
  pub to_bytes_be-fewest : (n k : ℕ) → n < 256 ^ suc k → length (to_bytes_be n) ≤ suc k
  pub to_bytes_le-length : (n : ℕ) → length (to_bytes_le n) ≡ length (to_bytes_be n)
  pub from_bytes_be_value : (bs : List U8) → from_bytes_be bs ≡ be_value bs

-- `u256` of ethnum, with the number that it stands for
pub record Ethnum : Type 1 where
  pub U256 : Type 0
  pub value : U256 → ℕ
  pub value-inj : (a b : U256) → value a ≡ value b → a ≡ b
  pub value-below : (a : U256) → value a < 2 ^ 256
  pub from_be_bytes : Array 32 → U256
  pub to_be_bytes : U256 → Array 32
  pub new : ℕ → U256
  pub from_be_bytes_value : (bs : Array 32) → value (from_be_bytes bs) ≡ be_value bs.elements
  pub new_value : (n : ℕ) → n < 2 ^ 128 → value (new n) ≡ n
  pub to_be_bytes_value : (a : U256) → be_value (to_be_bytes a).elements ≡ value a

-- The bound of 256-bit numbers
abbrev pub u256_bound : ℕ
u256_bound = 2 ^ 256

-- What the types of JSON-RPC are made of: numbers, the addresses of ic_ethereum_types, which wrap 20
-- bytes, and 64-bit floating-point numbers.
pub record Platform : Type 1 where
  pub big_uint : BigUint
  pub ethnum : Ethnum
  pub Address : Type 0
  pub address_new : Array 20 → Address
  pub address_into_bytes : Address → Array 20
  pub address_into_bytes-address_new : (a : Array 20) → address_into_bytes (address_new a) ≡ a
  pub address_new-address_into_bytes : (a : Address) → address_new (address_into_bytes a) ≡ a
  pub F64 : Type 0

unfoldable pub zeros : ℕ → List U8
zeros zero = []
zeros (suc n) = record { value = 0; below = refl } ∷ zeros n

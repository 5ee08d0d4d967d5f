-- ===== src/Conversion/Lossless.antt =====
-- Conversions that lose nothing (`src/candid_rpc/cketh_conversion.rs`): the way back from each result.
pub mod Results
pub mod Arguments
use evm_rpc_canister.Prelude.{
  ◌≡◌, refl, ap, sym, ◌∙◌, Option, none, some, List, [], ◌∷◌, map, true, ◌==◌, length, arith,
}
use evm_rpc_canister.Numbers.{U8, Array, Array-eq, Platform}
use evm_rpc_canister.Numbers.Nat256.{Nat256}
use evm_rpc_canister.Numbers.Amount.{Amount, amount_of-nat256_of, nat256_of-amount_of}
use evm_rpc_canister.Numbers.Hex.{
  Byte, HexByte, Hex20, byte_from, into_byte, first_byte, hex_byte_from,
}
use evm_rpc_canister.JsonRpc.{JsonByte, json_byte_new, json_byte_into}
use evm_rpc_canister.Conversion.{
  map_some, quantity, number_of, address_of, hex20_of, json_byte_of, hex_byte_of,
}

module _ {ℓ κ} {A : Type ℓ} {B : Type κ} (f : A → B) (g : B → A)
    (back : (a : A) → g (f a) ≡ a) where
  -- What can be undone is injective, also on options and sequences.
  pub undone-inj : {a b : A} → f a ≡ f b → a ≡ b
  undone-inj {a} {b} e = sym (back a) ∙ (ap g e ∙ back b)

  pub map_some-back : (o : Option A) → map_some g (map_some f o) ≡ o
  map_some-back none = refl
  map_some-back (some a) = ap some (back a)

  pub map-back : (xs : List A) → map g (map f xs) ≡ xs
  map-back [] = refl
  map-back (x ∷ xs) = λ i. back x i ∷ map-back xs i

first_of_one : (bs : List U8) (h : (length bs == 1) ≡ true) → first_byte bs h ∷ [] ≡ bs
unfolding first_byte
first_of_one [] h = cc
first_of_one (b ∷ []) h = refl
first_of_one (b ∷ c ∷ bs) h = absurd (ground (arith, h))

byte_from-into_byte : (b : Byte) → byte_from (into_byte b) ≡ b
unfolding byte_from into_byte
byte_from-into_byte b = λ i. record {
  bytes =
      Array-eq {n = 1} {a = (byte_from (into_byte b)).bytes} {b = b.bytes}
        (first_of_one b.bytes.elements b.bytes.size) i;
}

pub json_byte_back : (b : JsonByte) → json_byte_of (hex_byte_of b) ≡ b
unfolding json_byte_new json_byte_into hex_byte_from byte_from into_byte first_byte
json_byte_back b = λ i. record { byte = byte_from-into_byte b.byte i }

pub hex_byte_back : (b : HexByte) → hex_byte_of (json_byte_of b) ≡ b
unfolding json_byte_new json_byte_into hex_byte_from byte_from into_byte first_byte
hex_byte_back b = λ i. record { byte = byte_from-into_byte b.byte i }

module _ (P : Platform) where
  pub quantity_back : (a : Amount P.ethnum) → quantity P (number_of P a) ≡ a
  quantity_back = amount_of-nat256_of P.big_uint P.ethnum

  pub number_back : (v : Nat256) → number_of P (quantity P v) ≡ v
  number_back = nat256_of-amount_of P.big_uint P.ethnum

  pub address_back : (a : P.Address) → address_of P (hex20_of P a) ≡ a
  address_back = P.address_new-address_into_bytes

  pub hex20_back : (a : Hex20) → hex20_of P (address_of P a) ≡ a
  hex20_back a = λ i. record { bytes = P.address_into_bytes-address_new a.bytes i }

-- ===== src/Conversion.antt =====
-- `src/candid_rpc/cketh_conversion.rs`: the conversions between the types of callers and those of
-- JSON-RPC.
pub mod Arguments
pub mod Results
pub mod Lossless
pub mod Agreement
use evm_rpc_canister.Prelude.{Option, none, some}
use evm_rpc_canister.Numbers.{Platform}
use evm_rpc_canister.Numbers.Nat256.{Nat256}
use evm_rpc_canister.Numbers.Amount.{Amount, amount_of, nat256_of}
use evm_rpc_canister.Numbers.Hex.{HexByte, Hex20, Hex32, Hex256, Hex, hex_byte_from, into_byte}
use evm_rpc_canister.JsonRpc.{
  FixedSizeData, Hash, LogsBloom, StorageKey, JsonByte, json_byte_new, json_byte_into,
}
use evm_rpc_canister.JsonRpc.Responses.{Data}

-- `Option::map`
abbrev pub map_some {ℓ κ} : {A : Type ℓ} {B : Type κ} → (A → B) → Option A → Option B
map_some f none = none
map_some f (some a) = some (f a)

-- Wrappers of bytes, moved from one type into the other
abbrev pub hex32_of_hash : Hash → Hex32
hex32_of_hash h = record { bytes = h.bytes }

abbrev pub hex32_of_data : FixedSizeData → Hex32
hex32_of_data d = record { bytes = d.bytes }

abbrev pub hex256_of_bloom : LogsBloom → Hex256
hex256_of_bloom b = record { bytes = b.bytes }

abbrev pub fixed_of_hex32 : Hex32 → FixedSizeData
fixed_of_hex32 t = record { bytes = t.bytes }

abbrev pub storage_key_of : Hex32 → StorageKey
storage_key_of t = record { bytes = t.bytes }

-- `into_hash`
unfoldable pub into_hash : Hex32 → Hash
into_hash value = record { bytes = value.bytes }

-- `from_data` and `into_data`
unfoldable pub from_data : Data → Hex
from_data value = record { bytes = value.bytes }

unfoldable pub into_data : Hex → Data
into_data value = record { bytes = value.bytes }

abbrev pub json_byte_of : HexByte → JsonByte
json_byte_of t = json_byte_new (into_byte t.byte)

abbrev pub hex_byte_of : JsonByte → HexByte
hex_byte_of b = hex_byte_from (json_byte_into b)

module _ (P : Platform) where
  abbrev pub quantity : Nat256 → Amount P.ethnum
  quantity = amount_of P.big_uint P.ethnum

  abbrev pub number_of : Amount P.ethnum → Nat256
  number_of = nat256_of P.big_uint P.ethnum

  abbrev pub address_of : Hex20 → P.Address
  address_of a = P.address_new a.bytes

  abbrev pub hex20_of : P.Address → Hex20
  hex20_of a = record { bytes = P.address_into_bytes a }

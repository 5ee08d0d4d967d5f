-- ===== src/JsonRpc.antt =====
-- `src/rpc_client/json/mod.rs`: the fixed-size byte arrays of the types of JSON-RPC, which `bytes_array`
-- declares.
pub mod Requests
pub mod Responses
pub mod Status
use evm_rpc_canister.Numbers.{U8, Array}
use evm_rpc_canister.Numbers.Hex.{Byte, byte_from, into_byte}

pub record FixedSizeData : Type 0 where
  pub bytes : Array 32

pub record Hash : Type 0 where
  pub bytes : Array 32

pub record LogsBloom : Type 0 where
  pub bytes : Array 256

pub record StorageKey : Type 0 where
  pub bytes : Array 32

pub record JsonByte : Type 0 where
  pub byte : Byte

-- `JsonByte::new` and `JsonByte::into_byte`
unfoldable pub json_byte_new : U8 → JsonByte
unfolding byte_from
json_byte_new value = record { byte = byte_from value }

unfoldable pub json_byte_into : JsonByte → U8
unfolding into_byte
json_byte_into b = into_byte b.byte

-- ===== src/Types/Response.antt =====
-- `evm_rpc_types/src/response/mod.rs`: the answers to the methods. Floating-point numbers are a
-- parameter.
use evm_rpc_canister.Prelude.{Bool, Option, List}
use evm_rpc_canister.Numbers.Nat256.{Nat256}
use evm_rpc_canister.Numbers.Hex.{HexByte, Hex20, Hex32, Hex256, Hex}

pub record FeeHistory (F64 : Type 0) : Type 0 where
  pub oldest_block : Nat256
  pub base_fee_per_gas : List Nat256
  pub gas_used_ratio : List F64
  pub reward : List (List Nat256)

pub record LogEntry : Type 0 where
  pub address : Hex20
  pub topics : List Hex32
  pub data_bytes : Hex
  pub block_number : Option Nat256
  pub transaction_hash : Option Hex32
  pub transaction_index : Option Nat256
  pub block_hash : Option Hex32
  pub log_index : Option Nat256
  pub removed : Bool

pub record TransactionReceipt : Type 0 where
  pub block_hash : Hex32
  pub block_number : Nat256
  pub effective_gas_price : Nat256
  pub gas_used : Nat256
  pub cumulative_gas_used : Nat256
  pub status : Option Nat256
  pub root : Option Hex32
  pub transaction_hash : Hex32
  pub contract_address : Option Hex20
  pub from : Hex20
  pub logs : List LogEntry
  pub logs_bloom : Hex256
  pub to : Option Hex20
  pub transaction_index : Nat256
  pub tx_type : HexByte

pub record Block : Type 0 where
  pub base_fee_per_gas : Option Nat256
  pub number : Nat256
  pub difficulty : Option Nat256
  pub extra_data : Hex
  pub gas_limit : Nat256
  pub gas_used : Nat256
  pub hash : Hex32
  pub logs_bloom : Hex256
  pub miner : Hex20
  pub mix_hash : Hex32
  pub nonce : Nat256
  pub parent_hash : Hex32
  pub receipts_root : Hex32
  pub sha3_uncles : Hex32
  pub size : Nat256
  pub state_root : Hex32
  pub timestamp : Nat256
  pub total_difficulty : Option Nat256
  pub transactions : List Hex32
  pub transactions_root : Option Hex32
  pub uncles : List Hex32

pub data SendRawTransactionStatus : Type 0 where
  sent_ok : Option Hex32 → SendRawTransactionStatus
  insufficient_funds nonce_too_low nonce_too_high : SendRawTransactionStatus

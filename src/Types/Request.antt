-- ===== src/Types/Request.antt =====
-- `evm_rpc_types/src/request/mod.rs`: the arguments of the methods.
use evm_rpc_canister.Prelude.{Option, none, List}
use evm_rpc_canister.Numbers.{U8}
use evm_rpc_canister.Numbers.Nat256.{Nat256}
use evm_rpc_canister.Numbers.Hex.{HexByte, Hex20, Hex32, Hex}

pub data BlockTag : Type 0 where
  latest finalized safe earliest pending : BlockTag
  number : Nat256 → BlockTag

-- `BlockTag::default`
unfoldable pub block_tag_default : BlockTag
block_tag_default = latest

pub record FeeHistoryArgs : Type 0 where
  pub block_count : Nat256
  pub newest_block : BlockTag
  pub reward_percentiles : Option (List U8)

-- `From<(T, U)> for FeeHistoryArgs`, the parts being converted
unfoldable pub fee_history_args_from : Nat256 → BlockTag → FeeHistoryArgs
fee_history_args_from block_count newest_block = record {
  block_count = block_count;
  newest_block = newest_block;
  reward_percentiles = none;
}

pub record GetLogsArgs : Type 0 where
  pub from_block : Option BlockTag
  pub to_block : Option BlockTag
  pub addresses : List Hex20
  pub topics : Option (List (List Hex32))

pub record GetTransactionCountArgs : Type 0 where
  pub address : Hex20
  pub block : BlockTag

-- `From<(T, U)> for GetTransactionCountArgs`, the parts being converted
unfoldable pub get_transaction_count_args_from : Hex20 → BlockTag → GetTransactionCountArgs
get_transaction_count_args_from address block = record { address = address; block = block }

pub record AccessListEntry : Type 0 where
  pub address : Hex20
  pub storage_keys : List Hex32

pub record AccessList : Type 0 where
  pub entries : List AccessListEntry

pub record TransactionRequest : Type 0 where
  pub tx_type : Option HexByte
  pub nonce : Option Nat256
  pub to : Option Hex20
  pub from : Option Hex20
  pub gas : Option Nat256
  pub value : Option Nat256
  pub input : Option Hex
  pub gas_price : Option Nat256
  pub max_priority_fee_per_gas : Option Nat256
  pub max_fee_per_gas : Option Nat256
  pub max_fee_per_blob_gas : Option Nat256
  pub access_list : Option AccessList
  pub blob_versioned_hashes : Option (List Hex32)
  pub blobs : Option (List Hex)
  pub chain_id : Option Nat256

pub record CallArgs : Type 0 where
  pub transaction : TransactionRequest
  pub block : Option BlockTag

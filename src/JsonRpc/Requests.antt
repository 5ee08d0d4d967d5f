-- ===== src/JsonRpc/Requests.antt =====
-- `src/rpc_client/json/requests.rs`: the parameters of requests to the services.
use evm_rpc_canister.Prelude.{Bool, Option, List, [], Text, text}
use evm_rpc_canister.Numbers.{U8, Platform}
use evm_rpc_canister.Numbers.Amount.{Amount}
use evm_rpc_canister.JsonRpc.{FixedSizeData, Hash, StorageKey, JsonByte}
use evm_rpc_canister.JsonRpc.Responses.{Data}

pub data BlockTag : Type 0 where
  latest safe finalized earliest pending : BlockTag

-- `Display for BlockTag`
unfoldable pub block_tag_text : BlockTag → Text
unfolding text
block_tag_text latest = text "latest"
block_tag_text safe = text "safe"
block_tag_text finalized = text "finalized"
block_tag_text earliest = text "earliest"
block_tag_text pending = text "pending"

module _ (P : Platform) where
  open P use {ethnum, Address}

  pub data BlockSpec : Type 0 where
    number : Amount ethnum → BlockSpec
    tag : BlockTag → BlockSpec

  -- `BlockSpec::default`
  unfoldable pub block_spec_default : BlockSpec
  block_spec_default = tag latest

  pub record GetTransactionCountParams : Type 0 where
    pub address : Address
    pub block : BlockSpec

  pub record GetLogsParam : Type 0 where
    pub from_block : BlockSpec
    pub to_block : BlockSpec
    pub address : List Address
    pub topics : List (List FixedSizeData)

  pub record FeeHistoryParams : Type 0 where
    pub block_count : Amount ethnum
    pub highest_block : BlockSpec
    pub reward_percentiles : List U8

  pub record GetBlockByNumberParams : Type 0 where
    pub block : BlockSpec
    pub include_full_transactions : Bool

  pub record AccessListItem : Type 0 where
    pub address : Address
    pub storage_keys : List StorageKey

  pub record AccessList : Type 0 where
    pub items : List AccessListItem

  -- `AccessList::new`, also its default
  unfoldable pub access_list_new : AccessList
  access_list_new = record { items = [] }

  pub record TransactionRequest : Type 0 where
    pub tx_type : Option JsonByte
    pub nonce : Option (Amount ethnum)
    pub to : Option Address
    pub from : Option Address
    pub gas : Option (Amount ethnum)
    pub value : Option (Amount ethnum)
    pub input : Option Data
    pub gas_price : Option (Amount ethnum)
    pub max_priority_fee_per_gas : Option (Amount ethnum)
    pub max_fee_per_gas : Option (Amount ethnum)
    pub max_fee_per_blob_gas : Option (Amount ethnum)
    pub access_list : Option AccessList
    pub blob_versioned_hashes : Option (List Hash)
    pub blobs : Option (List Data)
    pub chain_id : Option (Amount ethnum)

  pub record EthCallParams : Type 0 where
    pub transaction : TransactionRequest
    pub block : BlockSpec

  -- The parameters as the tuples that are serialized
  unfoldable pub get_transaction_count_tuple : GetTransactionCountParams → Address × BlockSpec
  get_transaction_count_tuple params = (params.address, params.block)

  unfoldable pub fee_history_tuple : FeeHistoryParams → Amount ethnum × BlockSpec × List U8
  fee_history_tuple value = (value.block_count, value.highest_block, value.reward_percentiles)

  unfoldable pub get_block_by_number_tuple : GetBlockByNumberParams → BlockSpec × Bool
  get_block_by_number_tuple value = (value.block, value.include_full_transactions)

  unfoldable pub eth_call_tuple : EthCallParams → TransactionRequest × BlockSpec
  eth_call_tuple value = (value.transaction, value.block)

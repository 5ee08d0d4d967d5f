-- ===== src/Conversion/Arguments.antt =====
-- The conversions of arguments (`src/candid_rpc/cketh_conversion.rs`).
use evm_rpc_canister.Prelude.{[], map, unwrap_or}
use evm_rpc_canister.Numbers.{Platform}
use evm_rpc_canister.Types.Request as Candid
use evm_rpc_canister.JsonRpc.Requests as Json
use evm_rpc_canister.Conversion.{
  map_some, quantity, address_of, fixed_of_hex32, storage_key_of, into_hash, into_data,
  json_byte_of,
}

module _ (P : Platform) where
  unfoldable pub into_block_spec : Candid.BlockTag → Json.BlockSpec P
  into_block_spec (Candid.number n) = Json.number (quantity P n)
  into_block_spec Candid.latest = Json.tag Json.latest
  into_block_spec Candid.safe = Json.tag Json.safe
  into_block_spec Candid.finalized = Json.tag Json.finalized
  into_block_spec Candid.earliest = Json.tag Json.earliest
  into_block_spec Candid.pending = Json.tag Json.pending

  unfoldable pub into_get_logs_param : Candid.GetLogsArgs → Json.GetLogsParam P
  unfolding into_block_spec Json.block_spec_default
  into_get_logs_param value = record {
    from_block = unwrap_or (map_some into_block_spec value.from_block) (Json.block_spec_default P);
    to_block = unwrap_or (map_some into_block_spec value.to_block) (Json.block_spec_default P);
    address = map (address_of P) value.addresses;
    topics = map (map fixed_of_hex32) (unwrap_or value.topics []);
  }

  unfoldable pub into_fee_history_params : Candid.FeeHistoryArgs → Json.FeeHistoryParams P
  unfolding into_block_spec
  into_fee_history_params value = record {
    block_count = quantity P value.block_count;
    highest_block = into_block_spec value.newest_block;
    reward_percentiles = unwrap_or value.reward_percentiles [];
  }

  unfoldable pub into_get_transaction_count_params :
      Candid.GetTransactionCountArgs → Json.GetTransactionCountParams P
  unfolding into_block_spec
  into_get_transaction_count_params value = record {
    address = address_of P value.address;
    block = into_block_spec value.block;
  }

  unfoldable pub access_list_item : Candid.AccessListEntry → Json.AccessListItem P
  access_list_item entry = record {
    address = address_of P entry.address;
    storage_keys = map storage_key_of entry.storage_keys;
  }

  unfoldable pub map_access_list : Candid.AccessList → Json.AccessList P
  unfolding access_list_item
  map_access_list list = record { items = map access_list_item list.entries }

  unfoldable pub into_transaction_request : Candid.TransactionRequest → Json.TransactionRequest P
  unfolding map_access_list into_hash into_data
  into_transaction_request t = record {
    tx_type = map_some json_byte_of t.tx_type;
    nonce = map_some (quantity P) t.nonce;
    to = map_some (address_of P) t.to;
    from = map_some (address_of P) t.from;
    gas = map_some (quantity P) t.gas;
    value = map_some (quantity P) t.value;
    input = map_some into_data t.input;
    gas_price = map_some (quantity P) t.gas_price;
    max_priority_fee_per_gas = map_some (quantity P) t.max_priority_fee_per_gas;
    max_fee_per_gas = map_some (quantity P) t.max_fee_per_gas;
    max_fee_per_blob_gas = map_some (quantity P) t.max_fee_per_blob_gas;
    access_list = map_some map_access_list t.access_list;
    blob_versioned_hashes = map_some (map into_hash) t.blob_versioned_hashes;
    blobs = map_some (map into_data) t.blobs;
    chain_id = map_some (quantity P) t.chain_id;
  }

  unfoldable pub into_eth_call_params : Candid.CallArgs → Json.EthCallParams P
  unfolding into_transaction_request into_block_spec Candid.block_tag_default
  into_eth_call_params value = record {
    transaction = into_transaction_request value.transaction;
    block = into_block_spec (unwrap_or value.block Candid.block_tag_default);
  }

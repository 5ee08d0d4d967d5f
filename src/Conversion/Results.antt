-- ===== src/Conversion/Results.antt =====
-- The conversions of results (`src/candid_rpc/cketh_conversion.rs`).
use evm_rpc_canister.Prelude.{Option, none, List, map, arith}
use evm_rpc_canister.Numbers.{Platform}
use evm_rpc_canister.Numbers.Nat256.{Nat256, nat256_word}
use evm_rpc_canister.Numbers.Hex.{Hex32}
use evm_rpc_canister.Types.Response as Candid
use evm_rpc_canister.JsonRpc.Responses as Json
use evm_rpc_canister.SendRaw.{SendRawTransactionResult}
use evm_rpc_canister.Conversion.{
  map_some, number_of, hex20_of, hex32_of_hash, hex32_of_data, hex256_of_bloom, hex_byte_of,
  from_data,
}

module _ (P : Platform) where
  unfoldable pub from_log_entry : Json.LogEntry P → Candid.LogEntry
  unfolding from_data
  from_log_entry value = record {
    address = hex20_of P value.address;
    topics = map hex32_of_data value.topics;
    data_bytes = from_data value.data_bytes;
    block_number = map_some (number_of P) value.block_number;
    transaction_hash = map_some hex32_of_hash value.transaction_hash;
    transaction_index = map_some (number_of P) value.transaction_index;
    block_hash = map_some hex32_of_hash value.block_hash;
    log_index = map_some (number_of P) value.log_index;
    removed = value.removed;
  }

  unfoldable pub from_log_entries : List (Json.LogEntry P) → List Candid.LogEntry
  unfolding from_log_entry
  from_log_entries value = map from_log_entry value

  unfoldable pub from_fee_history : Json.FeeHistory P → Candid.FeeHistory P.F64
  from_fee_history value = record {
    oldest_block = number_of P value.oldest_block;
    base_fee_per_gas = map (number_of P) value.base_fee_per_gas;
    gas_used_ratio = value.gas_used_ratio;
    reward = map (map (number_of P)) value.reward;
  }

  -- The status as `Nat256::from(1_u8)` or `Nat256::from(0_u8)`
  unfoldable pub status_number : Json.TransactionStatus → Nat256
  status_number Json.success = nat256_word P.big_uint 1 (omega arith)
  status_number Json.failure = nat256_word P.big_uint 0 (omega arith)

  unfoldable pub from_transaction_receipt : Json.TransactionReceipt P → Candid.TransactionReceipt
  unfolding status_number from_log_entries
  from_transaction_receipt value = record {
    block_hash = hex32_of_hash value.block_hash;
    block_number = number_of P value.block_number;
    effective_gas_price = number_of P value.effective_gas_price;
    gas_used = number_of P value.gas_used;
    cumulative_gas_used = number_of P value.cumulative_gas_used;
    status = map_some status_number value.status;
    root = map_some hex32_of_hash value.root;
    transaction_hash = hex32_of_hash value.transaction_hash;
    contract_address = map_some (hex20_of P) value.contract_address;
    from = hex20_of P value.from;
    logs = from_log_entries value.logs;
    logs_bloom = hex256_of_bloom value.logs_bloom;
    to = map_some (hex20_of P) value.to;
    transaction_index = number_of P value.transaction_index;
    tx_type = hex_byte_of value.tx_type;
  }

  unfoldable pub from_block : Json.Block P → Candid.Block
  unfolding from_data
  from_block value = record {
    base_fee_per_gas = map_some (number_of P) value.base_fee_per_gas;
    number = number_of P value.number;
    difficulty = map_some (number_of P) value.difficulty;
    extra_data = from_data value.extra_data;
    gas_limit = number_of P value.gas_limit;
    gas_used = number_of P value.gas_used;
    hash = hex32_of_hash value.hash;
    logs_bloom = hex256_of_bloom value.logs_bloom;
    miner = hex20_of P value.miner;
    mix_hash = hex32_of_hash value.mix_hash;
    nonce = number_of P value.nonce;
    parent_hash = hex32_of_hash value.parent_hash;
    receipts_root = hex32_of_hash value.receipts_root;
    sha3_uncles = hex32_of_hash value.sha3_uncles;
    size = number_of P value.size;
    state_root = hex32_of_hash value.state_root;
    timestamp = number_of P value.timestamp;
    total_difficulty = none;
    transactions = map hex32_of_hash value.transactions;
    transactions_root = map_some hex32_of_hash value.transactions_root;
    uncles = map hex32_of_hash value.uncles;
  }

unfoldable pub from_send_raw_transaction_result :
    Option Hex32 → SendRawTransactionResult → Candid.SendRawTransactionStatus
from_send_raw_transaction_result transaction_hash SendRawTransactionResult.sent_ok =
    Candid.sent_ok transaction_hash
from_send_raw_transaction_result transaction_hash SendRawTransactionResult.insufficient_funds =
    Candid.insufficient_funds
from_send_raw_transaction_result transaction_hash SendRawTransactionResult.nonce_too_low =
    Candid.nonce_too_low
from_send_raw_transaction_result transaction_hash SendRawTransactionResult.nonce_too_high =
    Candid.nonce_too_high

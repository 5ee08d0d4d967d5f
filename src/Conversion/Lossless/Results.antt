-- ===== src/Conversion/Lossless/Results.antt =====
-- The converted results tell everything that the services' results tell.
use evm_rpc_canister.Prelude.{◌≡◌, refl, Option, List, map, ◌==◌, if◌then◌else◌, arith}
use evm_rpc_canister.Numbers.{Platform}
use evm_rpc_canister.Numbers.Nat256.{Nat256, nat256_word_value}
use evm_rpc_canister.Numbers.Hex.{Hex32}
use evm_rpc_canister.SendRaw.{SendRawTransactionResult}
use evm_rpc_canister.JsonRpc.Responses as Json
use evm_rpc_canister.Types.Response as Candid
use evm_rpc_canister.Conversion.{
  map_some, quantity, address_of, into_hash, into_data, fixed_of_hex32, json_byte_of,
}
use evm_rpc_canister.Conversion.Results.{
  from_log_entry, from_log_entries, from_fee_history, status_number, from_transaction_receipt,
  from_block, from_send_raw_transaction_result,
}
use evm_rpc_canister.Conversion.Lossless.{
  undone-inj, map_some-back, map-back, json_byte_back, quantity_back, address_back,
}

module _ (P : Platform) where
  log_entry_of : Candid.LogEntry → Json.LogEntry P
  log_entry_of value = record {
    address = address_of P value.address;
    topics = map fixed_of_hex32 value.topics;
    data_bytes = into_data value.data_bytes;
    block_number = map_some (quantity P) value.block_number;
    transaction_hash = map_some into_hash value.transaction_hash;
    transaction_index = map_some (quantity P) value.transaction_index;
    block_hash = map_some into_hash value.block_hash;
    log_index = map_some (quantity P) value.log_index;
    removed = value.removed;
  }

  log_entry_back : (e : Json.LogEntry P) → log_entry_of (from_log_entry P e) ≡ e
  unfolding log_entry_of from_log_entry into_data into_hash evm_rpc_canister.Conversion.from_data
  log_entry_back e = λ i. record {
    address = address_back P e.address i;
    topics = map-back _ fixed_of_hex32 (λ _. refl) e.topics i;
    data_bytes = e.data_bytes;
    block_number = map_some-back _ (quantity P) (quantity_back P) e.block_number i;
    transaction_hash = map_some-back _ into_hash (λ _. refl) e.transaction_hash i;
    transaction_index = map_some-back _ (quantity P) (quantity_back P) e.transaction_index i;
    block_hash = map_some-back _ into_hash (λ _. refl) e.block_hash i;
    log_index = map_some-back _ (quantity P) (quantity_back P) e.log_index i;
    removed = e.removed;
  }

  fee_history_of : Candid.FeeHistory P.F64 → Json.FeeHistory P
  fee_history_of value = record {
    oldest_block = quantity P value.oldest_block;
    base_fee_per_gas = map (quantity P) value.base_fee_per_gas;
    gas_used_ratio = value.gas_used_ratio;
    reward = map (map (quantity P)) value.reward;
  }

  fee_history_back : (h : Json.FeeHistory P) → fee_history_of (from_fee_history P h) ≡ h
  unfolding fee_history_of from_fee_history
  fee_history_back h = λ i. record {
    oldest_block = quantity_back P h.oldest_block i;
    base_fee_per_gas = map-back _ (quantity P) (quantity_back P) h.base_fee_per_gas i;
    gas_used_ratio = h.gas_used_ratio;
    reward = map-back _ (map (quantity P)) (map-back _ (quantity P) (quantity_back P)) h.reward i;
  }

  status_of : Nat256 → Json.TransactionStatus
  status_of v = if v.nat == 0 then Json.failure else Json.success

  status_back : (s : Json.TransactionStatus) → status_of (status_number P s) ≡ s
  unfolding status_of status_number
  status_back Json.success = rw (nat256_word_value P.big_uint 1 (omega arith)) refl
  status_back Json.failure = rw (nat256_word_value P.big_uint 0 (omega arith)) refl

  receipt_of : Candid.TransactionReceipt → Json.TransactionReceipt P
  receipt_of value = record {
    block_hash = into_hash value.block_hash;
    block_number = quantity P value.block_number;
    effective_gas_price = quantity P value.effective_gas_price;
    cumulative_gas_used = quantity P value.cumulative_gas_used;
    gas_used = quantity P value.gas_used;
    status = map_some status_of value.status;
    root = map_some into_hash value.root;
    transaction_hash = into_hash value.transaction_hash;
    contract_address = map_some (address_of P) value.contract_address;
    from = address_of P value.from;
    logs = map log_entry_of value.logs;
    logs_bloom = record { bytes = value.logs_bloom.bytes };
    to = map_some (address_of P) value.to;
    transaction_index = quantity P value.transaction_index;
    tx_type = json_byte_of value.tx_type;
  }

  receipt_back : (r : Json.TransactionReceipt P) → receipt_of (from_transaction_receipt P r) ≡ r
  unfolding receipt_of from_transaction_receipt into_hash from_log_entries
  receipt_back r = λ i. record {
    block_hash = r.block_hash;
    block_number = quantity_back P r.block_number i;
    effective_gas_price = quantity_back P r.effective_gas_price i;
    cumulative_gas_used = quantity_back P r.cumulative_gas_used i;
    gas_used = quantity_back P r.gas_used i;
    status = map_some-back _ status_of status_back r.status i;
    root = map_some-back _ into_hash (λ _. refl) r.root i;
    transaction_hash = r.transaction_hash;
    contract_address = map_some-back _ (address_of P) (address_back P) r.contract_address i;
    from = address_back P r.from i;
    logs = map-back _ log_entry_of log_entry_back r.logs i;
    logs_bloom = r.logs_bloom;
    to = map_some-back _ (address_of P) (address_back P) r.to i;
    transaction_index = quantity_back P r.transaction_index i;
    tx_type = json_byte_back r.tx_type i;
  }

  block_of : Candid.Block → Json.Block P
  block_of value = record {
    base_fee_per_gas = map_some (quantity P) value.base_fee_per_gas;
    number = quantity P value.number;
    difficulty = map_some (quantity P) value.difficulty;
    extra_data = into_data value.extra_data;
    gas_limit = quantity P value.gas_limit;
    gas_used = quantity P value.gas_used;
    hash = into_hash value.hash;
    logs_bloom = record { bytes = value.logs_bloom.bytes };
    miner = address_of P value.miner;
    mix_hash = into_hash value.mix_hash;
    nonce = quantity P value.nonce;
    parent_hash = into_hash value.parent_hash;
    receipts_root = into_hash value.receipts_root;
    sha3_uncles = into_hash value.sha3_uncles;
    size = quantity P value.size;
    state_root = into_hash value.state_root;
    timestamp = quantity P value.timestamp;
    transactions = map into_hash value.transactions;
    transactions_root = map_some into_hash value.transactions_root;
    uncles = map into_hash value.uncles;
  }

  block_back : (b : Json.Block P) → block_of (from_block P b) ≡ b
  unfolding block_of from_block into_hash into_data evm_rpc_canister.Conversion.from_data
  block_back b = λ i. record {
    base_fee_per_gas = map_some-back _ (quantity P) (quantity_back P) b.base_fee_per_gas i;
    number = quantity_back P b.number i;
    difficulty = map_some-back _ (quantity P) (quantity_back P) b.difficulty i;
    extra_data = b.extra_data;
    gas_limit = quantity_back P b.gas_limit i;
    gas_used = quantity_back P b.gas_used i;
    hash = b.hash;
    logs_bloom = b.logs_bloom;
    miner = address_back P b.miner i;
    mix_hash = b.mix_hash;
    nonce = quantity_back P b.nonce i;
    parent_hash = b.parent_hash;
    receipts_root = b.receipts_root;
    sha3_uncles = b.sha3_uncles;
    size = quantity_back P b.size i;
    state_root = b.state_root;
    timestamp = quantity_back P b.timestamp i;
    transactions = map-back _ into_hash (λ _. refl) b.transactions i;
    transactions_root = map_some-back _ into_hash (λ _. refl) b.transactions_root i;
    uncles = map-back _ into_hash (λ _. refl) b.uncles i;
  }

  pub from_log_entries-inj :
      (a b : List (Json.LogEntry P)) → from_log_entries P a ≡ from_log_entries P b → a ≡ b
  unfolding from_log_entries
  from_log_entries-inj a b =
      undone-inj _ (map log_entry_of) (map-back _ log_entry_of log_entry_back)

  pub from_fee_history-inj :
      (a b : Json.FeeHistory P) → from_fee_history P a ≡ from_fee_history P b → a ≡ b
  from_fee_history-inj a b = undone-inj _ fee_history_of fee_history_back

  pub from_transaction_receipt-inj :
      (a b : Json.TransactionReceipt P)
      → from_transaction_receipt P a ≡ from_transaction_receipt P b
      → a ≡ b
  from_transaction_receipt-inj a b = undone-inj _ receipt_of receipt_back

  pub from_block-inj : (a b : Json.Block P) → from_block P a ≡ from_block P b → a ≡ b
  from_block-inj a b = undone-inj _ block_of block_back

send_result_of : Candid.SendRawTransactionStatus → SendRawTransactionResult
send_result_of (Candid.sent_ok h) = SendRawTransactionResult.sent_ok
send_result_of Candid.insufficient_funds = SendRawTransactionResult.insufficient_funds
send_result_of Candid.nonce_too_low = SendRawTransactionResult.nonce_too_low
send_result_of Candid.nonce_too_high = SendRawTransactionResult.nonce_too_high

send_result_back :
    (h : Option Hex32) (r : SendRawTransactionResult)
    → send_result_of (from_send_raw_transaction_result h r) ≡ r
unfolding send_result_of from_send_raw_transaction_result
send_result_back h SendRawTransactionResult.sent_ok = refl
send_result_back h _ = refl

pub from_send_raw_transaction_result-inj :
    (h : Option Hex32) (a b : SendRawTransactionResult)
    → from_send_raw_transaction_result h a ≡ from_send_raw_transaction_result h b
    → a ≡ b
from_send_raw_transaction_result-inj h a b =
    undone-inj (from_send_raw_transaction_result h) send_result_of (send_result_back h)

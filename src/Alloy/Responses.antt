-- ===== src/Alloy/Responses.antt =====
-- The answers of the methods as alloy's types (`evm_rpc_types/src/response/alloy.rs`). Fields that
-- every conversion leaves empty are left out, and so is that a block's transactions are hashes. Words
-- are those of alloy's fields: `u128` for prices, `u64` for the other numbers.
use evm_rpc_canister.Prelude.{
  ℕ, ◌++◌, ◌==◌, ltb, Bool, true, false, Option, none, some, List, map, Text, text, Result, ok, err,
  ◌>>=◌, ok_or, map_err, transpose, collect_results, if◌then◌else◌,
}
use evm_rpc_canister.Types.Error.{RpcResult, validation_error, ValidationError}
use evm_rpc_canister.Numbers.{U8}
use evm_rpc_canister.Numbers.Nat256.{Nat256}
use evm_rpc_canister.Numbers.Hex.{HexByte, Hex32, into_byte}
use evm_rpc_canister.Types.Response as Candid
use evm_rpc_canister.Conversion.{map_some}
use evm_rpc_canister.Alloy.{
  Word, u64, u128, word_bound, Primitives, U256, address_of_hex20, b256_of_hex32, bytes_of_hex,
  bloom_of_hex256, b64_try_from, u256_of,
}

module _ (A : Primitives) where
  open A use {Address, B256, Bloom, Bytes, B64, LogData}

  pub record Log : Type 0 where
    pub address : Address
    pub log_data : LogData
    pub block_hash : Option B256
    pub block_number : Option ℕ
    pub transaction_hash : Option B256
    pub transaction_index : Option ℕ
    pub log_index : Option ℕ
    pub removed : Bool

  -- The header of alloy_consensus, `inner` of `Header`
  pub record ConsensusHeader : Type 0 where
    pub parent_hash : B256
    pub ommers_hash : B256
    pub beneficiary : Address
    pub state_root : B256
    pub transactions_root : B256
    pub receipts_root : B256
    pub logs_bloom : Bloom
    pub difficulty : U256 A
    pub number : ℕ
    pub gas_limit : ℕ
    pub gas_used : ℕ
    pub timestamp : ℕ
    pub extra_data : Bytes
    pub mix_hash : B256
    pub nonce : B64
    pub base_fee_per_gas : Option ℕ

  pub record Header : Type 0 where
    pub hash : B256
    pub inner : ConsensusHeader
    pub total_difficulty : Option (U256 A)
    pub size : Option (U256 A)

  pub record Block : Type 0 where
    pub header : Header
    pub uncles : List B256
    pub transactions : List B256

  pub record FeeHistory (F64 : Type 0) : Type 0 where
    pub base_fee_per_gas : List ℕ
    pub gas_used_ratio : List F64
    pub oldest_block : ℕ
    pub reward : Option (List (List ℕ))

  pub data Eip658Value : Type 0 where
    eip658 : Bool → Eip658Value
    post_state : B256 → Eip658Value

  pub record Receipt : Type 0 where
    pub status : Eip658Value
    pub cumulative_gas_used : ℕ
    pub logs : List Log

  pub record ReceiptWithBloom : Type 0 where
    pub receipt : Receipt
    pub logs_bloom : Bloom

-- `type_name`
unfoldable pub type_name : Word → Text
unfolding text
type_name u64 = text "u64"
type_name u128 = text "u128"

abbrev pub invalid : {B : Type 0} → Text → RpcResult B
invalid message = err (validation_error (ValidationError.custom message))

-- `validate_difficulty`
abbrev pub paris_block : ℕ
paris_block = 15_537_394

-- `validate_receipt_status`
abbrev pub byzantium_block : ℕ
byzantium_block = 4_370_000

module _ (A : Primitives) where
  open A use {B256}

  unfoldable pub try_from_nat256 : Word → Nat256 → Text → RpcResult ℕ
  unfolding text type_name
  try_from_nat256 word value field_name =
      if ltb value.nat (word_bound word)
      then ok value.nat
      else invalid (
          text "Failed to convert field `"
          ++ (field_name ++ (text "` to `" ++ (type_name word ++ (text "`: " ++ A.overflow)))))

  unfoldable pub validate_transactions_root : Option Hex32 → RpcResult B256
  unfolding text b256_of_hex32
  validate_transactions_root transactions_root =
      ok_or (map_some (b256_of_hex32 A) transactions_root) (
        validation_error
          (ValidationError.custom (text "Block does not have a transactions root field")))

  -- The branches of `validate_difficulty`, before and since the block of the upgrade
  unfoldable pub pre_paris_difficulty : Option (U256 A) → RpcResult (U256 A)
  unfolding text
  pre_paris_difficulty difficulty = ok_or difficulty (
      validation_error
        (ValidationError.custom (text "Missing difficulty field in pre Paris upgrade block")))

  unfoldable pub post_paris_difficulty : Option (U256 A) → RpcResult (U256 A)
  unfolding text
  post_paris_difficulty none = ok (A.uint.new 0)
  post_paris_difficulty (some difficulty) =
      if A.uint.value difficulty == 0
      then ok (A.uint.new 0)
      else invalid (text "Post Paris upgrade block has non-zero difficulty")

  unfoldable pub validate_difficulty : Nat256 → Option Nat256 → RpcResult (U256 A)
  unfolding pre_paris_difficulty post_paris_difficulty u256_of
  validate_difficulty number difficulty =
      if ltb number.nat paris_block
      then pre_paris_difficulty (map_some (u256_of A) difficulty)
      else post_paris_difficulty (map_some (u256_of A) difficulty)

  -- The branches of `validate_receipt_status`
  unfoldable pub pre_byzantium_status : Option Hex32 → RpcResult (Eip658Value A)
  unfolding text b256_of_hex32
  pre_byzantium_status none =
      invalid (text "Missing root field in transaction included before the Byzantium upgrade")
  pre_byzantium_status (some root) = ok (post_state (b256_of_hex32 A root))

  unfoldable pub post_byzantium_status : Option (U256 A) → RpcResult (Eip658Value A)
  unfolding text
  post_byzantium_status none =
      invalid (text "Missing status field in transaction included after the Byzantium upgrade")
  post_byzantium_status (some status) =
      if A.uint.value status == 0
      then ok (eip658 false)
      else if A.uint.value status == 1
      then ok (eip658 true)
      else invalid (text "Post-Byzantium receipt has invalid status (expected 0 or 1)")

  unfoldable pub validate_receipt_status :
      Nat256 → Option Hex32 → Option Nat256 → RpcResult (Eip658Value A)
  unfolding pre_byzantium_status post_byzantium_status u256_of
  validate_receipt_status number root status =
      if ltb number.nat byzantium_block
      then pre_byzantium_status root
      else post_byzantium_status (map_some (u256_of A) status)

  -- `TryFrom<LogEntry> for Log`
  unfoldable pub log_try_from : Candid.LogEntry → RpcResult (Log A)
  unfolding text address_of_hex20 b256_of_hex32 bytes_of_hex try_from_nat256 transpose
  log_try_from entry = do
    log_data ←
        ok_or
          (A.log_data_new (map (b256_of_hex32 A) entry.topics) (bytes_of_hex A entry.data_bytes))
          (validation_error (ValidationError.custom (text "Invalid log data")))
    block_number ← transpose (λ v. try_from_nat256 u64 v (text "block_number")) entry.block_number
    transaction_index ←
        transpose (λ v. try_from_nat256 u64 v (text "transaction_index")) entry.transaction_index
    log_index ← transpose (λ v. try_from_nat256 u64 v (text "log_index")) entry.log_index
    ok (record {
      address = address_of_hex20 A entry.address;
      log_data = log_data;
      block_hash = map_some (b256_of_hex32 A) entry.block_hash;
      block_number = block_number;
      transaction_hash = map_some (b256_of_hex32 A) entry.transaction_hash;
      transaction_index = transaction_index;
      log_index = log_index;
      removed = entry.removed;
    })

  -- `TryFrom<Block> for Block`
  unfoldable pub block_try_from : Candid.Block → RpcResult (Block A)
  unfolding text address_of_hex20 b256_of_hex32 bytes_of_hex bloom_of_hex256 b64_try_from u256_of
      try_from_nat256 validate_transactions_root validate_difficulty transpose
  block_try_from value = do
    transactions_root ← validate_transactions_root value.transactions_root
    difficulty ← validate_difficulty value.number value.difficulty
    number ← try_from_nat256 u64 value.number (text "number")
    gas_limit ← try_from_nat256 u64 value.gas_limit (text "gas_limit")
    gas_used ← try_from_nat256 u64 value.gas_used (text "gas_used")
    timestamp ← try_from_nat256 u64 value.timestamp (text "timestamp")
    nonce ← b64_try_from A value.nonce
    base_fee_per_gas ←
        transpose (λ v. try_from_nat256 u64 v (text "base_fee_per_gas")) value.base_fee_per_gas
    ok (record {
      header = record {
        hash = b256_of_hex32 A value.hash;
        inner = record {
          parent_hash = b256_of_hex32 A value.parent_hash;
          ommers_hash = b256_of_hex32 A value.sha3_uncles;
          beneficiary = address_of_hex20 A value.miner;
          state_root = b256_of_hex32 A value.state_root;
          transactions_root = transactions_root;
          receipts_root = b256_of_hex32 A value.receipts_root;
          logs_bloom = bloom_of_hex256 A value.logs_bloom;
          difficulty = difficulty;
          number = number;
          gas_limit = gas_limit;
          gas_used = gas_used;
          timestamp = timestamp;
          extra_data = bytes_of_hex A value.extra_data;
          mix_hash = b256_of_hex32 A value.mix_hash;
          nonce = nonce;
          base_fee_per_gas = base_fee_per_gas;
        };
        total_difficulty = map_some (u256_of A) value.total_difficulty;
        size = some (u256_of A value.size);
      };
      uncles = map (b256_of_hex32 A) value.uncles;
      transactions = map (b256_of_hex32 A) value.transactions;
    })

  -- `TryFrom<FeeHistory> for FeeHistory`
  unfoldable pub fee_history_try_from :
      {F64 : Type 0} → Candid.FeeHistory F64 → RpcResult (FeeHistory A F64)
  unfolding text try_from_nat256 collect_results
  fee_history_try_from value = do
    base_fee_per_gas ←
        collect_results (λ v. try_from_nat256 u128 v (text "base_fee_per_gas"))
          value.base_fee_per_gas
    oldest_block ← try_from_nat256 u64 value.oldest_block (text "oldest_block")
    reward ←
        collect_results (collect_results (λ v. try_from_nat256 u128 v (text "reward"))) value.reward
    ok (record {
      base_fee_per_gas = base_fee_per_gas;
      gas_used_ratio = value.gas_used_ratio;
      oldest_block = oldest_block;
      reward = some reward;
    })

-- alloy_consensus: transaction types, with the error for a byte that is none as a text, and the
-- envelope that a receipt of such a type is put in.
pub record Consensus (A : Primitives) : Type 1 where
  pub TxType : Type 0
  pub tx_type_try_from : U8 → Result TxType Text
  pub Envelope : Type 0
  pub from_typed : TxType → ReceiptWithBloom A → Envelope

module _ {A : Primitives} (C : Consensus A) where
  pub record TransactionReceipt : Type 0 where
    pub inner : C.Envelope
    pub transaction_hash : A.B256
    pub transaction_index : Option ℕ
    pub block_hash : Option A.B256
    pub block_number : Option ℕ
    pub gas_used : ℕ
    pub effective_gas_price : ℕ
    pub from : A.Address
    pub to : Option A.Address
    pub contract_address : Option A.Address

  -- `TryFrom<HexByte> for TxType`
  unfoldable pub tx_type_of : HexByte → RpcResult C.TxType
  unfolding text into_byte
  tx_type_of value =
      map_err
        (λ e.
          validation_error
            (ValidationError.custom (text "Unable to parse transaction type: " ++ e)))
        (C.tx_type_try_from (into_byte value.byte))

  -- `TryFrom<TransactionReceipt> for TransactionReceipt`
  unfoldable pub receipt_try_from : Candid.TransactionReceipt → RpcResult TransactionReceipt
  unfolding text tx_type_of validate_receipt_status try_from_nat256 collect_results log_try_from
      bloom_of_hex256 b256_of_hex32 address_of_hex20
  receipt_try_from receipt = do
    tx_type ← tx_type_of receipt.tx_type
    status ← validate_receipt_status A receipt.block_number receipt.root receipt.status
    cumulative_gas_used ←
        try_from_nat256 A u64 receipt.cumulative_gas_used (text "cumulative_gas_used")
    logs ← collect_results (log_try_from A) receipt.logs
    transaction_index ← try_from_nat256 A u64 receipt.transaction_index (text "transaction_index")
    block_number ← try_from_nat256 A u64 receipt.block_number (text "block_number")
    gas_used ← try_from_nat256 A u64 receipt.gas_used (text "gas_used")
    effective_gas_price ←
        try_from_nat256 A u128 receipt.effective_gas_price (text "effective_gas_price")
    ok (record {
      inner = C.from_typed tx_type (record {
        receipt = record {
          status = status;
          cumulative_gas_used = cumulative_gas_used;
          logs = logs;
        };
        logs_bloom = bloom_of_hex256 A receipt.logs_bloom;
      });
      transaction_hash = b256_of_hex32 A receipt.transaction_hash;
      transaction_index = some transaction_index;
      block_hash = some (b256_of_hex32 A receipt.block_hash);
      block_number = some block_number;
      gas_used = gas_used;
      effective_gas_price = effective_gas_price;
      from = address_of_hex20 A receipt.from;
      to = map_some (address_of_hex20 A) receipt.to;
      contract_address = map_some (address_of_hex20 A) receipt.contract_address;
    })

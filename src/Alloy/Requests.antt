-- ===== src/Alloy/Requests.antt =====
-- Arguments of the methods from alloy's types (`evm_rpc_types/src/request/alloy.rs`).
use evm_rpc_canister.Prelude.{
  ℕ, ◌^◌, ◌≡◌, true, ltb, Option, none, some, List, map, Text, Result, ok, err, map_ok, map_err,
  ◌>>=◌, Bool-cases, inl, inr, false, ◌⊎◌,
}
use evm_rpc_canister.Types.Error.{RpcResult, validation_error, ValidationError}
use evm_rpc_canister.Numbers.{U8}
use evm_rpc_canister.Numbers.Nat256.{Nat256}
use evm_rpc_canister.Numbers.Hex.{Hex20, hex_byte_from}
use evm_rpc_canister.Types.Request as Candid
use evm_rpc_canister.Conversion.{map_some}
use evm_rpc_canister.Alloy.{
  u64, u128, Uint, Primitives, U256, hex20_of_address, hex32_of_b256, hex_of_bytes, nat256_of_u256,
  nat256_of_uint,
}

-- `BlockNumberOrTag` of alloy
pub data BlockNumberOrTag : Type 0 where
  latest finalized safe earliest pending : BlockNumberOrTag
  number : Uint u64 → BlockNumberOrTag

-- `TxKind` of alloy
pub data TxKind (Address : Type 0) : Type 0 where
  create : TxKind Address
  call : Address → TxKind Address

-- `From<T> for GetLogsArgs`, by the conversion of addresses
unfoldable pub get_logs_args_from : {S : Type 0} → (S → Hex20) → List S → Candid.GetLogsArgs
get_logs_args_from into addresses = record {
  from_block = none;
  to_block = none;
  addresses = map into addresses;
  topics = none;
}

-- Inputs of transactions, which alloy reads from two fields that must agree, with its error as a
-- text, and blobs.
pub record Transactions (A : Primitives) : Type 1 where
  pub TransactionInput : Type 0
  pub try_into_unique_input : TransactionInput → Result (Option A.Bytes) Text
  pub Blob : Type 0
  pub blob_to_vec : Blob → List U8

module _ (A : Primitives) where
  open A use {Address, B256}

  -- `From<BlockNumberOrTag> for BlockTag`
  unfoldable pub block_tag_from : BlockNumberOrTag → Candid.BlockTag
  unfolding nat256_of_uint
  block_tag_from latest = Candid.latest
  block_tag_from finalized = Candid.finalized
  block_tag_from safe = Candid.safe
  block_tag_from earliest = Candid.earliest
  block_tag_from pending = Candid.pending
  block_tag_from (number n) = Candid.number (nat256_of_uint A n)

  -- `TryFrom<Nat256> for u64` with the bound of the result
  unfoldable pub checked_u64 :
      (n : ℕ) → (ltb n (2 ^ 64) ≡ true) ⊎ (ltb n (2 ^ 64) ≡ false) → RpcResult (Uint u64)
  checked_u64 n (inl h) = ok (record { value = n; below = h })
  checked_u64 n (inr h) = err (validation_error (ValidationError.custom A.overflow))

  unfoldable pub uint64_try_from : Nat256 → RpcResult (Uint u64)
  unfolding checked_u64
  uint64_try_from v = checked_u64 v.nat (Bool-cases (ltb v.nat (2 ^ 64)))

  -- `TryFrom<BlockTag> for BlockNumberOrTag`
  unfoldable pub block_number_or_tag_try_from : Candid.BlockTag → RpcResult BlockNumberOrTag
  unfolding uint64_try_from
  block_number_or_tag_try_from Candid.latest = ok latest
  block_number_or_tag_try_from Candid.finalized = ok finalized
  block_number_or_tag_try_from Candid.safe = ok safe
  block_number_or_tag_try_from Candid.earliest = ok earliest
  block_number_or_tag_try_from Candid.pending = ok pending
  block_number_or_tag_try_from (Candid.number n) = map_ok number (uint64_try_from n)

  pub record AccessListItem : Type 0 where
    pub address : Address
    pub storage_keys : List B256

  unfoldable pub entry_of : AccessListItem → Candid.AccessListEntry
  unfolding hex20_of_address hex32_of_b256
  entry_of item = record {
    address = hex20_of_address A item.address;
    storage_keys = map (hex32_of_b256 A) item.storage_keys;
  }

  -- `From<AccessList> for AccessList`
  unfoldable pub access_list_from : List AccessListItem → Candid.AccessList
  unfolding entry_of
  access_list_from access_list = record { entries = map entry_of access_list }

  unfoldable pub called_address : TxKind Address → Option Hex20
  unfolding hex20_of_address
  called_address create = none
  called_address (call address) = some (hex20_of_address A address)

  -- `Option::and_then`
  abbrev pub and_then_some : {X Y : Type 0} → Option X → (X → Option Y) → Option Y
  and_then_some none f = none
  and_then_some (some x) f = f x

module _ {A : Primitives} (T : Transactions A) where
  -- The fields of alloy's request that are read
  pub record TransactionRequest : Type 0 where
    pub transaction_type : Option U8
    pub nonce : Option (Uint u64)
    pub to : Option (TxKind A.Address)
    pub from : Option A.Address
    pub gas : Option (Uint u64)
    pub value : Option (U256 A)
    pub input : T.TransactionInput
    pub gas_price : Option (Uint u128)
    pub max_priority_fee_per_gas : Option (Uint u128)
    pub max_fee_per_gas : Option (Uint u128)
    pub max_fee_per_blob_gas : Option (Uint u128)
    pub access_list : Option (List (AccessListItem A))
    pub blob_versioned_hashes : Option (List A.B256)
    pub sidecar_blobs : Option (List T.Blob)
    pub chain_id : Option (Uint u64)

  -- `TryFrom<TransactionRequest> for TransactionRequest`
  unfoldable pub transaction_request_try_from :
      TransactionRequest → RpcResult Candid.TransactionRequest
  unfolding hex20_of_address hex32_of_b256 hex_of_bytes nat256_of_u256 nat256_of_uint
      access_list_from called_address hex_byte_from
  transaction_request_try_from tx_request = do
    input ←
        map_err (λ e. validation_error (ValidationError.custom e))
          (T.try_into_unique_input tx_request.input)
    ok (record {
      tx_type = map_some hex_byte_from tx_request.transaction_type;
      nonce = map_some (nat256_of_uint A) tx_request.nonce;
      to = and_then_some A tx_request.to (called_address A);
      from = map_some (hex20_of_address A) tx_request.from;
      gas = map_some (nat256_of_uint A) tx_request.gas;
      value = map_some (nat256_of_u256 A) tx_request.value;
      input = map_some (hex_of_bytes A) input;
      gas_price = map_some (nat256_of_uint A) tx_request.gas_price;
      max_priority_fee_per_gas = map_some (nat256_of_uint A) tx_request.max_priority_fee_per_gas;
      max_fee_per_gas = map_some (nat256_of_uint A) tx_request.max_fee_per_gas;
      max_fee_per_blob_gas = map_some (nat256_of_uint A) tx_request.max_fee_per_blob_gas;
      access_list = map_some (access_list_from A) tx_request.access_list;
      blob_versioned_hashes = map_some (map (hex32_of_b256 A)) tx_request.blob_versioned_hashes;
      blobs =
          map_some (map (λ blob. record { bytes = T.blob_to_vec blob })) tx_request.sidecar_blobs;
      chain_id = map_some (nat256_of_uint A) tx_request.chain_id;
    })

  -- `TryFrom<TransactionRequest> for CallArgs`
  unfoldable pub call_args_try_from : TransactionRequest → RpcResult Candid.CallArgs
  unfolding transaction_request_try_from
  call_args_try_from request = do
    transaction ← transaction_request_try_from request
    ok (record { transaction = transaction; block = none })

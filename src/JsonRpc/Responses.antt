-- ===== src/JsonRpc/Responses.antt =====
-- `src/rpc_client/json/responses.rs`: the results of requests to the services.
use evm_rpc_canister.Prelude.{
  ◌==◌, ◌++◌, Bool, Option, List, Text, text, show, Result, ok, err, if◌then◌else◌,
}
use evm_rpc_canister.Numbers.{U8, Ethnum, Platform}
use evm_rpc_canister.Numbers.Amount.{Amount}
use evm_rpc_canister.JsonRpc.{FixedSizeData, Hash, LogsBloom, JsonByte}

pub record Data : Type 0 where
  pub bytes : List U8

pub data TransactionStatus : Type 0 where
  success failure : TransactionStatus

-- `Display for TransactionStatus`
unfoldable pub status_text : TransactionStatus → Text
unfolding text
status_text success = text "Success"
status_text failure = text "Failure"

module _ (E : Ethnum) where
  -- `From<TransactionStatus> for ethnum::u256`
  unfoldable pub status_into_u256 : TransactionStatus → E.U256
  status_into_u256 success = E.new 1
  status_into_u256 failure = E.new 0

  -- `TryFrom<ethnum::u256> for TransactionStatus`
  unfoldable pub status_try_from : E.U256 → Result TransactionStatus Text
  unfolding text show
  status_try_from value =
      if E.value value == 0
      then ok failure
      else if E.value value == 1
      then ok success
      else err (text "invalid transaction status: " ++ show (E.value value))

module _ (P : Platform) where
  open P use {ethnum, Address, F64}

  pub record LogEntry : Type 0 where
    pub address : Address
    pub topics : List FixedSizeData
    pub data_bytes : Data
    pub block_number : Option (Amount ethnum)
    pub transaction_hash : Option Hash
    pub transaction_index : Option (Amount ethnum)
    pub block_hash : Option Hash
    pub log_index : Option (Amount ethnum)
    pub removed : Bool

  pub record TransactionReceipt : Type 0 where
    pub block_hash : Hash
    pub block_number : Amount ethnum
    pub effective_gas_price : Amount ethnum
    pub cumulative_gas_used : Amount ethnum
    pub gas_used : Amount ethnum
    pub status : Option TransactionStatus
    pub root : Option Hash
    pub transaction_hash : Hash
    pub contract_address : Option Address
    pub from : Address
    pub logs : List LogEntry
    pub logs_bloom : LogsBloom
    pub to : Option Address
    pub transaction_index : Amount ethnum
    pub tx_type : JsonByte

  pub record Block : Type 0 where
    pub base_fee_per_gas : Option (Amount ethnum)
    pub number : Amount ethnum
    pub difficulty : Option (Amount ethnum)
    pub extra_data : Data
    pub gas_limit : Amount ethnum
    pub gas_used : Amount ethnum
    pub hash : Hash
    pub logs_bloom : LogsBloom
    pub miner : Address
    pub mix_hash : Hash
    pub nonce : Amount ethnum
    pub parent_hash : Hash
    pub receipts_root : Hash
    pub sha3_uncles : Hash
    pub size : Amount ethnum
    pub state_root : Hash
    pub timestamp : Amount ethnum
    pub transactions : List Hash
    pub transactions_root : Option Hash
    pub uncles : List Hash

  pub record FeeHistory : Type 0 where
    pub oldest_block : Amount ethnum
    pub base_fee_per_gas : List (Amount ethnum)
    pub gas_used_ratio : List F64
    pub reward : List (List (Amount ethnum))

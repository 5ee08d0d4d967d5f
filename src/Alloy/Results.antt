-- ===== src/Alloy/Results.antt =====
-- The results of several services in alloy's types (`evm_rpc_types/src/result/alloy.rs`).
use evm_rpc_canister.Prelude.{
  Option, none, some, List, Text, text, ok, err, transpose, collect_results,
}
use evm_rpc_canister.Types.Error.{
  RpcResult, json_rpc_error, validation_error, ValidationError, negsuc,
}
use evm_rpc_canister.Types.MultiResult.{PartialEq, MultiRpcResult, map_results, and_then}
use evm_rpc_canister.Types.Response as Candid
use evm_rpc_canister.Numbers.Nat256.{Nat256}
use evm_rpc_canister.Numbers.Hex.{Hex}
use evm_rpc_canister.Alloy.{Primitives, U256, b256_of_hex32, bytes_of_hex, u256_of}
use evm_rpc_canister.Alloy.Responses.{
  Log, Block, FeeHistory, Consensus, TransactionReceipt, log_try_from, block_try_from,
  fee_history_try_from, receipt_try_from,
}

module _ (A : Primitives) where
  unfoldable pub logs_into :
      ⦃p : PartialEq (RpcResult (List (Log A)))⦄
      → MultiRpcResult (List Candid.LogEntry)
      → MultiRpcResult (List (Log A))
  unfolding and_then collect_results log_try_from
  logs_into result = and_then (collect_results (log_try_from A)) result

  unfoldable pub block_into :
      ⦃p : PartialEq (RpcResult (Block A))⦄ → MultiRpcResult Candid.Block → MultiRpcResult (Block A)
  unfolding and_then block_try_from
  block_into result = and_then (block_try_from A) result

  unfoldable pub fee_history_into :
      {F64 : Type 0} ⦃p : PartialEq (RpcResult (FeeHistory A F64))⦄
      → MultiRpcResult (Candid.FeeHistory F64)
      → MultiRpcResult (FeeHistory A F64)
  unfolding and_then fee_history_try_from
  fee_history_into result = and_then (fee_history_try_from A) result

  unfoldable pub nat256_into :
      ⦃p : PartialEq (RpcResult (U256 A))⦄ → MultiRpcResult Nat256 → MultiRpcResult (U256 A)
  unfolding map_results u256_of
  nat256_into result = map_results (u256_of A) result

  unfoldable pub hex_into :
      ⦃p : PartialEq (RpcResult A.Bytes)⦄ → MultiRpcResult Hex → MultiRpcResult A.Bytes
  unfolding map_results bytes_of_hex
  hex_into result = map_results (bytes_of_hex A) result

  -- The text of a status that is an error
  unfoldable pub status_message : Candid.SendRawTransactionStatus → Text
  unfolding text
  status_message (Candid.sent_ok hash) = text "internal error: entered unreachable code"
  status_message Candid.insufficient_funds = text "Insufficient funds"
  status_message Candid.nonce_too_low = text "Nonce too low"
  status_message Candid.nonce_too_high = text "Nonce too high"

  -- The closure for `SendRawTransactionStatus`; -32000 is `negsuc 31999`.
  unfoldable pub sent_hash : Candid.SendRawTransactionStatus → RpcResult A.B256
  unfolding text b256_of_hex32 status_message
  sent_hash (Candid.sent_ok (some hash)) = ok (b256_of_hex32 A hash)
  sent_hash (Candid.sent_ok none) =
      err (validation_error (ValidationError.custom (text "Unable to compute transaction hash")))
  sent_hash error =
      err (json_rpc_error (record { code = negsuc 31999; message = status_message error }))

  unfoldable pub status_into :
      ⦃p : PartialEq (RpcResult A.B256)⦄
      → MultiRpcResult Candid.SendRawTransactionStatus
      → MultiRpcResult A.B256
  unfolding and_then sent_hash
  status_into result = and_then sent_hash result

module _ {A : Primitives} (C : Consensus A) where
  unfoldable pub receipt_into :
      ⦃p : PartialEq (RpcResult (Option (TransactionReceipt C)))⦄
      → MultiRpcResult (Option Candid.TransactionReceipt)
      → MultiRpcResult (Option (TransactionReceipt C))
  unfolding and_then transpose receipt_try_from
  receipt_into result = and_then (transpose (receipt_try_from C)) result

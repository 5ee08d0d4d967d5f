-- ===== src/Conversion/Agreement.antt =====
-- What the conversions of `src/candid_rpc/cketh_conversion.rs` mean for the agreement of services.
use evm_rpc_canister.Prelude.{List, map_ok, ◌≡◌, ◌↔◌, Option}
use evm_rpc_canister.Numbers.{Platform}
use evm_rpc_canister.Numbers.Hex.{Hex32}
use evm_rpc_canister.SendRaw.{SendRawTransactionResult}
use evm_rpc_canister.JsonRpc.Responses as Json
use evm_rpc_canister.Types.Response as Candid
use evm_rpc_canister.Types.Service.{RpcService}
use evm_rpc_canister.Types.Error.{RpcResult}
use evm_rpc_canister.Types.MultiResult.{PartialEq, consistent, inconsistent, map_results}
use evm_rpc_canister.Types.MultiResult.Agreement.{IsUnanimous}
use evm_rpc_canister.Types.MultiResult.Injective.{map_results_iff}
use evm_rpc_canister.Conversion.Results.{
  from_log_entries, from_fee_history, from_transaction_receipt, from_block,
  from_send_raw_transaction_result,
}
use evm_rpc_canister.Conversion.Lossless.Results.{
  from_log_entries-inj, from_fee_history-inj, from_transaction_receipt-inj, from_block-inj,
  from_send_raw_transaction_result-inj,
}

module _ (P : Platform) where
  -- The blocks that services gave agree, as they are answered to the caller, exactly if there is one
  -- and every service gave the same block, or the same error: no conversion of a field makes
  -- different blocks equal.
  pub map_results-from_block_iff :
      (equal : PartialEq (RpcResult Candid.Block))
      (v : List (RpcService × RpcResult (Json.Block P))) (r : RpcResult (Json.Block P))
      → (map_results ⦃p = equal⦄ (from_block P) (inconsistent v)
          ≡ consistent (map_ok (from_block P) r))
        ↔ IsUnanimous r v
  map_results-from_block_iff equal = map_results_iff _ (from_block-inj P) ⦃p = equal⦄

  -- The receipts that services gave agree, as they are answered to the caller, exactly if there is
  -- one and every service gave the same receipt with the same logs, or the same error.
  pub map_results-from_transaction_receipt_iff :
      (equal : PartialEq (RpcResult Candid.TransactionReceipt))
      (v : List (RpcService × RpcResult (Json.TransactionReceipt P)))
      (r : RpcResult (Json.TransactionReceipt P))
      → (map_results ⦃p = equal⦄ (from_transaction_receipt P) (inconsistent v)
          ≡ consistent (map_ok (from_transaction_receipt P) r))
        ↔ IsUnanimous r v
  map_results-from_transaction_receipt_iff equal =
      map_results_iff _ (from_transaction_receipt-inj P) ⦃p = equal⦄

  -- The same for logs, in their order
  pub map_results-from_log_entries_iff :
      (equal : PartialEq (RpcResult (List Candid.LogEntry)))
      (v : List (RpcService × RpcResult (List (Json.LogEntry P))))
      (r : RpcResult (List (Json.LogEntry P)))
      → (map_results ⦃p = equal⦄ (from_log_entries P) (inconsistent v)
          ≡ consistent (map_ok (from_log_entries P) r))
        ↔ IsUnanimous r v
  map_results-from_log_entries_iff equal = map_results_iff _ (from_log_entries-inj P) ⦃p = equal⦄

  -- The same for fee histories
  pub map_results-from_fee_history_iff :
      (equal : PartialEq (RpcResult (Candid.FeeHistory P.F64)))
      (v : List (RpcService × RpcResult (Json.FeeHistory P))) (r : RpcResult (Json.FeeHistory P))
      → (map_results ⦃p = equal⦄ (from_fee_history P) (inconsistent v)
          ≡ consistent (map_ok (from_fee_history P) r))
        ↔ IsUnanimous r v
  map_results-from_fee_history_iff equal = map_results_iff _ (from_fee_history-inj P) ⦃p = equal⦄

-- The same for the outcomes of sent transactions, with the hash that the caller's transaction has
pub map_results-from_send_raw_transaction_result_iff :
    (hash : Option Hex32) (equal : PartialEq (RpcResult Candid.SendRawTransactionStatus))
    (v : List (RpcService × RpcResult SendRawTransactionResult))
    (r : RpcResult SendRawTransactionResult)
    → (map_results ⦃p = equal⦄ (from_send_raw_transaction_result hash) (inconsistent v)
        ≡ consistent (map_ok (from_send_raw_transaction_result hash) r))
      ↔ IsUnanimous r v
map_results-from_send_raw_transaction_result_iff hash equal =
    map_results_iff _ (from_send_raw_transaction_result-inj hash) ⦃p = equal⦄

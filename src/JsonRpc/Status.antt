-- ===== src/JsonRpc/Status.antt =====
-- The status of a transaction as a 256-bit number (`src/rpc_client/json/responses.rs`).
use evm_rpc_canister.Prelude.{◌≡◌, ◌↔◌, ok, refl, arith}
use evm_rpc_canister.Numbers.{Ethnum}
use evm_rpc_canister.JsonRpc.Responses.{
  TransactionStatus, success, failure, status_into_u256, status_try_from,
}

-- A 256-bit number is read as a status exactly if it is the number that the status is written as, so
-- every number but 0 and 1 is refused.
pub status_try_from_iff :
    (E : Ethnum) (v : E.U256) (s : TransactionStatus)
    → (status_try_from E v ≡ ok s) ↔ (v ≡ status_into_u256 E s)
unfolding status_try_from status_into_u256
status_try_from_iff E v success = (
  λ h. E.value-inj v (E.new 1) (ground (arith, h, E.new_value 1 (omega arith))),
  λ e. rw e (rw (E.new_value 1 (omega arith)) refl),
)
status_try_from_iff E v failure = (
  λ h. E.value-inj v (E.new 0) (ground (arith, h, E.new_value 0 (omega arith))),
  λ e. rw e (rw (E.new_value 0 (omega arith)) refl),
)

-- ===== src/Client/Sizes.antt =====
-- The sizes of responses that calls allow (`src/rpc_client/mod.rs`).
use evm_rpc_canister.Prelude.{ℕ, ◌≤◌, ◌<◌, ◌≡◌, ◌↔◌, true, Option, none, some, unwrap_or, arith}
use evm_rpc_canister.Prelude.Exec.{returns, has_returned}
use evm_rpc_canister.Client.{
  EthRpcClient, RpcMethod, call_size, response_size_estimate, response_size_estimate_new, assert,
  method_estimate, expected_block_size,
}

-- The caller's own estimate, if there is one, is positive and at most 1,997,952 bytes.
abbrev pub IsAllowed : Option ℕ → Type 0
IsAllowed none = Unit
IsAllowed (some n) = (0 < n) × (n ≤ 1_997_952)

-- For every method and network, a call has a size for its responses, and is not undone by a failed
-- assertion, exactly if the caller gives no estimate or one from 1 to 1,997,952.
pub call_size_iff :
    (client : EthRpcClient) (method : RpcMethod)
    → (has_returned (call_size client method) ≡ true)
      ↔ IsAllowed client.config.response_size_estimate
unfolding call_size response_size_estimate response_size_estimate_new assert method_estimate
    expected_block_size
call_size_iff client method = ground arith

-- The size of the responses that a call allows is the caller's estimate, or that of the method
-- where the caller gives none, and it is between 1 and 1,997,952.
pub call_size-eq-returns :
    (client : EthRpcClient) (method : RpcMethod) (n : ℕ)
    → call_size client method ≡ returns n
    → (n ≡ unwrap_or client.config.response_size_estimate (method_estimate client method))
      × (0 < n)
      × (n ≤ 1_997_952)
unfolding call_size response_size_estimate response_size_estimate_new assert
call_size-eq-returns client method n h = ground arith

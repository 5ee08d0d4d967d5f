-- ===== src/Transform/Replicas.antt =====
-- The responses that several replicas get (`cleanup_response` of
-- `src/rpc_client/eth_rpc/mod.rs`).
use mathlib.Core.List.{Permᴰ}
use evm_rpc_canister.Ord.Instances.{nat_ord, list_ord}
use evm_rpc_canister.Ord.Sort.{KeysDiffer, sort_by-perm}
use evm_rpc_canister.Prelude.{ℕ, ◌≡◌, ◌≤◌, ◌<◌, List, some, Text, ok, is_empty, false, arith}
use evm_rpc_canister.Types.Service.{HttpHeader}
use evm_rpc_canister.Transform.{
  log_entries, Formats, apply, transformed, cleanup_response, redact_collection_response,
  sort_by_hash,
}

module _ (F : Formats) where
  -- Two replicas whose successful responses to `eth_getLogs` have the same id and the same logs,
  -- in whatever order and with whatever headers, agree on one response, where no two different
  -- logs among them have the same hash.
  pub cleanup_response-agrees :
      (status : ℕ) (context body other : Text) (headers others : List HttpHeader)
      (id : F.logs.ReplyId) (items permuted : List F.logs.Item)
      → 200 ≤ status
      → status < 300
      → is_empty context ≡ false
      → F.decode context ≡ some log_entries
      → F.logs.from_slice body ≡ some (id, ok items)
      → F.logs.from_slice other ≡ some (id, ok permuted)
      → Permᴰ items permuted
      → KeysDiffer (λ item. F.sha256 (F.logs.to_vec item)) items
      → cleanup_response F (record {
        response = record { status = status; headers = headers; body = body };
        context = context;
      })
        ≡ cleanup_response F (record {
          response = record { status = status; headers = others; body = other };
          context = context;
        })
  unfolding cleanup_response transformed apply redact_collection_response sort_by_hash
  cleanup_response-agrees status context body other headers others id items permuted h k c d p q r
        differ =
      ground (arith, sort_by-perm (λ item. F.sha256 (F.logs.to_vec item)) r differ)

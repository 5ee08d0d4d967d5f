-- ===== src/Selection/Ranking.antt =====
-- The ranking of the default providers (`choose_providers` of `src/rpc_client/mod.rs`).
use mathlib.Core.List.Permᴰ
use evm_rpc_canister.Prelude.{ℕ, List, unwrap_or}
use evm_rpc_canister.Types.Service.{rpc_service_ord}
use evm_rpc_canister.Providers.Defs.{SupportedRpcService, supported_ord}
use evm_rpc_canister.Providers.Usage.{TimedSizedMap}

module _ (M : TimedSizedMap) where
  open M use {Map, evict_expired, len, sort_keys_by, sort_keys_by-perm, sort_keys_by-sorted}

  -- The number of answers of a service that have not expired.
  abbrev pub answers : Map → List SupportedRpcService → ℕ → SupportedRpcService → ℕ
  answers usage supported now s = unwrap_or (len (evict_expired usage supported now) s) 0

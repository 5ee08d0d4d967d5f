-- ===== src/Types.antt =====
-- The Candid types of `evm_rpc_types`.
pub mod Service
pub mod Config
pub mod Error
pub mod MultiResult
pub mod Request
pub mod Response

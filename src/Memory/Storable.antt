-- ===== src/Memory/Storable.antt =====
-- The bytes of stored API keys (`Storable` for `ApiKey` in `src/types/mod.rs`). Texts are their bytes
-- here; reading bytes as a text is that of ic_stable_structures, a parameter.
use evm_rpc_canister.Prelude.{ℕ, ◌≡◌, ◌<◌, All, Text}
use evm_rpc_canister.Prelude.Exec.{Exec, returns, ◌>>=◌}
use evm_rpc_canister.Validate.{ApiKey}

-- `API_KEY_MAX_SIZE` of `src/constants.rs`
abbrev pub api_key_max_size : ℕ
api_key_max_size = 512

-- `String::from_bytes`, which panics on bytes that are no UTF-8; bytes below 128 are.
pub record StableStrings : Type 0 where
  pub string_from_bytes : Text → Exec Text
  pub string_from_bytes-ascii : (s : Text) → All (λ c. c < 128) s → string_from_bytes s ≡ returns s

unfoldable pub api_key_to_bytes : ApiKey → Text
api_key_to_bytes key = key.read

unfoldable pub api_key_from_bytes : StableStrings → Text → Exec ApiKey
api_key_from_bytes S bytes = S.string_from_bytes bytes >>= λ s. returns (record { read = s })

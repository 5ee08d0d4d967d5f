-- ===== src/Validate.antt =====
-- `src/validate.rs`, and `ApiKey` of `src/types/mod.rs`.
use evm_rpc_canister.Prelude.{
  ◌≡◌, not, Text, text, length, is_empty, any, contains_byte, ltb, if◌then◌else◌, Result, ok, err,
  ◌>>=◌,
}
use evm_rpc_canister.Constants.{valid_api_key_chars}

-- The bytes of a character outside ASCII are all outside the valid characters, as the character is.
unfoldable pub validate_api_key : Text → Result (Unit {0}) Text
validate_api_key api_key =
    if is_empty api_key
    then err (text "API key must not be an empty string")
    else if ltb 200 (length api_key)
    then err (text "API key must be <= 200 characters")
    else if any (λ c. not (contains_byte valid_api_key_chars c)) api_key
    then err (text "Invalid character in API key")
    else ok tt

pub record ApiKey : Type 0 where
  pub read : Text

-- `TryFrom<String> for ApiKey`
unfoldable pub api_key_try_from : Text → Result ApiKey Text
unfolding validate_api_key
api_key_try_from key = do _ ← validate_api_key key; ok (record { read = key })

-- A key that passes validation.
abbrev pub IsValidKey : ApiKey → Type 0
IsValidKey key = validate_api_key key.read ≡ ok tt

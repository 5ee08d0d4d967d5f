-- ===== src/Access.antt =====
-- `src/types/mod.rs`: the URL and headers of a provider (`Provider::api`, `ResolvedRpcService::api`),
-- and the override that a controller can set.
pub mod Urls
use evm_rpc_canister.Prelude.{
  ℕ, ◌++◌, List, [], ◌∷◌, Option, none, some, Text, text, show, replace, Result, ok, err, map_ok,
  map_err,
}
use evm_rpc_canister.Prelude.Exec.{Exec, returns, traps, ◌>>=◌}
use evm_rpc_canister.Constants.{api_key_replace_string}
use evm_rpc_canister.Types.Service.{HttpHeader, RpcApi}
use evm_rpc_canister.Types.Error.{RpcResult, RpcError, validation_error, ValidationError}
use evm_rpc_canister.Validate.{ApiKey}
use evm_rpc_canister.Providers.Defs.{
  Provider, RpcAuth, bearer_token, url_parameter, RpcAccess, authenticated, unauthenticated,
}
use evm_rpc_canister.Providers.Resolve.{ResolvedRpcService, api, known}
use evm_rpc_canister.Memory.{Externals, State, get_api_key}
use evm_rpc_canister.Memory.Regex.{RegexLib, RegexSubstitution, OverrideProvider}

-- The URL and headers with an API key.
unfoldable pub keyed_api : RpcAuth → ApiKey → RpcApi
keyed_api (bearer_token url) key = record {
  url = url;
  headers = some (record { name = text "Authorization"; value = text "Bearer " ++ key.read } ∷ []);
}
keyed_api (url_parameter url_pattern) key = record {
  url = replace url_pattern api_key_replace_string key.read;
  headers = none;
}

abbrev pub public_api : Text → RpcApi
public_api url = record { url = url; headers = none }

unfoldable pub access_api : ℕ → RpcAccess → Option ApiKey → Exec RpcApi
unfolding keyed_api
access_api id (authenticated auth url) (some key) = returns (keyed_api auth key)
access_api id (authenticated auth (some url)) none = returns (public_api url)
access_api id (authenticated auth none) none =
    traps (text "API key not yet initialized for provider: " ++ show id)
access_api id (unauthenticated url) key = returns (public_api url)

module _ (R : RegexLib) where
  -- `OverrideProvider::apply`: the URL is rewritten and the headers are dropped.
  unfoldable pub apply_override : OverrideProvider R → RpcApi → Result RpcApi Text
  apply_override o a = elim o.override_url [
    | none ↦ ok a
    | some substitution ↦
        map_ok
          (λ regex. record {
            url = R.replace_all regex a.url substitution.replacement;
            headers = none;
          })
          (R.compile substitution.pattern)
  ]

  -- `TryFrom` of the override that a controller passes: its pattern must compile.
  unfoldable pub override_try_from : OverrideProvider R → Result (OverrideProvider R) Text
  override_try_from o = elim o.override_url [
    | none ↦ ok (record { override_url = none })
    | some substitution ↦
        map_ok (λ _. record { override_url = some substitution }) (R.compile substitution.pattern)
  ]

unfoldable pub regex_error : Text → RpcError
regex_error e = validation_error (
    ValidationError.custom
      (text "BUG: regex should have been validated when initially set. Error: " ++ e))

module _ {X : Externals} where
  -- `Provider::api`
  unfoldable pub provider_api : State X → Provider → Exec RpcApi
  unfolding access_api
  provider_api s p = access_api p.provider_id p.access (get_api_key s p.provider_id)

  abbrev pub initial_api : State X → ResolvedRpcService → Exec RpcApi
  initial_api s (api a) = returns a
  initial_api s (known p) = provider_api s p

  -- `ResolvedRpcService::api`
  unfoldable pub resolved_api :
      State X → ResolvedRpcService → OverrideProvider X.regex → Exec (RpcResult RpcApi)
  unfolding provider_api
  resolved_api s service override_provider = do
    a ← initial_api s service
    returns (map_err regex_error (apply_override X.regex override_provider a))

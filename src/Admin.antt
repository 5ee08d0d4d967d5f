-- ===== src/Admin.antt =====
-- The calls that change the canister's settings: `updateApiKeys`, installation and upgrade
-- (`src/main.rs`).
pub mod ApiKeys
pub mod Upgrade
pub mod Reach
pub mod Stored
pub mod Refinement
use evm_rpc_canister.Prelude.{
  ℕ, ◌++◌, Bool, true, false, ◌||◌, List, [], ◌∷◌, Option, none, some, Text, text, show, ◌==◌,
  if◌then◌else◌, Result, ok, err,
}
use evm_rpc_canister.Prelude.Exec.{Exec, returns, traps, ◌>>=◌}
use evm_rpc_canister.Validate.{ApiKey, api_key_try_from}
use evm_rpc_canister.Providers.Defs.{Provider, RpcAccess, authenticated, unauthenticated}
use evm_rpc_canister.Providers.Resolve.{find_provider}
use evm_rpc_canister.Access.{override_try_from}
use evm_rpc_canister.Memory.{
  Externals, State, Principal, insert_api_key, remove_api_key, is_api_key_principal,
  set_demo_active, set_api_key_principals, set_log_filter, set_override_provider,
  set_num_subnet_nodes, initial, reset_unstable,
}
use evm_rpc_canister.Memory.Regex.{OverrideProvider}

abbrev pub check_access : ℕ → RpcAccess → Exec (Unit {0})
check_access id (authenticated auth url) = returns tt
check_access id (unauthenticated url) =
    traps (text "Trying to set API key for unauthenticated provider: " ++ show id)

abbrev pub check_provider : ℕ → Option Provider → Exec (Unit {0})
check_provider id none = traps (text "Provider not found: " ++ show id)
check_provider id (some p) = check_access id p.access

-- What one entry puts into the map: `key.try_into().expect("Invalid API key")`, or the removal.
abbrev pub parsed_key : Option Text → Exec (Option ApiKey)
parsed_key none = returns none
parsed_key (some key) = elim (api_key_try_from key) [
  | ok k ↦ returns (some k)
  | err e ↦ traps (text "Invalid API key")
]

module _ {X : Externals} where
  abbrev pub store_key : State X → ℕ → Option ApiKey → State X
  store_key s id none = remove_api_key s id
  store_key s id (some k) = insert_api_key s id k

  -- One round of the loop of `update_api_keys`.
  unfoldable pub update_entry : State X → ℕ → Option Text → Exec (State X)
  unfolding find_provider insert_api_key remove_api_key
  update_entry s id key = do
    _ ← check_provider id (find_provider (λ p. p.provider_id == id))
    k ← parsed_key key
    returns (store_key s id k)

  unfoldable pub update_entries : State X → List (ℕ × Option Text) → Exec (State X)
  update_entries s [] = returns s
  update_entries s ((id, key) ∷ rest) = do s' ← update_entry s id key; update_entries s' rest

  -- `require_api_key_principal_or_controller`; whether a principal is a controller is the system's.
  unfoldable pub is_authorized : (Principal → Bool) → State X → Principal → Bool
  unfolding is_api_key_principal
  is_authorized is_controller s caller = is_api_key_principal s caller || is_controller caller

  -- `update_api_keys` behind its guard, whose error is the reply of a rejected call.
  unfoldable pub update_api_keys :
      (Principal → Bool)
      → State X
      → Principal
      → List (ℕ × Option Text)
      → Exec (Result (Unit {0}) Text × State X)
  unfolding is_authorized
  update_api_keys is_controller s caller api_keys =
      if is_authorized is_controller s caller
      then (do s' ← update_entries s api_keys; returns (ok tt, s'))
      else returns (err (text "You are not authorized"), s)

module _ (X : Externals) where
  -- `InstallArgs` of `evm_rpc_types/src/lifecycle/mod.rs`
  pub record InstallArgs : Type 0 where
    pub demo : Option Bool
    pub manage_api_keys : Option (List Principal)
    pub log_filter : Option X.LogFilter
    pub override_provider : Option (OverrideProvider X.regex)
    pub nodes_in_subnet : Option ℕ

-- `if let Some(x) = o { s = f(s, x) }`
abbrev pub when_some : {A S : Type 0} → Option A → (S → A → S) → S → S
when_some none f s = s
when_some (some a) f s = f s a

module _ {X : Externals} where
  abbrev pub install_override : State X → Option (OverrideProvider X.regex) → Exec (State X)
  install_override s none = returns s
  install_override s (some o) = elim (override_try_from X.regex o) [
    | ok o' ↦ returns (set_override_provider s o')
    | err e ↦ traps (text "ERROR: invalid override provider")
  ]

  unfoldable pub post_upgrade : State X → InstallArgs X → Exec (State X)
  unfolding set_demo_active set_log_filter set_override_provider set_num_subnet_nodes
      override_try_from
  post_upgrade s args = do
    let s1 = when_some args.demo set_demo_active s
    let s2 = when_some args.manage_api_keys set_api_key_principals s1
    let s3 = when_some args.log_filter set_log_filter s2
    s4 ← install_override s3 args.override_provider
    returns (when_some args.nodes_in_subnet set_num_subnet_nodes s4)

  -- An upgrade of the canister resets the unstable state before `post_upgrade` runs.
  unfoldable pub upgrade : State X → InstallArgs X → Exec (State X)
  unfolding post_upgrade reset_unstable
  upgrade s args = post_upgrade (reset_unstable X s) args

-- `init`
unfoldable pub init : (X : Externals) → InstallArgs X → Exec (State X)
unfolding post_upgrade
init X args = post_upgrade (initial X) args

-- ===== src/Memory.antt =====
-- `src/memory.rs`: the canister's state. The stable cells are the fields that survive an upgrade; the
-- request counter and the usage record do not.
pub mod Regex
pub mod Principals
pub mod Storable
use evm_rpc_canister.Ord.Instances.{nat_ord, list_ord}
use evm_rpc_canister.BTree.Map
use evm_rpc_canister.Ord.{◌=?◌}
use evm_rpc_canister.Prelude.{
  ℕ, zero, suc, ◌+◌, ◌%◌, ◌^◌, Bool, false, List, [], ◌∷◌, ◌++◌, Option, none, Text, any, length,
}
use evm_rpc_canister.Constants.{nodes_in_subnet}
use evm_rpc_canister.Validate.{ApiKey}
use evm_rpc_canister.Providers.Defs.{SupportedRpcService}
use evm_rpc_canister.Providers.Usage.{TimedSizedMap, usage_new, record_evict, rank_ascending_evict}
use Regex.{RegexLib, OverrideProvider}

-- The bytes of a principal, by which principals are compared.
abbrev pub Principal : Type 0
Principal = Text

-- What the canister takes from other libraries: the usage map, regular expressions, and the type of
-- log filters with its default.
pub record Externals : Type 1 where
  pub usage_map : TimedSizedMap
  pub regex : RegexLib
  pub LogFilter : Type 0
  pub default_log_filter : LogFilter

-- `Vec::pop` of a stable vector removes the last element.
abbrev pub drop_last {ℓ} : {A : Type ℓ} → List A → List A
drop_last [] = []
drop_last (x ∷ []) = []
drop_last (x ∷ y ∷ xs) = x ∷ drop_last (y ∷ xs)

-- `while !principals.is_empty() { principals.pop(); }`
unfoldable pub pop_all : ℕ → List Principal → List Principal
pop_all zero l = l
pop_all (suc fuel) [] = []
pop_all (suc fuel) (x ∷ l) = pop_all fuel (drop_last (x ∷ l))

-- `for principal in new_principals { principals.push(&principal) }`
unfoldable pub push_all : List Principal → List Principal → List Principal
push_all l [] = l
push_all l (p ∷ ps) = push_all (l ++ (p ∷ [])) ps

module _ (X : Externals) where
  pub record State : Type 0 where
    pub is_demo_active : Bool
    pub api_key_map : List (ℕ × ApiKey)
    pub manage_api_keys : List Principal
    pub log_filter : X.LogFilter
    pub override_provider : OverrideProvider X.regex
    pub num_subnet_nodes : ℕ
    pub http_request_counter : ℕ
    pub ok_results : X.usage_map.Map

module _ (X : Externals) where
  -- The initial contents of the cells.
  unfoldable pub initial : State X
  initial = record {
    is_demo_active = false;
    api_key_map = [];
    manage_api_keys = [];
    log_filter = X.default_log_filter;
    override_provider = record { override_url = none };
    num_subnet_nodes = nodes_in_subnet;
    http_request_counter = 0;
    ok_results = usage_new X.usage_map;
  }

  -- An upgrade keeps the stable cells and resets the rest.
  unfoldable pub reset_unstable : State X → State X
  reset_unstable s = record s { http_request_counter = 0; ok_results = usage_new X.usage_map }

module _ {X : Externals} where
  unfoldable pub get_api_key : State X → ℕ → Option ApiKey
  get_api_key s provider_id = Map.get provider_id s.api_key_map

  unfoldable pub insert_api_key : State X → ℕ → ApiKey → State X
  insert_api_key s provider_id key = record s {
    api_key_map = Map.insert provider_id key s.api_key_map;
  }

  unfoldable pub remove_api_key : State X → ℕ → State X
  remove_api_key s provider_id = record s { api_key_map = Map.remove provider_id s.api_key_map }

  unfoldable pub is_api_key_principal : State X → Principal → Bool
  is_api_key_principal s principal = any (λ other. other =? principal) s.manage_api_keys

  unfoldable pub set_api_key_principals : State X → List Principal → State X
  unfolding pop_all push_all
  set_api_key_principals s new_principals = record s {
    manage_api_keys =
        push_all (pop_all (length s.manage_api_keys) s.manage_api_keys) new_principals;
  }

  unfoldable pub set_demo_active : State X → Bool → State X
  set_demo_active s is_active = record s { is_demo_active = is_active }

  unfoldable pub set_log_filter : State X → X.LogFilter → State X
  set_log_filter s filter = record s { log_filter = filter }

  unfoldable pub set_override_provider : State X → OverrideProvider X.regex → State X
  set_override_provider s provider = record s { override_provider = provider }

  unfoldable pub set_num_subnet_nodes : State X → ℕ → State X
  set_num_subnet_nodes s nodes = record s { num_subnet_nodes = nodes }

  -- The counter is a `u64` that wraps.
  unfoldable pub next_request_id : State X → ℕ × State X
  next_request_id s = (
    s.http_request_counter,
    record s { http_request_counter = (s.http_request_counter + 1) % 2 ^ 64 },
  )

  unfoldable pub record_ok_result : State X → SupportedRpcService → ℕ → State X
  record_ok_result s service now = record s {
    ok_results = record_evict X.usage_map s.ok_results service now;
  }

  unfoldable pub rank_providers :
      State X → List SupportedRpcService → ℕ → List SupportedRpcService × State X
  rank_providers s services now =
      let (ranked, usage) = rank_ascending_evict X.usage_map s.ok_results services now in
      (ranked, record s { ok_results = usage })

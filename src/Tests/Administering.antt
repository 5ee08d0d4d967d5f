-- ===== src/Tests/Administering.antt =====
-- An installation, an update of API keys, and a provider that is called with its key.
use evm_rpc_canister.Ord.Instances.{nat_ord, list_ord}
use evm_rpc_canister.BTree.Set.{contains}
use evm_rpc_canister.Prelude.{
  ℕ, ◌==◌, ◌≤◌, ◌≡◌, refl, arith, length, Bool, true, false, List, [], ◌∷◌, Option, none, some,
  Text, text, Result, ok, err, ◌⊎◌, unwrap_or, ◌≢◌, all, ◌++◌,
}
use evm_rpc_canister.Prelude.Exec.{returns, has_returned}
use evm_rpc_canister.Types.Service.{RpcApi, EthMainnetService}
use evm_rpc_canister.Types.Error.{RpcResult}
use evm_rpc_canister.Validate.{ApiKey, IsValidKey}
use evm_rpc_canister.Providers.Defs.{Provider, authenticated, url_parameter, SupportedRpcService}
use evm_rpc_canister.Providers.Resolve.{find_provider, known}
use evm_rpc_canister.Access.{provider_api, resolved_api}
use evm_rpc_canister.Access.Urls.{KeyedApi, provider_api-KeyedApi}
use evm_rpc_canister.Memory.{
  State, Principal, initial, get_api_key, set_api_key_principals, is_api_key_principal, push_all,
  pop_all,
}
use evm_rpc_canister.Memory.Principals.{set_api_key_principals-terminates}
use evm_rpc_canister.Memory.Regex.{OverrideProvider}
use evm_rpc_canister.Admin.{InstallArgs, init, post_upgrade, update_api_keys, is_authorized}
use evm_rpc_canister.Admin.ApiKeys.{
  is_good, after_entries, key_text, update_api_keys-get, update_api_keys-traps,
}
use evm_rpc_canister.Admin.Refinement.{Change, settings, Step-Change}
use evm_rpc_canister.Memory.Storable.{
  StableStrings, api_key_max_size, api_key_to_bytes, api_key_from_bytes,
}
use evm_rpc_canister.Admin.Stored.{Reach-stored_key}
use evm_rpc_canister.Admin.Reach.{
  Reach, installs, next, updates, IsSafe, Reach-IsSafe, Reach-resolved_api,
}
use evm_rpc_canister.Tests.Libraries.{externals, plain_texts}

abbrev admin : Principal
admin = 1 ∷ []

abbrev stranger : Principal
stranger = 2 ∷ []

abbrev no_controller : Principal → Bool
no_controller p = false

abbrev local_node : OverrideProvider plain_texts
local_node = record {
  override_url = some (record { pattern = text "https"; replacement = text "http" });
}

abbrev args : InstallArgs externals
args = record {
  demo = some true;
  manage_api_keys = some (admin ∷ []);
  log_filter = none;
  override_provider = some local_node;
  nodes_in_subnet = some 13;
}

abbrev pub installed : State externals
installed = record {
  is_demo_active = true;
  api_key_map = [];
  manage_api_keys = admin ∷ [];
  log_filter = 0;
  override_provider = local_node;
  num_subnet_nodes = 13;
  http_request_counter = 0;
  ok_results = λ s. 0;
}

init-installed : init externals args ≡ returns installed
unfolding init evm_rpc_canister.Tests.Libraries.compile_text text set_api_key_principals initial
    evm_rpc_canister.Providers.Usage.usage_new
init-installed = refl

abbrev entries : List (ℕ × Option Text)
entries = (1, some (text "first")) ∷ (1, some (text "key")) ∷ (5, none) ∷ []

abbrev keyed : State externals
keyed = record installed { api_key_map = (1, record { read = text "key" }) ∷ [] }

updated : update_api_keys no_controller installed admin entries ≡ returns (ok tt, keyed)
unfolding update_api_keys list_ord evm_rpc_canister.Admin.update_entries
    evm_rpc_canister.Admin.update_entry evm_rpc_canister.Providers.Table.providers
    evm_rpc_canister.Validate.api_key_try_from text evm_rpc_canister.Prelude.contains_byte
    evm_rpc_canister.Constants.valid_api_key_chars evm_rpc_canister.BTree.Map.remove
    evm_rpc_canister.BTree.Map.insert
updated = refl

keyed-Reach : Reach externals keyed
keyed-Reach = next (installs args init-installed) (updates no_controller admin entries updated)

Reach-IsSafe_example : IsSafe keyed
Reach-IsSafe_example = Reach-IsSafe keyed-Reach

admin-is_authorized : is_authorized no_controller installed admin ≡ true
unfolding is_authorized list_ord
admin-is_authorized = refl

entries_are_good : all is_good entries ≡ true
unfolding find_provider evm_rpc_canister.Providers.Table.providers
    evm_rpc_canister.Validate.validate_api_key text evm_rpc_canister.Prelude.contains_byte
    evm_rpc_canister.Constants.valid_api_key_chars
entries_are_good = refl

update_api_keys-get_example :
    (s : State externals) × (update_api_keys no_controller installed admin entries
      ≡ returns (ok tt, s))
    × ((id : ℕ)
        → key_text (get_api_key s id)
          ≡ after_entries id (key_text (get_api_key installed id)) entries)
update_api_keys-get_example =
    update_api_keys-get no_controller installed admin entries admin-is_authorized entries_are_good

-- The provider with identifier 2 takes no key.
abbrev bad_entries : List (ℕ × Option Text)
bad_entries = (1, some (text "key")) ∷ (2, some (text "key")) ∷ []

an_entry_is_bad : all is_good bad_entries ≡ false
unfolding find_provider evm_rpc_canister.Providers.Table.providers
    evm_rpc_canister.Validate.validate_api_key text evm_rpc_canister.Prelude.contains_byte
    evm_rpc_canister.Constants.valid_api_key_chars
an_entry_is_bad = refl

update_api_keys-traps_example :
    has_returned (update_api_keys no_controller installed admin bad_entries) ≡ false
update_api_keys-traps_example =
    update_api_keys-traps no_controller installed admin bad_entries admin-is_authorized
      an_entry_is_bad

-- The provider with identifier 1
abbrev ankr_provider : Provider
ankr_provider = record {
  provider_id = 1;
  chain_id = 1;
  access =
      authenticated (url_parameter (text "https://rpc.ankr.com/eth/{API_KEY}"))
        (some (text "https://rpc.ankr.com/eth"));
  alias = some (SupportedRpcService.eth_mainnet EthMainnetService.ankr);
}

abbrev is_ankr : Provider → Bool
is_ankr p = p.provider_id == 1

ankr_found : find_provider is_ankr ≡ some ankr_provider
unfolding find_provider evm_rpc_canister.Providers.Table.providers
ankr_found = refl

ankr_has_key : get_api_key keyed 1 ≡ some (record { read = text "key" })
unfolding get_api_key evm_rpc_canister.BTree.Map.get
ankr_has_key = refl

provider_api-KeyedApi_example :
    KeyedApi ankr_provider.access (record { read = text "key" }) (provider_api keyed ankr_provider)
provider_api-KeyedApi_example =
    provider_api-KeyedApi keyed is_ankr ankr_provider (record { read = text "key" }) ankr_found
      ankr_has_key

ankr_has_no_key : get_api_key installed 1 ≡ none
unfolding get_api_key evm_rpc_canister.BTree.Map.get
ankr_has_no_key = refl

abbrev rewritten : RpcResult RpcApi
rewritten = ok (record { url = text "http://rpc.ankr.com/eth/key"; headers = none })

ankr_resolved : resolved_api keyed (known ankr_provider) local_node ≡ returns rewritten
unfolding resolved_api get_api_key evm_rpc_canister.BTree.Map.get
    evm_rpc_canister.Access.apply_override evm_rpc_canister.Tests.Libraries.compile_text text
    evm_rpc_canister.Prelude.replace evm_rpc_canister.Constants.api_key_replace_string
ankr_resolved = refl

Reach-resolved_api_example : (a : RpcApi) × (rewritten ≡ ok a)
Reach-resolved_api_example =
    Reach-resolved_api (known ankr_provider) rewritten keyed-Reach ankr_resolved

Step-Change_example : Change externals (settings externals installed) (settings externals keyed)
Step-Change_example = Step-Change (updates no_controller admin entries updated)

-- Two principals, of which one is replaced
abbrev two_admins : State externals
two_admins = record installed { manage_api_keys = admin ∷ (stranger ∷ []) }

abbrev newcomer : Principal
newcomer = 3 ∷ (4 ∷ [])

set_api_key_principals-terminates_example :
    (set_api_key_principals two_admins (stranger ∷ (newcomer ∷ [])) ≡ record two_admins {
      manage_api_keys = push_all (pop_all 3 (admin ∷ (stranger ∷ []))) (stranger ∷ (newcomer ∷ []));
    })
    × ((p : Principal)
        → is_api_key_principal (set_api_key_principals two_admins (stranger ∷ (newcomer ∷ []))) p
          ≡ contains p (stranger ∷ (newcomer ∷ [])))
set_api_key_principals-terminates_example =
    set_api_key_principals-terminates two_admins (stranger ∷ (newcomer ∷ [])) 3 (omega arith)

abbrev stable_strings : StableStrings
stable_strings = record { string_from_bytes = returns; string_from_bytes-ascii = λ s h. refl }

abbrev stored_key : ApiKey
stored_key = record { read = text "key" }

keyed_has : get_api_key keyed 1 ≡ some stored_key
unfolding get_api_key evm_rpc_canister.BTree.Map.get
keyed_has = refl

Reach-stored_key_example :
    (length (api_key_to_bytes stored_key) ≤ api_key_max_size)
    × (api_key_from_bytes stable_strings (api_key_to_bytes stored_key) ≡ returns stored_key)
Reach-stored_key_example = Reach-stored_key stable_strings keyed-Reach 1 stored_key keyed_has

-- ===== src/Admin/Refinement.antt =====
-- What the calls of `src/main.rs` that change the settings promise, without how the settings are kept.
use mathlib.Core.Option
use evm_rpc_canister.BTree.Set.{contains}
use evm_rpc_canister.BTree.Map
use evm_rpc_canister.Ord.Instances.{nat_ord, list_ord}
use evm_rpc_canister.Prelude.{
  ℕ, ◌≡◌, refl, sym, ap, subst, ◌∙◌, Bool, true, ◌||◌, all, List, [], ◌∷◌, Option, none, some, Text,
  unwrap_or, Result, ok, ◌==◌, Bool-cases, inl, inr, arith,
}
use evm_rpc_canister.Prelude.Exec.{returns, has_returned, ◌>>=◌, >>=-eq-returns}
use evm_rpc_canister.Providers.Resolve.{find_provider}
use evm_rpc_canister.Memory.{
  Externals, State, Principal, get_api_key, is_api_key_principal, next_request_id, record_ok_result,
  rank_providers, reset_unstable, insert_api_key, remove_api_key, initial,
}
use evm_rpc_canister.Memory.Principals.{any-contains}
use evm_rpc_canister.Memory.Regex.{OverrideProvider}
use evm_rpc_canister.Admin.{
  InstallArgs, init, upgrade, post_upgrade, update_api_keys, update_entries, update_entry,
  is_authorized, check_provider, parsed_key, store_key,
}
use evm_rpc_canister.Admin.ApiKeys.{is_good, key_text, after_entries, entries-get, entries-return}
use evm_rpc_canister.Admin.Upgrade.{compiles, post_upgrade-settings, post_upgrade-returns}
use evm_rpc_canister.Admin.Reach.{
  Step, Reach, updates, upgrades, requests, records, ranks, installs, next,
}

module _ (X : Externals) where
  -- The settings as those who run the canister see them: the key of each provider, who may change
  -- keys, and what installation and upgrade set.
  pub record Settings : Type 0 where
    pub key_of : ℕ → Option Text
    pub managers : List Principal
    pub is_demo : Bool
    pub log_filter : X.LogFilter
    pub override_provider : OverrideProvider X.regex
    pub num_nodes : ℕ

  -- The settings that a state keeps; the sorted map of keys is seen as a function, and the request
  -- counter and the record of answers are not seen.
  abbrev pub settings : State X → Settings
  settings s = record {
    key_of = λ id. key_text (get_api_key s id);
    managers = s.manage_api_keys;
    is_demo = s.is_demo_active;
    log_filter = s.log_filter;
    override_provider = s.override_provider;
    num_nodes = s.num_subnet_nodes;
  }

  -- The settings after keys are updated, and after an installation or upgrade
  abbrev pub with_keys : List (ℕ × Option Text) → Settings → Settings
  with_keys entries v = record v { key_of = λ id. after_entries id (v.key_of id) entries }

  abbrev pub with_args : InstallArgs X → Settings → Settings
  with_args args v = record {
    key_of = v.key_of;
    managers = unwrap_or args.manage_api_keys v.managers;
    is_demo = unwrap_or args.demo v.is_demo;
    log_filter = unwrap_or args.log_filter v.log_filter;
    override_provider = unwrap_or args.override_provider v.override_provider;
    num_nodes = unwrap_or args.nodes_in_subnet v.num_nodes;
  }

  -- The specification: settings stay, a manager or controller updates keys with good entries, or an
  -- upgrade sets what its arguments give, whose override compiles.
  pub data Change : Settings → Settings → Type 0 where
    keeps : {v w : Settings} → w ≡ v → Change v w
    sets_keys :
        (is_controller : Principal → Bool) (caller : Principal) (entries : List (ℕ × Option Text))
        {v w : Settings}
        → (contains caller v.managers || is_controller caller) ≡ true
        → all is_good entries ≡ true
        → w ≡ with_keys entries v
        → Change v w
    configures :
        (args : InstallArgs X) {v w : Settings}
        → unwrap_or (Option.map (compiles X) args.override_provider) true ≡ true
        → w ≡ with_args args v
        → Change v w

  -- The settings that the specification allows from an installation on
  pub data Reached : Settings → Type 0 where
    starts :
        (args : InstallArgs X) {w : Settings}
        → unwrap_or (Option.map (compiles X) args.override_provider) true ≡ true
        → w ≡ with_args args (settings (initial X))
        → Reached w
    changes : {v w : Settings} → Reached v → Change v w → Reached w

module _ {X : Externals} where
  -- All settings but the keys
  abbrev Same : State X → State X → Type 0
  Same s t =
      (t.manage_api_keys ≡ s.manage_api_keys)
      × (t.is_demo_active ≡ s.is_demo_active)
      × (t.log_filter ≡ s.log_filter)
      × (t.override_provider ≡ s.override_provider)
      × (t.num_subnet_nodes ≡ s.num_subnet_nodes)

  store_key-Same : (s : State X) (id : ℕ) (k : Option _) → Same s (store_key s id k)
  unfolding insert_api_key remove_api_key
  store_key-Same s id none = (refl, refl, refl, refl, refl)
  store_key-Same s id (some k) = (refl, refl, refl, refl, refl)

  update_entry-Same :
      (s t : State X) (id : ℕ) (key : Option Text) → update_entry s id key ≡ returns t → Same s t
  unfolding update_entry
  update_entry-Same s t id key e =
      let (u, c, rest) =
        >>=-eq-returns (check_provider id (find_provider (λ p. p.provider_id == id)))
          (λ _. parsed_key key >>= λ k. returns (store_key s id k)) e in
      let (k, p, last) = >>=-eq-returns (parsed_key key) (λ k. returns (store_key s id k)) rest in
      let same : store_key s id k ≡ t = cc last in subst (Same s) same (store_key-Same s id k)

  update_entries-Same :
      (s t : State X) (entries : List (ℕ × Option Text))
      → update_entries s entries ≡ returns t
      → Same s t
  unfolding update_entries
  update_entries-Same s t [] e =
      let same : s ≡ t = cc e in subst (Same s) same (refl, refl, refl, refl, refl)
  update_entries-Same s t ((id, key) ∷ rest) e =
      let (m, first, others) =
        >>=-eq-returns (update_entry s id key) (λ t. update_entries t rest) e in
      let f = update_entry-Same s m id key first in
      let o = update_entries-Same m t rest others in
      (o.0 ∙ f.0, o.1 ∙ f.1, o.2 ∙ f.2, o.3 ∙ f.3, o.4 ∙ f.4)

  settings-eq :
      (s t : State X) (v : Settings X)
      → ((id : ℕ) → key_text (get_api_key t id) ≡ v.key_of id)
      → t.manage_api_keys ≡ v.managers
      → t.is_demo_active ≡ v.is_demo
      → t.log_filter ≡ v.log_filter
      → t.override_provider ≡ v.override_provider
      → t.num_subnet_nodes ≡ v.num_nodes
      → settings X t ≡ v
  settings-eq s t v k m d l o n = λ i. record {
    key_of = λ id. k id i;
    managers = m i;
    is_demo = d i;
    log_filter = l i;
    override_provider = o i;
    num_nodes = n i;
  }

  settings-with_keys :
      (s t : State X) (entries : List (ℕ × Option Text))
      → update_entries s entries ≡ returns t
      → settings X t ≡ with_keys X entries (settings X s)
  settings-with_keys s t entries e =
      let o = update_entries-Same s t entries e in
      settings-eq s t (with_keys X entries (settings X s)) (λ id. entries-get s t entries id e) o.0
        o.1 o.2 o.3 o.4

  authorized-Change :
      (is_controller : Principal → Bool) (caller : Principal) (s t : State X)
      (entries : List (ℕ × Option Text))
      → is_authorized is_controller s caller ≡ true
      → update_entries s entries ≡ returns t
      → Change X (settings X s) (settings X t)
  unfolding is_authorized is_api_key_principal
  authorized-Change is_controller caller s t entries h e =
      sets_keys is_controller caller entries
        (ground (arith, h, any-contains caller s.manage_api_keys))
        (sym (entries-return s entries) ∙ ap has_returned e) (settings-with_keys s t entries e)

  update_api_keys-Change :
      (is_controller : Principal → Bool) (caller : Principal) (s t : State X)
      (entries : List (ℕ × Option Text)) (r : Result (Unit {0}) Text)
      → update_api_keys is_controller s caller entries ≡ returns (r, t)
      → Change X (settings X s) (settings X t)
  unfolding update_api_keys
  update_api_keys-Change is_controller caller s t entries r e =
      elim (Bool-cases (is_authorized is_controller s caller)) [
        | inl h ↦
            let (m, first, last) =
              >>=-eq-returns (update_entries s entries) (λ m. returns (ok tt, m)) (rw h at e) in
            let same : m ≡ t = cc last in
            subst (λ x. Change X (settings X s) (settings X x)) same
              (authorized-Change is_controller caller s m entries h first)
        | inr h ↦ let same : s ≡ t = cc (rw h at e) in keeps (ap (settings X) (sym same))
      ]

  post_upgrade-compiled :
      (args : InstallArgs X) (s t : State X)
      → post_upgrade s args ≡ returns t
      → unwrap_or (Option.map (compiles X) args.override_provider) true ≡ true
  post_upgrade-compiled args s t e = sym (post_upgrade-returns s args) ∙ ap has_returned e

  settings-with_args :
      (args : InstallArgs X) (s t : State X)
      → post_upgrade s args ≡ returns t
      → settings X t ≡ with_args X args (settings X s)
  unfolding get_api_key
  settings-with_args args s t e =
      let k = post_upgrade-settings s t args e in
      settings-eq s t (with_args X args (settings X s))
        (λ id. ap (λ m. key_text (Map.get id m)) k.5) k.1 k.0 k.2 k.3 k.4

  -- The canister's calls refine the specification of its settings: every step of it changes the
  -- settings as a manager's or controller's update of keys with good entries does, or as an upgrade
  -- with its arguments does, or not at all. No other step changes a setting.
  pub Step-Change : {s t : State X} → Step X s t → Change X (settings X s) (settings X t)
  unfolding upgrade reset_unstable next_request_id record_ok_result rank_providers get_api_key
  Step-Change (updates is_controller caller entries {s = s} {s' = t} {r = r} e) =
      update_api_keys-Change is_controller caller s t entries r e
  Step-Change (upgrades args {s = s} {s' = t} e) =
      configures args (post_upgrade-compiled args (reset_unstable X s) t e)
        (settings-with_args args (reset_unstable X s) t e)
  Step-Change (requests s) = keeps refl
  Step-Change (records s service now) = keeps refl
  Step-Change (ranks s services now) = keeps refl

  -- In every state that the canister can be in, the settings are such as the specification allows:
  -- they come from those of an installation by changes of the specification alone.
  pub Reach-Reached : {s : State X} → Reach X s → Reached X (settings X s)
  unfolding init
  Reach-Reached (installs args {s = s} e) =
      starts args (post_upgrade-compiled args (initial X) s e)
        (settings-with_args args (initial X) s e)
  Reach-Reached (next r st) = changes (Reach-Reached r) (Step-Change st)

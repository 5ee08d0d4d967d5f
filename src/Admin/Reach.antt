-- ===== src/Admin/Reach.antt =====
-- The states that the canister can be in: after an installation, and then any sequence of upgrades,
-- updates of the API keys, and the changes that calls make to the unstable state (`src/main.rs` and
-- `src/memory.rs`).
use evm_rpc_canister.Ord.Instances.{nat_ord}
use evm_rpc_canister.BTree.Map.{get, get-insert, get-remove}
use evm_rpc_canister.Prelude.{
  ℕ, ◌≡◌, ◌∙◌, refl, sym, ap, subst, Bool, true, List, [], ◌∷◌, Option, none, some, Text, text,
  ◌==◌, Result, ok, err, map_err, arith, ◌⊎◌, inl, inr, false, if◌then◌else◌,
}
use evm_rpc_canister.Prelude.Exec.{Exec, returns, traps, ◌>>=◌, >>=-eq-returns}
use evm_rpc_canister.Types.Service.{RpcApi}
use evm_rpc_canister.Types.Error.{RpcResult}
use evm_rpc_canister.Validate.{ApiKey, IsValidKey, api_key_try_from}
use evm_rpc_canister.Providers.Defs.{SupportedRpcService}
use evm_rpc_canister.Providers.Resolve.{ResolvedRpcService, find_provider}
use evm_rpc_canister.Access.{apply_override, initial_api, resolved_api, regex_error}
use evm_rpc_canister.Memory.{
  Externals, State, Principal, initial, reset_unstable, get_api_key, next_request_id,
  record_ok_result, rank_providers,
}
use evm_rpc_canister.Memory.Regex.{OverrideProvider}
use evm_rpc_canister.Admin.{
  InstallArgs, init, upgrade, post_upgrade, update_entry, update_entries, update_api_keys,
  is_authorized,
}
use evm_rpc_canister.Admin.ApiKeys.{takes_key}
use evm_rpc_canister.Admin.Upgrade.{compiles, is_ok, post_upgrade-settings, post_upgrade-compiles}

module _ (X : Externals) where
  pub data Step : State X → State X → Type 0 where
    updates :
        (is_controller : Principal → Bool) (caller : Principal) (entries : List (ℕ × Option Text))
        {s s' : State X} {r : Result (Unit {0}) Text}
        → update_api_keys is_controller s caller entries ≡ returns (r, s')
        → Step s s'
    upgrades : (args : InstallArgs X) {s s' : State X} → upgrade s args ≡ returns s' → Step s s'
    requests : (s : State X) → Step s (next_request_id s).1
    records :
        (s : State X) (service : SupportedRpcService) (now : ℕ)
        → Step s (record_ok_result s service now)
    ranks :
        (s : State X) (services : List SupportedRpcService) (now : ℕ)
        → Step s (rank_providers s services now).1

  pub data Reach : State X → Type 0 where
    installs : (args : InstallArgs X) {s : State X} → init X args ≡ returns s → Reach s
    next : {s s' : State X} → Reach s → Step s s' → Reach s'

apply_override-is_ok :
    (X : Externals) (o : OverrideProvider X.regex) (a : RpcApi)
    → compiles X o ≡ true
    → is_ok (apply_override X.regex o a) ≡ true
unfolding apply_override
apply_override-is_ok X o a h = ground arith

-- The key is valid and belongs to a known provider that takes one.
abbrev pub IsGoodKey : ℕ → ApiKey → Type 0
IsGoodKey id k = IsValidKey k × (takes_key (find_provider (λ p. p.provider_id == id)) ≡ true)

-- What is stored for an identifier is nothing or such a key.
abbrev pub IsSafeKey : ℕ → Option ApiKey → Type 0
IsSafeKey id none = Unit
IsSafeKey id (some k) = IsGoodKey id k

IsSafeKey-of :
    (id : ℕ) (o : Option ApiKey) → ((k : ApiKey) → o ≡ some k → IsGoodKey id k) → IsSafeKey id o
IsSafeKey-of id none f = tt
IsSafeKey-of id (some k) f = f k refl

IsSafeKey-at :
    (id : ℕ) (k : ApiKey) (o : Option ApiKey) → IsSafeKey id o → o ≡ some k → IsGoodKey id k
IsSafeKey-at id k none h e = cc
IsSafeKey-at id k (some j) h e = subst (IsSafeKey id) e h

module _ {X : Externals} where
  -- Every stored key is valid and belongs to a known provider that takes one, and the pattern of the
  -- override compiles.
  pub record IsSafe (s : State X) : Type 0 where
    pub keys : (id : ℕ) → IsSafeKey id (get_api_key s id)
    pub override : compiles X s.override_provider ≡ true

  update_entry-IsSafe :
      (s s' : State X) (i : ℕ) (key : Option Text)
      → update_entry s i key ≡ returns s'
      → IsSafe s
      → IsSafe s'
  unfolding update_entry api_key_try_from get_api_key
  update_entry-IsSafe s s' i none e h = record {
    keys = λ id. IsSafeKey-of id (get id s'.api_key_map) (λ k g. ground (
      arith,
      get-remove i id s.api_key_map,
      IsSafeKey-at id k (get id s.api_key_map) (h.keys id),
    ));
    override = ground (arith, h.override);
  }
  update_entry-IsSafe s s' i (some key) e h = record {
    keys = λ id. IsSafeKey-of id (get id s'.api_key_map) (λ k g. ground (
      arith,
      get-insert i id (record { read = key }) s.api_key_map,
      IsSafeKey-at id k (get id s.api_key_map) (h.keys id),
    ));
    override = ground (arith, h.override);
  }

  update_entries-IsSafe :
      (s s' : State X) (entries : List (ℕ × Option Text))
      → update_entries s entries ≡ returns s'
      → IsSafe s
      → IsSafe s'
  unfolding update_entries
  update_entries-IsSafe s s' [] e h = ground (arith, h.keys, h.override)
  update_entries-IsSafe s s' ((i, key) ∷ rest) e h =
      let (t, first, others) =
        >>=-eq-returns (update_entry s i key) (λ t. update_entries t rest) e in
      update_entries-IsSafe t s' rest others (update_entry-IsSafe s t i key first h)

  -- The invariant rests on the map of keys and on the override alone.
  IsSafe-eq :
      {s s' : State X}
      → s'.api_key_map ≡ s.api_key_map
      → s'.override_provider ≡ s.override_provider
      → IsSafe s
      → IsSafe s'
  unfolding get_api_key
  IsSafe-eq m o h = record {
    keys = λ id. subst (λ a. IsSafeKey id (get id a)) (sym m) (h.keys id);
    override = ap (compiles X) o ∙ h.override;
  }

  guarded :
      {s s' : State X} {r : Result (Unit {0}) Text} (t : Text) (b : Bool) (m : Exec (State X))
      → (if b
          then ◌>>=◌ {B = Result (Unit {0}) Text × State X} m (λ a. returns (ok tt, a))
          else returns (err t, s))
        ≡ returns (r, s')
      → (m ≡ returns s') ⊎ (s ≡ s')
  guarded t true (returns a) e = inl (ground arith)
  guarded t true (traps u) e = cc
  guarded t false m e = inr (ground arith)

  update_api_keys-IsSafe :
      (is_controller : Principal → Bool) (caller : Principal) (entries : List (ℕ × Option Text))
      (s s' : State X) (r : Result (Unit {0}) Text)
      → update_api_keys is_controller s caller entries ≡ returns (r, s')
      → IsSafe s
      → IsSafe s'
  unfolding update_api_keys
  update_api_keys-IsSafe is_controller caller entries s s' r e h =
      elim (guarded (text "You are not authorized") (is_authorized is_controller s caller)
        (update_entries s entries) e) [
          | inl u ↦ update_entries-IsSafe s s' entries u h
          | inr q ↦ subst IsSafe q h
        ]

  post_upgrade-IsSafe :
      (s s' : State X) (args : InstallArgs X)
      → post_upgrade s args ≡ returns s'
      → IsSafe s
      → IsSafe s'
  unfolding get_api_key
  post_upgrade-IsSafe s s' args e h = record {
    keys = λ id.
        subst (λ a. IsSafeKey id (get id a)) (sym (post_upgrade-settings s s' args e).5)
          (h.keys id);
    override = post_upgrade-compiles s s' args e h.override;
  }

  Step-IsSafe : {s s' : State X} → Step X s s' → IsSafe s → IsSafe s'
  unfolding upgrade reset_unstable next_request_id record_ok_result rank_providers
  Step-IsSafe (updates is_controller caller entries {s} {s'} {r} e) h =
      update_api_keys-IsSafe is_controller caller entries s s' r e h
  Step-IsSafe (upgrades args {s} {s'} e) h =
      post_upgrade-IsSafe (reset_unstable X s) s' args e (IsSafe-eq refl refl h)
  Step-IsSafe (requests s) h = IsSafe-eq refl refl h
  Step-IsSafe (records s service now) h = IsSafe-eq refl refl h
  Step-IsSafe (ranks s services now) h = IsSafe-eq refl refl h

  initial-IsSafe : IsSafe (initial X)
  unfolding initial get_api_key get
  initial-IsSafe = record { keys = λ id. tt; override = refl }

  -- In every state that the canister can be in, each stored key passes validation and belongs to a
  -- provider of the table that takes a key, and the override's pattern compiles.
  pub Reach-IsSafe : {s : State X} → Reach X s → IsSafe s
  unfolding init
  Reach-IsSafe (installs args {s} e) = post_upgrade-IsSafe (initial X) s args e initial-IsSafe
  Reach-IsSafe (next r st) = Step-IsSafe st (Reach-IsSafe r)

  -- In every state that the canister can be in, resolving a service to its URL and headers under the
  -- stored override, where it returns, gives a value and not the error that the code marks as a bug.
  pub Reach-resolved_api :
      {s : State X} (service : ResolvedRpcService) (r : RpcResult RpcApi)
      → Reach X s
      → resolved_api s service s.override_provider ≡ returns r
      → (a : RpcApi) × (r ≡ ok a)
  unfolding resolved_api
  Reach-resolved_api {s} service r reach e =
      let (a, first, last) =
        >>=-eq-returns (initial_api s service)
          (λ a. returns (map_err regex_error (apply_override X.regex s.override_provider a))) e in
      ground
        (arith, last, apply_override-is_ok X s.override_provider a (Reach-IsSafe reach).override)

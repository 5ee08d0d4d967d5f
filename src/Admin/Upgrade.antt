-- ===== src/Admin/Upgrade.antt =====
-- What installation and upgrade set (`init` and `post_upgrade` of `src/main.rs`).
use mathlib.Core.Option
use evm_rpc_canister.Ord.Instances.{nat_ord, list_ord}
use evm_rpc_canister.BTree.Set.{contains}
use evm_rpc_canister.Prelude.{
  ℕ, ◌≡◌, ◌∙◌, refl, ap, sym, Bool, true, false, List, Option, none, some, Text, text, unwrap_or,
  Result, ok, err, arith,
}
use evm_rpc_canister.Prelude.Exec.{returns, has_returned}
use evm_rpc_canister.Access.{override_try_from}
use evm_rpc_canister.Memory.{
  Externals, State, Principal, set_api_key_principals, set_demo_active, set_override_provider,
}
use evm_rpc_canister.Memory.Principals.{set_api_key_principals_lem, any-contains}
use evm_rpc_canister.Memory.Regex.{OverrideProvider}
use evm_rpc_canister.Admin.{
  InstallArgs, post_upgrade, install_override, update_api_keys, is_authorized, when_some,
}

abbrev pub is_ok {ℓ κ} : {A : Type ℓ} {E : Type κ} → Result A E → Bool
is_ok (ok a) = true
is_ok (err e) = false

-- The pattern of an override, if there is one, compiles.
abbrev pub compiles : (X : Externals) → OverrideProvider X.regex → Bool
compiles X o = elim o.override_url [ none ↦ true | some sub ↦ is_ok (X.regex.compile sub.pattern) ]

module _ {X : Externals} where
  install_override-eq :
      (s s' : State X) (o : Option (OverrideProvider X.regex))
      → install_override s o ≡ returns s'
      → s' ≡ set_override_provider s (unwrap_or o s.override_provider)
  unfolding override_try_from set_override_provider
  install_override-eq s s' none e = ground arith
  install_override-eq s s' (some o) e = ground arith

  principals-step :
      (s : State X) (o : Option (List Principal))
      → when_some o set_api_key_principals s
        ≡ record s { manage_api_keys = unwrap_or o s.manage_api_keys }
  principals-step s none = refl
  principals-step s (some l) = set_api_key_principals_lem s l

  -- An installation or upgrade that succeeds sets each setting that its arguments give, keeps the
  -- others, and touches neither the API keys nor the request counter.
  pub post_upgrade-settings :
      (s s' : State X) (args : InstallArgs X)
      → post_upgrade s args ≡ returns s'
      → (s'.is_demo_active ≡ unwrap_or args.demo s.is_demo_active)
        × (s'.manage_api_keys ≡ unwrap_or args.manage_api_keys s.manage_api_keys)
        × (s'.log_filter ≡ unwrap_or args.log_filter s.log_filter)
        × (s'.override_provider ≡ unwrap_or args.override_provider s.override_provider)
        × (s'.num_subnet_nodes ≡ unwrap_or args.nodes_in_subnet s.num_subnet_nodes)
        × (s'.api_key_map ≡ s.api_key_map)
        × (s'.http_request_counter ≡ s.http_request_counter)
        × (s'.ok_results ≡ s.ok_results)
  unfolding post_upgrade
  post_upgrade-settings s s' args e =
      ground (arith, principals-step (when_some args.demo set_demo_active s) args.manage_api_keys)

  -- After an installation or upgrade that names the principals, an update of the API keys by anybody
  -- else who is no controller is rejected and changes nothing.
  pub update_api_keys-rejects :
      (is_controller : Principal → Bool) (s s' : State X) (args : InstallArgs X)
      (principals : List Principal) (caller : Principal) (entries : List (ℕ × Option Text))
      → args.manage_api_keys ≡ some principals
      → post_upgrade s args ≡ returns s'
      → contains caller principals ≡ false
      → is_controller caller ≡ false
      → update_api_keys is_controller s' caller entries
        ≡ returns (err (text "You are not authorized"), s')
  unfolding update_api_keys is_authorized
  update_api_keys-rejects is_controller s s' args principals caller entries a u c k =
      ground (arith, (post_upgrade-settings s s' args u).1, any-contains caller s'.manage_api_keys)

  -- An installation or upgrade fails exactly when it gives an override whose pattern does not compile.
  pub post_upgrade-returns :
      (s : State X) (args : InstallArgs X)
      → has_returned (post_upgrade s args)
        ≡ unwrap_or (Option.map (compiles X) args.override_provider) true
  unfolding post_upgrade override_try_from
  post_upgrade-returns s args = ground arith

  pub post_upgrade-compiles :
      (s s' : State X) (args : InstallArgs X)
      → post_upgrade s args ≡ returns s'
      → compiles X s.override_provider ≡ true
      → compiles X s'.override_provider ≡ true
  post_upgrade-compiles s s' args e h = ground (
    arith,
    (post_upgrade-settings s s' args e).3,
    sym (post_upgrade-returns s args) ∙ ap has_returned e,
  )

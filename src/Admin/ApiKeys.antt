-- ===== src/Admin/ApiKeys.antt =====
-- What `updateApiKeys` of `src/main.rs` does to the map of API keys.
use evm_rpc_canister.Ord.Instances.{nat_ord, list_ord}
use evm_rpc_canister.BTree.Map.{get-insert, get-remove}
use evm_rpc_canister.Prelude.{
  ℕ, ◌≡◌, ◌∙◌, refl, ap, sym, Bool, true, false, ◌&&◌, List, [], ◌∷◌, Option, none, some, Text,
  ◌==◌, all, ok, err, arith, if◌then◌else◌,
}
use evm_rpc_canister.Prelude.Exec.{Exec, returns, traps, ◌>>=◌, >>=-eq-returns, has_returned}
use evm_rpc_canister.Validate.{ApiKey, api_key_try_from, validate_api_key}
use evm_rpc_canister.Providers.Defs.{Provider, authenticated, unauthenticated}
use evm_rpc_canister.Providers.Resolve.{find_provider}
use evm_rpc_canister.Memory.{Externals, State, Principal, get_api_key}
use evm_rpc_canister.Admin.{update_entry, update_entries, update_api_keys, is_authorized}

-- The provider exists and takes an API key.
abbrev pub takes_key : Option Provider → Bool
takes_key none = false
takes_key (some p) = elim p.access [ authenticated auth url ↦ true | unauthenticated url ↦ false ]

abbrev pub is_valid : Option Text → Bool
is_valid none = true
is_valid (some key) = elim (validate_api_key key) [ ok u ↦ true | err e ↦ false ]

-- An entry that the call accepts.
abbrev pub is_good : ℕ × Option Text → Bool
is_good (id, key) = takes_key (find_provider (λ p. p.provider_id == id)) && is_valid key

-- The key that the entries leave at an identifier, from the key that was there: the last entry of
-- the identifier counts.
abbrev pub after_entries : ℕ → Option Text → List (ℕ × Option Text) → Option Text
after_entries id before [] = before
after_entries id before ((i, key) ∷ rest) = after_entries id (if id == i then key else before) rest

abbrev pub key_text : Option ApiKey → Option Text
key_text none = none
key_text (some k) = some k.read

returned {ℓ} : {A : Type ℓ} (m : Exec A) → has_returned m ≡ true → (a : A) × (m ≡ returns a)
returned (returns a) h = (a, refl)
returned (traps t) h = cc

entries-return_step {ℓ} :
    {A : Type ℓ} (f : A → Exec A) (i : ℕ) (key : Option Text) (rest : List (ℕ × Option Text))
    (m : Exec A)
    → has_returned m ≡ is_good (i, key)
    → ((a : A) → has_returned (f a) ≡ all is_good rest)
    → has_returned (m >>= f) ≡ all is_good ((i, key) ∷ rest)
entries-return_step f i key rest (returns a) h k = rw (sym h) (k a)
entries-return_step f i key rest (traps t) h k = rw (sym h) refl

module _ {X : Externals} where
  entry-returns :
      (s : State X) (id : ℕ) (key : Option Text)
      → has_returned (update_entry s id key) ≡ is_good (id, key)
  unfolding update_entry api_key_try_from
  entry-returns s id key = ground arith

  entry-get :
      (s s' : State X) (i : ℕ) (key : Option Text) (id : ℕ)
      → update_entry s i key ≡ returns s'
      → key_text (get_api_key s' id) ≡ (if id == i then key else key_text (get_api_key s id))
  unfolding update_entry api_key_try_from get_api_key
  entry-get s s' i none id e = ground (arith, get-remove i id s.api_key_map)
  entry-get s s' i (some key) id e =
      ground (arith, get-insert i id (record { read = key }) s.api_key_map)

  pub entries-return :
      (s : State X) (entries : List (ℕ × Option Text))
      → has_returned (update_entries s entries) ≡ all is_good entries
  unfolding update_entries
  entries-return s [] = refl
  entries-return s ((i, key) ∷ rest) =
      entries-return_step (λ s'. update_entries s' rest) i key rest (update_entry s i key)
        (entry-returns s i key) (λ s'. entries-return s' rest)

  pub entries-get :
      (s s' : State X) (entries : List (ℕ × Option Text)) (id : ℕ)
      → update_entries s entries ≡ returns s'
      → key_text (get_api_key s' id) ≡ after_entries id (key_text (get_api_key s id)) entries
  unfolding update_entries
  entries-get s s' [] id e = ground arith
  entries-get s s' ((i, key) ∷ rest) id e =
      let (t, first, others) =
        >>=-eq-returns (update_entry s i key) (λ t. update_entries t rest) e in
      entries-get t s' rest id others
      ∙ ap (λ k. after_entries id k rest) (entry-get s t i key id first)

  -- An authorized call whose entries are all good returns, and then every provider has the key of
  -- its last entry, or none if that entry removes it; a provider without an entry keeps its key.
  pub update_api_keys-get :
      (is_controller : Principal → Bool) (s : State X) (caller : Principal)
      (entries : List (ℕ × Option Text))
      → is_authorized is_controller s caller ≡ true
      → all is_good entries ≡ true
      → (s' : State X) × (update_api_keys is_controller s caller entries ≡ returns (ok tt, s'))
        × ((id : ℕ)
            → key_text (get_api_key s' id) ≡ after_entries id (key_text (get_api_key s id)) entries)
  unfolding update_api_keys
  update_api_keys-get is_controller s caller entries h g =
      let (s', e) = returned (update_entries s entries) (entries-return s entries ∙ g) in
      (s', ground (arith, e), λ id. entries-get s s' entries id e)

  -- An authorized call with a bad entry, an unknown or public provider or an invalid key, traps as a
  -- whole: no entry of it takes effect, also not those before the bad one.
  pub update_api_keys-traps :
      (is_controller : Principal → Bool) (s : State X) (caller : Principal)
      (entries : List (ℕ × Option Text))
      → is_authorized is_controller s caller ≡ true
      → all is_good entries ≡ false
      → has_returned (update_api_keys is_controller s caller entries) ≡ false
  unfolding update_api_keys
  update_api_keys-traps is_controller s caller entries h g =
      ground (arith, entries-return s entries)

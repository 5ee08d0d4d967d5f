-- ===== src/Access/Urls.antt =====
-- Which URL a provider of the table is called at (`Provider::api` of `src/types/mod.rs`).
use mathlib.Core.List.{append-nil}
use evm_rpc_canister.Ord.{◌=?◌, =?_iff}
use evm_rpc_canister.Ord.Instances.{nat_ord, list_ord}
use evm_rpc_canister.Prelude.{
  ℕ, zero, ◌-◌, ◌≡◌, ◌∙◌, refl, ap, sym, Bool, true, false, not, ◌&&◌, ◌||◌, ◌⊎◌, inl, inr, subst,
  [], ◌∷◌, ◌++◌, none, some, Text, text, ◌==◌, all, take, length, All-find, All-of_all, starts_with,
  contains_byte, replace, replace_from, arith,
}
use evm_rpc_canister.Prelude.Exec.{Exec, returns, has_returned}
use evm_rpc_canister.Constants.{api_key_replace_string}
use evm_rpc_canister.Types.Service.{RpcApi}
use evm_rpc_canister.Validate.{ApiKey}
use evm_rpc_canister.Providers.Defs.{
  Provider, bearer_token, url_parameter, RpcAccess, authenticated, unauthenticated, public_url,
}
use evm_rpc_canister.Providers.Table.{providers}
use evm_rpc_canister.Providers.Resolve.{find_provider}
use evm_rpc_canister.Memory.{Externals, State, get_api_key}
use evm_rpc_canister.Access.{public_api, access_api, provider_api}

-- Where no byte before the marker opens a brace, exactly the marker is replaced.
replace_marker :
    (prefix key : Text)
    → contains_byte prefix b'{' ≡ false
    → replace_from zero (prefix ++ api_key_replace_string) api_key_replace_string key
      ≡ prefix ++ key
unfolding replace_from contains_byte api_key_replace_string starts_with
replace_marker [] key h = append-nil key
replace_marker (c ∷ prefix) key h = ground (arith, replace_marker prefix key)

-- A pattern that is the marker behind a text without braces.
before_marker : Text → Text
before_marker pattern = take (length pattern - 9) pattern

ends_in_marker : Text → Bool
unfolding before_marker
ends_in_marker pattern =
    (pattern =? (before_marker pattern ++ api_key_replace_string))
    && not (contains_byte (before_marker pattern) b'{')

has_keyed_url : RpcAccess → Bool
has_keyed_url (authenticated (url_parameter pattern) url) = ends_in_marker pattern
has_keyed_url _ = true

-- The API of a provider with an API key: a pattern is its text before the marker with the key behind
-- it, a bearer token goes into a header and leaves the URL alone, and a public provider ignores it.
abbrev pub KeyedApi : RpcAccess → ApiKey → Exec RpcApi → Type 0
KeyedApi (authenticated (url_parameter pattern) url) key r =
    (prefix : Text) × (pattern ≡ prefix ++ api_key_replace_string)
    × (r ≡ returns (record { url = prefix ++ key.read; headers = none }))
KeyedApi (authenticated (bearer_token url) public) key r =
    r
    ≡ returns (record {
      url = url;
      headers =
          some (record { name = text "Authorization"; value = text "Bearer " ++ key.read } ∷ []);
    })
KeyedApi (unauthenticated url) key r = r ≡ returns (public_api url)

access_api-KeyedApi :
    (id : ℕ) (access : RpcAccess) (key : ApiKey)
    → has_keyed_url access ≡ true
    → KeyedApi access key (access_api id access (some key))
unfolding has_keyed_url ends_in_marker access_api replace
access_api-KeyedApi id (authenticated (url_parameter pattern) url) key h =
    let prefix = before_marker pattern in
    let e : pattern ≡ prefix ++ api_key_replace_string =
      (=?_iff pattern (prefix ++ api_key_replace_string)).0 (ground arith) in
    (
      prefix,
      e,
      ap (λ u. returns (public_api u))
          (ap (λ t. replace_from zero t api_key_replace_string key.read) e
            ∙ replace_marker prefix key.read (ground arith)),
    )
access_api-KeyedApi id (authenticated (bearer_token url) public) key h = refl
access_api-KeyedApi id (unauthenticated url) key h = refl

all_keyed : all (λ p. has_keyed_url p.access) providers ≡ true
unfolding has_keyed_url ends_in_marker providers text contains_byte api_key_replace_string list_ord
all_keyed = refl

-- Only the provider with identifier 6 has no public URL.
has_public_url : ℕ → RpcAccess → Bool
has_public_url id access = id == 6 || elim (public_url access) [ none ↦ false | some u ↦ true ]

all_public : all (λ p. has_public_url p.provider_id p.access) providers ≡ true
unfolding has_public_url providers public_url
all_public = refl

-- What a provider without a stored key answers: its public URL, or a trap for lack of one.
abbrev pub UnkeyedApi : ℕ → RpcAccess → Exec RpcApi → Type 0
UnkeyedApi id access r =
    ((id ≡ 6) × (public_url access ≡ none) × (has_returned r ≡ false))
    ⊎ ((url : Text) × (public_url access ≡ some url) × (r ≡ returns (public_api url)))

access_api-UnkeyedApi :
    (id : ℕ) (access : RpcAccess)
    → has_public_url id access ≡ true
    → UnkeyedApi id access (access_api id access none)
unfolding has_public_url access_api public_url
access_api-UnkeyedApi id (authenticated auth none) h = inl (ground arith, refl, refl)
access_api-UnkeyedApi id (authenticated auth (some url)) h = inr (url, refl, refl)
access_api-UnkeyedApi id (unauthenticated url) h = inr (url, refl, refl)

module _ {X : Externals} (s : State X) where
  -- With a stored key, a provider of the table is called at a URL that is fixed up to the key, which
  -- stands at its end; a bearer token only goes into the header.
  pub provider_api-KeyedApi :
      (f : Provider → Bool) (p : Provider) (key : ApiKey)
      → find_provider f ≡ some p
      → get_api_key s p.provider_id ≡ some key
      → KeyedApi p.access key (provider_api s p)
  unfolding provider_api find_provider
  provider_api-KeyedApi f p key e g =
      let h =
        All-find (λ q. has_keyed_url q.access ≡ true) f providers
          (All-of_all _ (λ q. has_keyed_url q.access) providers (λ _ t. t) all_keyed) e in
      subst (λ o. KeyedApi p.access key (access_api p.provider_id p.access o)) (sym g)
        (access_api-KeyedApi p.provider_id p.access key h)

  -- Without a stored key, a provider of the table is called at its public URL, and only the provider
  -- with identifier 6 has none and traps.
  pub provider_api-public :
      (f : Provider → Bool) (p : Provider)
      → find_provider f ≡ some p
      → get_api_key s p.provider_id ≡ none
      → UnkeyedApi p.provider_id p.access (provider_api s p)
  unfolding provider_api find_provider
  provider_api-public f p e g =
      let h =
        All-find (λ q. has_public_url q.provider_id q.access ≡ true) f providers
          (All-of_all _ (λ q. has_public_url q.provider_id q.access) providers (λ _ t. t)
            all_public)
          e in
      subst (λ o. UnkeyedApi p.provider_id p.access (access_api p.provider_id p.access o)) (sym g)
        (access_api-UnkeyedApi p.provider_id p.access h)

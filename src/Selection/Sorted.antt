-- ===== src/Selection/Sorted.antt =====
-- The selected services are a set (`Providers::new` of `src/rpc_client/mod.rs`).
use evm_rpc_canister.BTree.Set.{IsAscending, from_list-IsAscending, is_distinct, contains-Above}
use evm_rpc_canister.Prelude.{
  ℕ, ◌≡◌, refl, true, List, [], ◌∷◌, Option, none, some, Result, ok, err, arith, subst, map_ok,
  unwrap_or,
}
use evm_rpc_canister.Prelude.Exec.{Exec, returns, traps, ◌>>=◌}
use evm_rpc_canister.Types.Service.{RpcService, rpc_service_ord}
use evm_rpc_canister.Types.Config.{
  RpcServices, RpcConfig, ConsensusStrategy, equality, threshold, default_rpc_config,
}
use evm_rpc_canister.Types.Error.{ProviderError}
use evm_rpc_canister.Providers.Defs.{SupportedRpcService}
use evm_rpc_canister.Providers.Usage.{TimedSizedMap}
use evm_rpc_canister.Selection.{
  Providers, default_num_providers_for_equality, choose_specified, best, choose_default,
  choose_providers, non_empty, providers_new, user_defined_providers, supported_providers,
}
use evm_rpc_canister.Client.{EthRpcClient, client_new}

-- The services of a selection, if there are some, are sorted.
abbrev SortedOk : Result (List RpcService) ProviderError → Type 0
SortedOk (ok services) = IsAscending services
SortedOk (err e) = Unit

choose_specified-SortedOk :
    (services : List RpcService) (total : Option ℕ) (min : ℕ)
    → SortedOk (choose_specified services total min)
unfolding choose_specified
choose_specified-SortedOk services total min = ground (arith, from_list-IsAscending services)

module _ (M : TimedSizedMap) where
  open M use {Map}

  abbrev SortedChosen : Exec (Result (List RpcService) ProviderError × Map) → Type 0
  SortedChosen (returns c) = SortedOk c.0
  SortedChosen (traps t) = Unit

  best-IsAscending :
      (usage : Map) (supported : List SupportedRpcService) (now n : ℕ)
      → IsAscending (best M usage supported now n).0
  unfolding best
  best-IsAscending usage supported now n = from_list-IsAscending _

  choose_default-SortedChosen :
      (usage : Map) (supported : List SupportedRpcService) (total : Option ℕ) (min now : ℕ)
      → SortedChosen (choose_default M usage supported total min now)
  unfolding choose_default
  choose_default-SortedChosen usage supported none min now = tt
  choose_default-SortedChosen usage supported (some total) min now =
      ground (arith, best-IsAscending usage supported now total)

  choose_providers-SortedChosen :
      (usage : Map) (user : Option (List RpcService)) (supported : List SupportedRpcService)
      (strategy : ConsensusStrategy) (now : ℕ)
      → SortedChosen (choose_providers M usage user supported strategy now)
  unfolding choose_providers
  choose_providers-SortedChosen usage (some services) supported equality now =
      from_list-IsAscending services
  choose_providers-SortedChosen usage none supported equality now =
      best-IsAscending usage supported now default_num_providers_for_equality
  choose_providers-SortedChosen usage none supported (threshold total min) now =
      ground (arith, choose_default-SortedChosen usage supported total min now)
  choose_providers-SortedChosen usage (some services) supported (threshold total min) now =
      ground (arith, choose_specified-SortedOk services total min)

  pub IsAscending-is_distinct : (s : List RpcService) → IsAscending s → is_distinct s ≡ true
  unfolding is_distinct
  IsAscending-is_distinct [] h = refl
  IsAscending-is_distinct (x ∷ s) h =
      ground (arith, contains-Above x s h.0, IsAscending-is_distinct s h.1)

  abbrev non_empty_of :
      ℕ
      → Exec (Result (List RpcService) ProviderError × Map)
      → Exec (Result Providers ProviderError × Map)
  non_empty_of chain chosen = do c ← chosen; returns (non_empty M chain c.0, c.1)

  built :
      (chain : ℕ) (config : RpcConfig)
      → Exec (Result (List RpcService) ProviderError × Map)
      → Exec (Result EthRpcClient ProviderError × Map)
  built chain config chosen = do
    created ← non_empty_of chain chosen
    returns (
      map_ok (λ providers. record { providers = providers; config = config }) created.0,
      created.1,
    )

  built-IsAscending :
      (chain : ℕ) (config : RpcConfig) (c : Exec (Result (List RpcService) ProviderError × Map))
      (client : EthRpcClient) (usage' : Map)
      → SortedChosen c
      → built chain config c ≡ returns (ok client, usage')
      → IsAscending client.providers.services
  unfolding built
  built-IsAscending chain config (traps t) client usage' s h = cc h
  built-IsAscending chain config (returns (err e, u)) client usage' s h = cc h
  built-IsAscending chain config (returns (ok [], u)) client usage' s h = cc h
  built-IsAscending chain config (returns (ok (x ∷ l), u)) client usage' s h =
      let same : x ∷ l ≡ client.providers.services = cc h in subst IsAscending same s

  -- The services of a client are different from each other.
  pub client_new-is_distinct :
      (usage usage' : Map) (source : RpcServices) (config : Option RpcConfig) (now : ℕ)
      (client : EthRpcClient)
      → client_new M usage source config now ≡ returns (ok client, usage')
      → is_distinct client.providers.services ≡ true
  unfolding client_new providers_new built
  client_new-is_distinct usage usage' source config now client h =
      let user = user_defined_providers source in
      let supported = supported_providers source in
      let settings = unwrap_or config default_rpc_config in
      let strategy = unwrap_or settings.response_consensus equality in
      let c = choose_providers M usage user supported.1 strategy now in
      IsAscending-is_distinct _ (
        built-IsAscending supported.0 settings c client usage'
          (choose_providers-SortedChosen usage user supported.1 strategy now) h)

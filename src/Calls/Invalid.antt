-- ===== src/Calls/Invalid.antt =====
-- A request that cannot be built ends the whole call (`EthRpcClient::parallel_call` of
-- `src/rpc_client/mod.rs`).
use evm_rpc_canister.BTree.Map
use evm_rpc_canister.BTree.Set
use evm_rpc_canister.Ord.{=?_iff}
use evm_rpc_canister.Prelude.{
  ℕ, ◌≡◌, ◌∙◌, refl, ap, All, none, some, true, false, List, [], ◌∷◌, Text, text, ok, inl, inr, ◌⊎◌,
  Bool-cases, arith, unwrap_or,
}
use evm_rpc_canister.Prelude.Exec
use evm_rpc_canister.Types.Service.{RpcService, RpcApi, rpc_service_ord}
use evm_rpc_canister.Providers.Resolve.{ResolvedRpcService, resolve_rpc_service}
use evm_rpc_canister.Access.{resolved_api}
use evm_rpc_canister.Memory.{Externals, State}
use evm_rpc_canister.Client.{EthRpcClient}
use evm_rpc_canister.Calls.{
  MultiLib, Network, Request, Call, request_for, resolved_request, posted, post, insert_requests,
  call_services, outcall, to_host, ok_part, request_to,
}
use evm_rpc_canister.Calls.Complete.{IsBuilt, insert_requests-Inserted}

Exec-cases :
    {A : Type 0} (m : Exec.Exec A)
    → ((a : A) × (m ≡ Exec.returns a)) ⊎ ((t : Text) × (m ≡ Exec.traps t))
Exec-cases (Exec.returns a) = inl (a, refl)
Exec-cases (Exec.traps t) = inr (t, refl)

module _ {X : Externals} {I O : Type 0} (N : Network I O) (M : MultiLib) (s : State X)
    (call : Call I) where
  open M use {MultiResults}

  insert_requests-traps :
      (p : RpcService) (t : Text) (ps : List RpcService) (m : MultiResults (Request I))
      → request_for N s call p ≡ Exec.traps t
      → Set.contains p ps ≡ true
      → Exec.has_returned (insert_requests N M s call ps m) ≡ false
  unfolding insert_requests
  insert_requests-traps p t [] m e c = cc c
  insert_requests-traps p t (x ∷ ps) m e c = elim (Exec-cases (request_for N s call x)) [
    | inr (u, q) ↦ rw q refl
    | inl (r, q) ↦ elim (Exec-cases (M.insert_once x r m)) [
      | inr (u, k) ↦ rw q (rw k refl)
      | inl (m', k) ↦ elim (Bool-cases (Set.contains p ps)) [
        | inl rest ↦ rw q (rw k (insert_requests-traps p t ps m' e rest))
        | inr none_left ↦
            let same : p ≡ x = (=?_iff p x).0 (ground (arith, c, none_left)) in
            absurd (cc (e, q, same))
      ]
    ]
  ]

  -- If one of the selected services resolves to a URL with headers that the library http does not
  -- take, the whole call traps, whatever the other services are.
  pub call_services-traps :
      (client : EthRpcClient) (later : State X) (now : ℕ) (p : RpcService)
      (service : ResolvedRpcService) (api : RpcApi)
      → Set.contains p client.providers.services ≡ true
      → resolve_rpc_service p ≡ ok service
      → resolved_api s service s.override_provider ≡ Exec.returns (ok api)
      → N.is_valid api.url (unwrap_or api.headers []) ≡ false
      → Exec.has_returned (call_services N M client call s later now) ≡ false
  unfolding call_services request_for resolved_request posted post
  call_services-traps client later now p service api c e a v =
      let stuck : request_for N s call p ≡ Exec.traps (text "BUG: invalid request") =
        rw e (rw a (rw v refl)) in
      let loop =
        insert_requests-traps p (text "BUG: invalid request") client.providers.services M.default
          stuck c in
      elim (Exec-cases (insert_requests N M s call client.providers.services M.default)) [
        | inl (m, q) ↦ cc (loop, q)
        | inr (u, q) ↦ rw q refl
      ]

  -- If the request of every selected service can be built, but one of them resolves to a URL that the
  -- library http takes and that has no host, the whole call traps, whatever the other services are.
  pub call_services-hostless :
      (client : EthRpcClient) (later : State X) (now : ℕ) (p : RpcService)
      (service : ResolvedRpcService) (api : RpcApi)
      → Set.is_distinct client.providers.services ≡ true
      → All (IsBuilt N M s call) client.providers.services
      → Set.contains p client.providers.services ≡ true
      → resolve_rpc_service p ≡ ok service
      → resolved_api s service s.override_provider ≡ Exec.returns (ok api)
      → N.is_valid api.url (unwrap_or api.headers []) ≡ true
      → N.host api.url ≡ none
      → Exec.has_returned (call_services N M client call s later now) ≡ false
  unfolding call_services request_for resolved_request posted post outcall to_host request_to
  call_services-hostless client later now p service api d b c e a v h =
      let (requests, (built, num, here, other)) =
        insert_requests-Inserted N M s call client.providers.services M.default d b
          (λ j _. M.default_get j) in
      let request : Request I = request_to call api in
      let made : request_for N s call p ≡ Exec.returns (ok request) = rw e (rw a (rw v refl)) in
      let to_call : Map.get p (M.into_inner requests).0 ≡ some request =
        (M.into_inner_get requests p).0 ∙ ap ok_part (here p (ok request) c made) in
      let stuck : Exec.has_returned (outcall N p request) ≡ false = rw h refl in
      let ended =
        M.parallel_call-traps (outcall N) (M.into_inner requests).0 p request to_call stuck in
      elim (Exec-cases (M.parallel_call (outcall N) (M.into_inner requests).0)) [
        | inl (m, q) ↦ cc (ended, q)
        | inr (u, q) ↦ rw built (rw q refl)
      ]

-- ===== src/Calls/Complete.antt =====
-- Every service that is called has a result (`EthRpcClient::parallel_call` of
-- `src/rpc_client/mod.rs`).
use evm_rpc_canister.BTree.Map
use evm_rpc_canister.BTree.Set
use evm_rpc_canister.Ord.{◌=?◌, =?_iff, =?_refl}
use evm_rpc_canister.Prelude.{
  ℕ, ◌+◌, ◌==◌, ◌≡◌, refl, sym, ap, ap₂, ◌∙◌, map, filter_map, ==_iff, true, false, List, [], ◌∷◌,
  Option, none, some, ok, err, ◌>>=◌, length, All, subst, Text, Bool-cases, inl, inr, arith,
}
use evm_rpc_canister.Prelude.Exec
use evm_rpc_canister.Types.Service.{RpcService, rpc_service_ord}
use evm_rpc_canister.Types.Error.{RpcError, RpcResult}
use evm_rpc_canister.Memory.{Externals, State}
use evm_rpc_canister.Providers.Resolve.{supported_new}
use evm_rpc_canister.Client.{EthRpcClient, assert}
use evm_rpc_canister.Calls.{
  MultiLib, Network, Request, Call, request_for, insert_requests, collected, call_services, ok_part,
  err_part, joined, answered, record_all, outcall, to_host,
}

ok_part-none :
    {T : Type 0} (o : Option (RpcResult T)) (x : RpcError) → err_part o ≡ some x → ok_part o ≡ none
ok_part-none (some (ok t)) x h = cc h
ok_part-none (some (err e)) x h = refl
ok_part-none none x h = refl

ok_part-some : {T : Type 0} (r : RpcResult T) (t : T) → ok_part (some r) ≡ some t → r ≡ ok t
ok_part-some (ok u) t h = cc h
ok_part-some (err e) t h = cc h

joined-parts :
    {T O : Type 0} (f : T → RpcResult O) (r : RpcResult T)
    → joined (err_part (some r)) (answered f (ok_part (some r))) ≡ some (r >>= f)
joined-parts f (ok t) = refl
joined-parts f (err e) = refl

module _ {X : Externals} {I O : Type 0} (N : Network I O) (M : MultiLib) (s : State X)
    (call : Call I) where
  open M use {MultiResults, get, len}

  -- The request for a service, or the error in its place, is built.
  abbrev pub IsBuilt : RpcService → Type 0
  IsBuilt p = Exec.has_returned (request_for N s call p) ≡ true

  -- The URL of a request has a host.
  abbrev pub HasHost : RpcResult (Request I) → Type 0
  HasHost (ok request) = (host : Text) × (N.host request.url ≡ some host)
  HasHost (err e) = Unit

  -- The request for a service is built and has a host, or there is an error in its place.
  abbrev pub IsReady : RpcService → Type 0
  IsReady p = (r : RpcResult (Request I)) × (request_for N s call p ≡ Exec.returns r) × HasHost r

  IsReady-IsBuilt : (ps : List RpcService) → All IsReady ps → All IsBuilt ps
  IsReady-IsBuilt [] h = tt
  IsReady-IsBuilt (p ∷ ps) h = (ap Exec.has_returned h.0.1, IsReady-IsBuilt ps h.1)

  contains-IsReady :
      (k : RpcService) (ps : List RpcService)
      → All IsReady ps
      → Set.contains k ps ≡ true
      → IsReady k
  contains-IsReady k [] h c = cc c
  contains-IsReady k (p ∷ ps) h c = elim (Bool-cases (k =? p)) [
    | inl e ↦ subst IsReady (sym ((=?_iff k p).0 e)) h.0
    | inr n ↦ contains-IsReady k ps h.1 (ground (arith, c, n))
  ]

  -- What inserting the requests for services makes of the requests so far
  abbrev pub Inserted :
      List RpcService → MultiResults (Request I) → MultiResults (Request I) → Type 0
  Inserted ps m m' =
      (insert_requests N M s call ps m ≡ Exec.returns m')
      × (len m' ≡ len m + length ps)
      × ((j : RpcService) (r : RpcResult (Request I))
          → Set.contains j ps ≡ true
          → request_for N s call j ≡ Exec.returns r
          → get j m' ≡ some r)
      × ((j : RpcService) → Set.contains j ps ≡ false → get j m' ≡ get j m)

  -- The rest of the loop, after a request is inserted, and before
  abbrev then_rest :
      List RpcService → Exec.Exec (MultiResults (Request I)) → Exec.Exec (MultiResults (Request I))
  then_rest ps inserted = Exec.◌>>=◌ inserted (insert_requests N M s call ps)

  abbrev after_request :
      RpcService
      → List RpcService
      → MultiResults (Request I)
      → Exec.Exec (RpcResult (Request I))
      → Exec.Exec (MultiResults (Request I))
  after_request p ps m request = Exec.◌>>=◌ request (λ r. then_rest ps (M.insert_once p r m))

  pub insert_requests-Inserted :
      (ps : List RpcService) (m : MultiResults (Request I))
      → Set.is_distinct ps ≡ true
      → All IsBuilt ps
      → ((j : RpcService) → Set.contains j ps ≡ true → get j m ≡ none)
      → (m' : MultiResults (Request I)) × Inserted ps m m'
  unfolding insert_requests Set.is_distinct
  insert_requests-Inserted [] m d h fresh = (m, (refl, omega arith, λ j r c e. cc c, λ j c. refl))
  insert_requests-Inserted (p ∷ ps) m d h fresh =
      let r = Exec.returned (request_for N s call p) h.0 in
      let ready = Exec.returned-eq (request_for N s call p) h.0 in
      let (m₁, inserted, longer, gets) =
        M.insert_once-new p r m (fresh p (ground (arith, =?_refl p))) in
      let (m₂, (rest, len₂, here, other)) =
        insert_requests-Inserted ps m₁ (ground (arith, d)) h.1
          (λ j c. ground (arith, c, gets j, fresh j, =?_iff j p, d)) in
      (
        m₂,
        (
          ap (λ q. after_request p ps m q) ready ∙ (ap (λ q. then_rest ps q) inserted ∙ rest),
          omega (arith, longer, len₂),
          λ j q c e. elim (Bool-cases (Set.contains j ps)) [
            | inl within ↦ here j q within e
            | inr out ↦
                let t : (j =? p) ≡ true = ground (arith, c, out) in
                let same : j ≡ p = (=?_iff j p).0 t in
                let result : r ≡ q = cc (ready, e, same) in
                other j out ∙ (gets j ∙ ground (arith, t, result))
          ],
          λ j c. other j (ground (arith, c)) ∙ (gets j ∙ ground (arith, c)),
        ),
      )

  -- Each request to be called has a host, and is answered.
  outcall-returns :
      (services : List RpcService) (m : MultiResults (Request I))
      → All IsReady services
      → Inserted services M.default m
      → (k : RpcService) (request : Request I) → Map.get k (M.into_inner m).0 ≡ some request
      → outcall N k request ≡ Exec.returns (N.answer k request)
  unfolding outcall to_host
  outcall-returns services m ready (built, num, here, other) k request e =
      let held : ok_part (get k m) ≡ some request = sym (M.into_inner_get m k).0 ∙ e in
      elim (Bool-cases (Set.contains k services)) [
        | inl c ↦
            let (r, made, has) = contains-IsReady k services ready c in
            let this : r ≡ ok request =
              ok_part-some r request (ap ok_part (sym (here k r c made)) ∙ held) in
            rw (subst HasHost this has).1 refl
        | inr n ↦ absurd (cc (held, other k n, M.default_get {T = Request I} k))
      ]

  -- No service has both an error and an outcome.
  called-errors :
      (m : MultiResults (Request I)) (called : MultiResults O)
      → ((k : RpcService) → get k called ≡ answered (N.answer k) (Map.get k (M.into_inner m).0))
      → (k : RpcService) (x : RpcError) → Map.get k (M.into_inner m).1 ≡ some x
      → get k called ≡ none
  called-errors m called answers k x h =
      let parts = M.into_inner_get m k in
      let no_request : Map.get k (M.into_inner m).0 ≡ none =
        parts.0 ∙ ok_part-none (get k m) x (sym parts.1 ∙ h) in
      answers k ∙ ap (answered (N.answer k)) no_request

  outcome :
      (m : MultiResults (Request I)) (called : MultiResults O)
      → ((k : RpcService) → get k called ≡ answered (N.answer k) (Map.get k (M.into_inner m).0))
      → (k : RpcService) (r : RpcResult (Request I)) → get k m ≡ some r
      → joined (Map.get k (M.into_inner m).1) (get k called) ≡ some (r >>= N.answer k)
  outcome m called answers k r h =
      let parts = M.into_inner_get m k in
      let to_call : Map.get k (M.into_inner m).0 ≡ ok_part (some r) = parts.0 ∙ ap ok_part h in
      let errors : Map.get k (M.into_inner m).1 ≡ err_part (some r) = parts.1 ∙ ap err_part h in
      ap₂ joined errors (answers k ∙ ap (answered (N.answer k)) to_call)
      ∙ joined-parts (N.answer k) r

  collected-returns :
      (n : ℕ) (errors : List (RpcService × RpcError)) (now : ℕ) (later : State X)
      (called results : MultiResults O)
      → M.add_errors errors called ≡ Exec.returns results
      → len results ≡ n
      → collected N M n errors now later called
        ≡ Exec.returns (
          results,
          record_all (filter_map supported_new (map (λ q. q.0) (M.ok_results results))) now later,
        )
  unfolding collected assert
  collected-returns n errors now later called results added h =
      let counted : (len results == n) ≡ true = (==_iff (len results) n).1 h in
      rw added (rw counted refl)

  -- Where the library http takes each request, its URL has a host, every provider's key is set where
  -- one is needed, and no service is listed twice, a call returns: it never reaches the assertion that
  -- there is one result for each service. The results are as many as the services, and that of each
  -- service is the error with which it was resolved or its URL was overridden, or the outcome of its
  -- request.
  pub call_services-returns :
      (client : EthRpcClient) (later : State X) (now : ℕ)
      → Set.is_distinct client.providers.services ≡ true
      → All IsReady client.providers.services
      → (results : MultiResults O) × (final : State X) × (call_services N M client call s later now
          ≡ Exec.returns (results, final))
        × (len results ≡ length client.providers.services)
        × ((p : RpcService) (r : RpcResult (Request I))
            → Set.contains p client.providers.services ≡ true
            → request_for N s call p ≡ Exec.returns r
            → get p results ≡ some (r >>= N.answer p))
  unfolding call_services
  call_services-returns client later now d ready =
      let services = client.providers.services in
      let (requests, (built, num, here, other)) =
        insert_requests-Inserted services M.default d (IsReady-IsBuilt services ready)
          (λ j _. M.default_get j) in
      let (to_call, errors) = M.into_inner requests in
      let distinct = M.into_inner-distinct requests in
      let (called, answered_all, num_called, answers) =
        M.parallel_call-returns (outcall N) N.answer to_call distinct.0
          (outcall-returns services requests ready (built, num, here, other)) in
      let (results, added, total, gets) =
        M.add_errors-new errors called distinct.1 (called-errors requests called answers) in
      let full : len results ≡ length services =
        omega (
          arith,
          total,
          num,
          M.default_len {T = Request I},
          M.into_inner_len requests,
          num_called,
        ) in
      (
        results,
        record_all (filter_map supported_new (map (λ q. q.0) (M.ok_results results))) now later,
        rw built (
            rw answered_all
              (collected-returns (length services) errors now later called results added full)),
        full,
        λ p r c e. gets p ∙ outcome requests called answers p r (here p r c e),
      )

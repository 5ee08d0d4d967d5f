-- ===== src/Endpoints/Answers.antt =====
-- The answers of the update methods of `src/main.rs`.
use evm_rpc_canister.BTree.Set
use evm_rpc_canister.Prelude.{ℕ, ◌≡◌, refl, true, Option, some, ok, err, ◌>>=◌, length, All}
use evm_rpc_canister.Prelude.Exec
use evm_rpc_canister.Types.Service.{RpcService, rpc_service_ord}
use evm_rpc_canister.Types.Request as Candid
use evm_rpc_canister.Types.Response as Answer
use evm_rpc_canister.JsonRpc.Requests as Json
use evm_rpc_canister.JsonRpc.Responses as Reply
use evm_rpc_canister.Types.Config.{RpcServices, RpcConfig}
use evm_rpc_canister.Types.Error.{RpcResult, ProviderError, provider_error}
use evm_rpc_canister.Types.MultiResult.{PartialEq, MultiRpcResult, consistent, map_results}
use evm_rpc_canister.Memory.{State}
use evm_rpc_canister.Client.{EthRpcClient, RpcMethod, client_new, call_size, consensus_strategy}
use evm_rpc_canister.Selection.Sorted.{client_new-is_distinct}
use evm_rpc_canister.CandidRpc.{process_result}
use evm_rpc_canister.Numbers.Nat256.{Nat256}
use evm_rpc_canister.Calls.{Network, Request, Call, request_for}
use evm_rpc_canister.Calls.Complete.{IsReady, call_services-returns}
use evm_rpc_canister.Endpoints.{
  Libraries, World, transform_op, client_call, converted_call, with_client, endpoint,
}

module _ (L : Libraries) where
  open L use {externals, multi, platform}

  -- The state in which the requests are built
  abbrev pub called_state : World L → externals.usage_map.Map → State externals
  called_state world usage = record world.state { ok_results = usage }

  abbrev pub call_of : {I : Type 0} → RpcMethod → I → ℕ → Call I
  call_of method params size = record {
    method = method;
    params = params;
    transform_op = transform_op L method;
    response_size_estimate = size;
  }

  -- Where the selection of services is refused, the answer is the error of the selection as a
  -- consistent result, whatever the method would do, and only the record of answers may change.
  pub endpoint-rejects :
      {A : Type 0} (answer : EthRpcClient → World L → Exec.Exec (MultiRpcResult A × World L))
      (source : RpcServices) (config : Option RpcConfig) (now : ℕ) (world : World L)
      (e : ProviderError) (usage : externals.usage_map.Map)
      → client_new externals.usage_map world.state.ok_results source config now
        ≡ Exec.returns (err e, usage)
      → endpoint L answer source config now world
        ≡ Exec.returns
            (consistent (err (provider_error e)), record world { state = called_state world usage })
  unfolding endpoint with_client
  endpoint-rejects answer source config now world e usage h = rw h refl

  -- Where the services of a call are selected, the size of responses is allowed, and for every service
  -- the request can be built and its URL has a host, or there is an error in its place, the method
  -- answers, and does not trap, whatever other messages do while it waits: the answer is the
  -- conversion of what the reduction by the caller's strategy makes of the results. There are as many
  -- results as selected services, and that of each service is the error in place of its request or
  -- the outcome of its request.
  pub endpoint-answers :
      {I T A : Type 0} ⦃p : PartialEq (RpcResult A)⦄ (N : Network I T) (method : RpcMethod)
      (params : I) (convert : T → A) (source : RpcServices) (config : Option RpcConfig) (now : ℕ)
      (world later : World L) (later_now : ℕ) (client : EthRpcClient)
      (usage : externals.usage_map.Map) (size : ℕ)
      → client_new externals.usage_map world.state.ok_results source config now
        ≡ Exec.returns (ok client, usage)
      → call_size client method ≡ Exec.returns size
      → All
          (IsReady N multi (called_state world usage) (call_of method params size))
          client.providers.services
      → (results : multi.MultiResults T) × (final : World L) × (endpoint L
            (λ c w. converted_call L N method params convert c w later later_now)
            source
            config
            now
            world
          ≡ Exec.returns (
            map_results convert
                (process_result L.domain_of method
                  (L.reduce (consensus_strategy client) results)
                  later.metrics).0,
            final,
          ))
        × (multi.len results ≡ length client.providers.services)
        × ((s : RpcService) (r : RpcResult (Request I))
            → Set.contains s client.providers.services ≡ true
            → request_for N (called_state world usage) (call_of method params size) s
              ≡ Exec.returns r
            → multi.get s results ≡ some (r >>= N.answer s))
  unfolding endpoint with_client converted_call client_call
  endpoint-answers N method params convert source config now world later later_now client usage size
        h z ready =
      let distinct =
        client_new-is_distinct externals.usage_map world.state.ok_results usage source config now
          client h in
      let (results, after, called, num, held) =
        call_services-returns N multi (called_state world usage) (call_of method params size) client
          later.state later_now distinct ready in
      let counted =
        (process_result L.domain_of method (L.reduce (consensus_strategy client) results)
          later.metrics).1 in
      (
        results,
        record { state = after; metrics = counted },
        rw h (rw z (rw called refl)),
        num,
        held,
      )

-- ===== src/Grpc/Execute/Once.antt =====
-- A call of `execute` that does not have to wait returns, and its result is given again.
use apprtc.Prelude.{
  ℕ, ◌+◌, ◌%◌, ◌≡◌, ◌≢◌, refl, sym, ◌∙◌, subst, some, some_inj, none, List, Result, ok, arith, eqb,
  if◌then◌else◌,
}
use Prim.Native.Nat.{max}
use apprtc.Prelude.HashMap
use apprtc.Prelude.HashMap.{get-remove_ne, get-insert_ne}
use apprtc.Std.Parse.{u64_mod}
use apprtc.Proto.{RequestContext}
use apprtc.Grpc.Operations.{
  AuthorityOperation, AuthorityResult, GrpcStatus, Hashed, operation_fingerprint,
}
use apprtc.Grpc.RequestCache.{
  RequestKey-discrete, RequestCache, replayed, claimed, enter, finish, request_cache_capacity,
}
use apprtc.Grpc.RequestCache.Bounded.{IsCache, finish-IsCache}
use apprtc.Grpc.RequestCache.Replay.{enter-finish, finish-none}
use apprtc.Grpc.Claims.{IsServer-begun, begun}
use apprtc.Grpc.Execute.{
  Reply, GrpcSignalingService, returned, settle, request_key, run_claimed, execute,
}

-- The key of the call is neither remembered nor in flight.
pub record IsFree (context : RequestContext) (s : GrpcSignalingService) : Type 0 where
  pub uncached :
      HashMap.get RequestKey-discrete s.request_cache.entries (request_key context) ≡ none
  pub idle : HashMap.get RequestKey-discrete s.request_cache.in_flight (request_key context) ≡ none

if_same : {m n : ℕ} {A : Type 0} {x : A} (y : A) → n ≡ m → (if eqb m n then x else y) ≡ x
if_same y e = ground (arith, e)

module _ (hash : List Hashed → ℕ) (driver : ℕ → AuthorityOperation → Reply) where
  unfoldable claim : RequestContext → AuthorityOperation → GrpcSignalingService → RequestCache
  unfolding HashMap.insert
  claim context operation s = record s.request_cache {
    in_flight =
        HashMap.insert RequestKey-discrete s.request_cache.in_flight (request_key context)
          (record { operation_fingerprint = operation_fingerprint hash operation });
  }

  enter-free :
      (context : RequestContext) (operation : AuthorityOperation) (s : GrpcSignalingService)
      → IsFree context s
      → enter (request_key context) (operation_fingerprint hash operation) s.request_cache
        ≡ claimed (claim context operation s)
  unfolding enter claim
  enter-free context operation s free = rw (free.uncached, enter) (rw (free.idle, enter))

  IsCache-claim :
      (context : RequestContext) (operation : AuthorityOperation) (s : GrpcSignalingService)
      → IsCache request_cache_capacity s.request_cache
      → IsFree context s
      → IsCache request_cache_capacity (claim context operation s)
  unfolding claim begun
  IsCache-claim context operation s valid free =
      (IsServer-begun request_cache_capacity (request_key context)
        (operation_fingerprint hash operation)
        (record { cache = s.request_cache; running = λ _. 0 })
        (record { cache = valid; at_most = λ k. omega arith }) free.uncached free.idle).cache

  -- What the authority's answer to a call comes to.
  unfoldable pub answer :
      AuthorityOperation → GrpcSignalingService → Result AuthorityResult GrpcStatus
  unfolding settle
  answer operation s = let id = max s.next_authority_request_id 1 in settle id (driver id operation)

  unfoldable after : GrpcSignalingService → RequestCache → GrpcSignalingService
  after s c = record {
    request_cache = c;
    next_authority_request_id = (s.next_authority_request_id + 1) % u64_mod;
  }

  execute_parts :
      (context : RequestContext) (operation : AuthorityOperation) (s : GrpcSignalingService)
      → IsCache request_cache_capacity s.request_cache
      → IsFree context s
      → (c : RequestCache) × (finish request_cache_capacity
            (request_key context)
            (operation_fingerprint hash operation)
            (answer operation s)
            (claim context operation s)
          ≡ some c)
        × IsCache request_cache_capacity c
        × (execute hash driver context operation s ≡ returned (after s c) (answer operation s))
  unfolding execute run_claimed answer after claim
  execute_parts context operation s valid free =
      let (c, done, kept, _) =
        finish-IsCache request_cache_capacity (claim context operation s) (request_key context)
          (operation_fingerprint hash operation) (answer operation s) (omega arith)
          (IsCache-claim context operation s valid free) free.uncached in
      (
        c,
        done,
        kept,
        rw (enter-free context operation s free, execute) (rw (done, run_claimed) refl),
      )

  -- Where the cache is in order, a call under a key that is neither remembered nor in flight
  -- returns, with what the authority's answer comes to, and leaves a cache in order and within its
  -- capacity.
  pub execute-free :
      (context : RequestContext) (operation : AuthorityOperation) (s : GrpcSignalingService)
      → IsCache request_cache_capacity s.request_cache
      → IsFree context s
      → (s' : GrpcSignalingService) × (execute hash driver context operation s
          ≡ returned s' (answer operation s))
        × IsCache request_cache_capacity s'.request_cache
  unfolding after
  execute-free context operation s valid free =
      let (c, _, kept, e) = execute_parts context operation s valid free in (after s c, e, kept)

  -- Such a call leaves every other key free that was free before.
  pub execute-others :
      (context other : RequestContext) (operation : AuthorityOperation)
      (s s' : GrpcSignalingService) (outcome : Result AuthorityResult GrpcStatus)
      → IsCache request_cache_capacity s.request_cache
      → IsFree context s
      → IsFree other s
      → request_key other ≢ request_key context
      → execute hash driver context operation s ≡ returned s' outcome
      → IsFree other s'
  unfolding claim after
  execute-others context other operation s s' outcome valid free unused differs h =
      let (c, done, _, e) = execute_parts context operation s valid free in
      let state : after s c ≡ s' = ground (arith, e, h) in
      let entry : HashMap.get RequestKey-discrete c.entries (request_key other) ≡ none =
        finish-none request_cache_capacity (claim context operation s) c (request_key context)
          (request_key other) (operation_fingerprint hash operation) (answer operation s)
          (omega arith) (IsCache-claim context operation s valid free) free.uncached differs
          unused.uncached done in
      let (c', done', _, removed) =
        finish-IsCache request_cache_capacity (claim context operation s) (request_key context)
          (operation_fingerprint hash operation) (answer operation s) (omega arith)
          (IsCache-claim context operation s valid free) free.uncached in
      let same : c' ≡ c = some_inj (sym done' ∙ done) in
      subst (IsFree other) state (record {
        uncached = entry;
        idle =
            subst
              (λ (i : RequestCache).
                HashMap.get RequestKey-discrete i.in_flight (request_key other) ≡ none)
              same
              (rw removed (
                get-remove_ne RequestKey-discrete (claim context operation s).in_flight
                  (request_key context) differs
                ∙ (get-insert_ne RequestKey-discrete s.request_cache.in_flight (request_key context)
                      _ differs
                    ∙ unused.idle)));
      })

  replayed_again :
      (context : RequestContext) (operation again : AuthorityOperation)
      (other : ℕ → AuthorityOperation → Reply) (s : GrpcSignalingService) (c : RequestCache)
      (result : AuthorityResult)
      → IsCache request_cache_capacity s.request_cache
      → IsFree context s
      → operation_fingerprint hash again ≡ operation_fingerprint hash operation
      → finish request_cache_capacity
          (request_key context)
          (operation_fingerprint hash operation)
          (ok result)
          (claim context operation s)
        ≡ some c
      → execute hash other context again (after s c) ≡ returned (after s c) (ok result)
  unfolding execute after claim
  replayed_again context operation again other s c result valid free same done =
      let found : enter (request_key context) (operation_fingerprint hash again) c
          ≡ replayed result =
        enter-finish request_cache_capacity (claim context operation s) c (request_key context)
          (operation_fingerprint hash operation) (operation_fingerprint hash again) (ok result)
          (omega arith) (IsCache-claim context operation s valid free) free.uncached done
        ∙ if_same _ same in
      rw (found, execute) refl

  -- Where the cache is in order and a call under a key that is neither remembered nor in flight has
  -- returned a result, the same call again, and any call under its key whose operation has the same
  -- fingerprint, returns that result and changes nothing, whatever the authority would answer now.
  pub execute-twice :
      (context : RequestContext) (operation again : AuthorityOperation)
      (other : ℕ → AuthorityOperation → Reply) (s s' : GrpcSignalingService)
      (result : AuthorityResult)
      → IsCache request_cache_capacity s.request_cache
      → IsFree context s
      → operation_fingerprint hash again ≡ operation_fingerprint hash operation
      → execute hash driver context operation s ≡ returned s' (ok result)
      → execute hash other context again s' ≡ returned s' (ok result)
  unfolding execute
  execute-twice context operation again other s s' result valid free same h =
      let (c, done, kept, e) = execute_parts context operation s valid free in
      let both : returned (after s c) (answer operation s) ≡ returned s' (ok result) = sym e ∙ h in
      let state : after s c ≡ s' = cc in
      let outcome : answer operation s ≡ ok result = cc in
      subst (λ i. execute hash other context again i ≡ returned i (ok result)) state
        (replayed_again context operation again other s c result valid free same (
          subst
            (λ i.
              finish request_cache_capacity (request_key context)
                (operation_fingerprint hash operation) i (claim context operation s)
              ≡ some c)
            outcome done))

-- ===== src/Grpc/Claims/Abandoned.antt =====
-- What becomes of the key of a call whose future is dropped while it runs.
use apprtc.Prelude.{ℕ, ◌<◌, ◌≡◌, ◌≢◌, inl, inr, sym, subst, ap, ◌∙◌, some, Result, ok, err, arith}
use apprtc.Prelude.HashMap
use apprtc.Prelude.HashMap.{get-insert_ne, get-remove_ne}
use apprtc.Grpc.Operations.{AuthorityResult, GrpcStatus}
use apprtc.Grpc.RequestCache.{
  RequestKey, RequestKey-discrete, RequestCache, InFlightRequest, CachedResult, waiting, enter,
  insert, finish,
}
use apprtc.Grpc.Claims.{Server, Step, Steps, IsServer, IsServer-Step, started-cases, begun, stopped}

-- The key is marked as in flight and no call runs under it.
pub record IsAbandoned (key : RequestKey) (claim : InFlightRequest) (s : Server) : Type 0 where
  pub marked : HashMap.get RequestKey-discrete s.cache.in_flight key ≡ some claim
  pub idle : s.running key ≡ 0

module _ (capacity : ℕ) where
  in_flight-insert :
      (key : RequestKey) (value : CachedResult) (c c' : RequestCache)
      → insert capacity key value c ≡ some c'
      → c'.in_flight ≡ c.in_flight
  unfolding insert
  in_flight-insert key value c c' h = ground arith

  in_flight-finish :
      (key : RequestKey) (fingerprint : ℕ) (outcome : Result AuthorityResult GrpcStatus)
      (c c' : RequestCache)
      → finish capacity key fingerprint outcome c ≡ some c'
      → c'.in_flight ≡ HashMap.remove RequestKey-discrete c.in_flight key
  unfolding finish
  in_flight-finish key fingerprint (ok result) c c' h = in_flight-insert key _ _ c' h
  in_flight-finish key fingerprint (err _) c c' h = ground arith

  module _ (key : RequestKey) (claim : InFlightRequest) where
    IsAbandoned-Step :
        {s t : Server} → Step capacity s t → IsAbandoned key claim s → IsAbandoned key claim t
    unfolding begun stopped
    IsAbandoned-Step {s} (Step.attempt other fingerprint) a =
        elim (started-cases other fingerprint s) [
          | inl e ↦ subst (IsAbandoned key claim) (sym e) a
          | inr (_, free, e) ↦
              let ne : key ≢ other = λ i. absurd (
                ground (
                  arith,
                  a.marked,
                  free,
                  ap (HashMap.get RequestKey-discrete s.cache.in_flight) i,
                )) in
              subst (IsAbandoned key claim) (sym e) (record {
                marked = get-insert_ne RequestKey-discrete s.cache.in_flight other _ ne ∙ a.marked;
                idle = ground (arith, a.idle, ne);
              })
        ]
    IsAbandoned-Step {s} (Step.complete other fingerprint outcome c runs done) a =
        let ne : key ≢ other = λ i. absurd (ground (arith, a.idle, ap s.running i)) in
        record {
          marked =
              subst (λ m. HashMap.get RequestKey-discrete m key ≡ some claim)
                (sym (in_flight-finish other fingerprint outcome s.cache c done))
                (get-remove_ne RequestKey-discrete s.cache.in_flight other ne ∙ a.marked);
          idle = ground (arith, a.idle, ne);
        }
    IsAbandoned-Step {s} (Step.cancel other runs) a = record {
      marked = a.marked;
      idle = ground (arith, a.idle);
    }

    IsAbandoned-Steps :
        {s t : Server} → Steps capacity s t → IsAbandoned key claim s → IsAbandoned key claim t
    IsAbandoned-Steps Steps.none_yet a = a
    IsAbandoned-Steps (Steps.then_one steps step) a =
        IsAbandoned-Step step (IsAbandoned-Steps steps a)

    IsServer-Steps :
        {s t : Server}
        → 0 < capacity
        → Steps capacity s t
        → IsServer capacity s
        → IsServer capacity t
    IsServer-Steps p Steps.none_yet v = v
    IsServer-Steps p (Steps.then_one steps step) v =
        IsServer-Step capacity p (IsServer-Steps p steps v) step

    stopped_one : (s : Server) → s.running key ≡ 1 → stopped key s key ≡ 0
    unfolding stopped
    stopped_one s h = ground (arith, h)

    -- Where a server is in order and one call runs under a key that is marked as in flight, and
    -- this call is cancelled, the key stays marked for ever: whatever calls begin, end or are
    -- cancelled afterwards, a request of its operation under that key is told to wait.
    pub enter-cancelled :
        {s t : Server}
        → 0 < capacity
        → IsServer capacity s
        → HashMap.get RequestKey-discrete s.cache.in_flight key ≡ some claim
        → s.running key ≡ 1
        → Steps capacity (record { cache = s.cache; running = stopped key s }) t
        → enter key claim.operation_fingerprint t.cache ≡ waiting
    unfolding enter
    enter-cancelled {s} {t} p v marked runs steps =
        let one : 0 < s.running key = omega (arith, runs) in
        let after = IsServer-Step capacity p v (Step.cancel key one) in
        let a = IsAbandoned-Steps steps (record { marked = marked; idle = stopped_one s runs }) in
        let valid = IsServer-Steps p steps after in
        ground (arith, a.marked, valid.cache.disjoint key)

-- ===== src/Grpc/RequestCache/Replay.antt =====
-- What a request meets that comes again under the key of a finished one.
use apprtc.Prelude.{
  ℕ, ◌<◌, ◌≡◌, ◌≢◌, some, some_inj, none, Result, ok, err, sym, subst, eqb, if◌then◌else◌, ◌∙◌,
}
use apprtc.Prelude.HashMap.{keys, get-remove_self}
use apprtc.Prelude.HashMap
use apprtc.Grpc.Operations.{AuthorityResult, GrpcStatus}
use apprtc.Grpc.RequestCache.{
  RequestKey, RequestKey-discrete, CachedResult, RequestCache, Entered, replayed, refused, claimed,
  enter, finish,
}
use apprtc.Grpc.RequestCache.Bounded.{
  IsCache, IsCache-remove, insert-pushed, get-pushed_self, get-pushed-none,
}

module _ (capacity : ℕ) where
  -- What a request under a finished one's key comes to.
  abbrev pub afterwards :
      RequestKey → ℕ → Result AuthorityResult GrpcStatus → ℕ → RequestCache → Entered
  afterwards key fingerprint (ok result) again c =
      if eqb fingerprint again
      then replayed result
      else refused "request_id was already used for a different operation"
  afterwards key fingerprint (err _) again c = claimed (record c {
    in_flight =
        HashMap.insert RequestKey-discrete c.in_flight key
          (record { operation_fingerprint = again });
  })

  -- With a capacity of at least one and a cache in order, once a call under a key that was not
  -- remembered has finished with a result, a request of the same fingerprint under that key is
  -- given the same result and one of another fingerprint is refused; after a failure the key is
  -- free again.
  pub enter-finish :
      (c c' : RequestCache) (key : RequestKey) (fingerprint again : ℕ)
      (outcome : Result AuthorityResult GrpcStatus)
      → 0 < capacity
      → IsCache capacity c
      → HashMap.get RequestKey-discrete c.entries key ≡ none
      → finish capacity key fingerprint outcome c ≡ some c'
      → enter key again c' ≡ afterwards key fingerprint outcome again c'
  unfolding enter finish
  enter-finish c c' key fingerprint again (ok result) p valid h done =
      let v : CachedResult = record { operation_fingerprint = fingerprint; result = result } in
      let e = some_inj (
        sym (
          insert-pushed capacity
            (record c { in_flight = HashMap.remove RequestKey-discrete c.in_flight key }) key v p
            (IsCache-remove capacity c key valid) h)
        ∙ done) in
      subst (λ i. enter key again i ≡ afterwards key fingerprint (ok result) again i) e
        (rw (get-pushed_self capacity c.entries key v h, enter))
  enter-finish c c' key fingerprint again (err failure) p valid h done =
      let e : record c { in_flight = HashMap.remove RequestKey-discrete c.in_flight key } ≡ c' =
        some_inj done in
      subst (λ i. enter key again i ≡ afterwards key fingerprint (err failure) again i) e
        (rw (h, enter) (rw (get-remove_self RequestKey-discrete c.in_flight key, enter)))

  -- A key that is not remembered, other than that of the call, is not remembered afterwards.
  pub finish-none :
      (c c' : RequestCache) (key other : RequestKey) (fingerprint : ℕ)
      (outcome : Result AuthorityResult GrpcStatus)
      → 0 < capacity
      → IsCache capacity c
      → HashMap.get RequestKey-discrete c.entries key ≡ none
      → other ≢ key
      → HashMap.get RequestKey-discrete c.entries other ≡ none
      → finish capacity key fingerprint outcome c ≡ some c'
      → HashMap.get RequestKey-discrete c'.entries other ≡ none
  unfolding finish
  finish-none c c' key other fingerprint (err _) p valid free differs absent h =
      subst (λ (i : RequestCache). HashMap.get RequestKey-discrete i.entries other ≡ none)
        (some_inj h) absent
  finish-none c c' key other fingerprint (ok result) p valid free differs absent h =
      let v : CachedResult = record { operation_fingerprint = fingerprint; result = result } in
      let c'' : RequestCache = record c {
        in_flight = HashMap.remove RequestKey-discrete c.in_flight key;
      } in
      subst (λ (i : RequestCache). HashMap.get RequestKey-discrete i.entries other ≡ none)
        (some_inj
          (sym (insert-pushed capacity c'' key v p (IsCache-remove capacity c key valid) free) ∙ h))
        (get-pushed-none capacity c.entries key other v differs absent)

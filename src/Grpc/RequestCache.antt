-- ===== src/Grpc/RequestCache.antt =====
-- RequestCache of grpc_server.rs and the two sections of `execute` that hold its lock: one decides
-- what becomes of a request, the other records its result. `order` is the queue of cached keys, oldest
-- first. The capacity is a parameter here; the code's is below.
use apprtc.Prelude.{
  ℕ, String, String-discrete, ℕ_discrete, Option, some, none, List, [], ◌∷◌, ◌++◌, Result, ok, err,
  Bool, true, false, ltb, eqb, length, if◌then◌else◌,
}
use apprtc.Prelude.HashMap.{HashMap}
use apprtc.Prelude.HashMap
use apprtc.Grpc.Operations.{AuthorityResult, GrpcStatus}
pub mod Bounded
pub mod Replay

-- REQUEST_CACHE_CAPACITY
abbrev pub request_cache_capacity : ℕ
request_cache_capacity = 4096

pub record RequestKey : Type 0 where
  pub instance_id : String
  pub request_id : ℕ

unfoldable pub RequestKey-discrete : Discrete RequestKey
unfolding String-discrete ℕ_discrete
RequestKey-discrete = hlevel (String-discrete, ℕ_discrete)

pub record CachedResult : Type 0 where
  pub operation_fingerprint : ℕ
  pub result : AuthorityResult

-- The channel `completed` only wakes the requests that wait for this one, which look again.
pub record InFlightRequest : Type 0 where
  pub operation_fingerprint : ℕ

pub record RequestCache : Type 0 where
  pub entries : HashMap RequestKey CachedResult
  pub in_flight : HashMap RequestKey InFlightRequest
  pub order : List RequestKey

abbrev pub empty_cache : RequestCache
empty_cache = record { entries = []; in_flight = []; order = [] }

-- What the first section decides.
pub data Entered : Type 0 where
  replayed : AuthorityResult → Entered
  refused : String → Entered
  waiting : Entered
  claimed : RequestCache → Entered

unfoldable pub enter_in_flight : RequestKey → ℕ → RequestCache → Option InFlightRequest → Entered
unfolding RequestKey-discrete HashMap.insert
enter_in_flight key fingerprint c (some running) =
    if eqb running.operation_fingerprint fingerprint
    then waiting
    else refused "request_id is in use for a different operation"
enter_in_flight key fingerprint c none = claimed (record c {
  in_flight =
      HashMap.insert RequestKey-discrete c.in_flight key
        (record { operation_fingerprint = fingerprint });
})

-- `execute` up to the end of its loop body.
unfoldable pub enter : RequestKey → ℕ → RequestCache → Entered
unfolding enter_in_flight HashMap.get
enter key fingerprint c = elim (HashMap.get RequestKey-discrete c.entries key) [
  | some cached ↦
      if eqb cached.operation_fingerprint fingerprint
      then replayed cached.result
      else refused "request_id was already used for a different operation"
  | none ↦ enter_in_flight key fingerprint c (HashMap.get RequestKey-discrete c.in_flight key)
]

module _ (capacity : ℕ) where
  -- The eviction loop runs while there are too many entries: with an empty queue it would spin, which
  -- is `none` here.
  unfoldable pub evict :
      HashMap RequestKey CachedResult
      → List RequestKey
      → Option (HashMap RequestKey CachedResult × List RequestKey)
  unfolding RequestKey-discrete HashMap.remove
  evict entries [] = if ltb capacity (length entries) then none else some (entries, [])
  evict entries (oldest ∷ order) =
      let rest = evict (HashMap.remove RequestKey-discrete entries oldest) order in
      if ltb capacity (length entries) then rest else some (entries, oldest ∷ order)

  -- The queue after `entries.insert(..).is_none()`.
  unfoldable pub queue : RequestKey → RequestCache → List RequestKey
  unfolding RequestKey-discrete HashMap.get
  queue key c = elim (HashMap.get RequestKey-discrete c.entries key) [
    | none ↦ c.order ++ key ∷ []
    | some _ ↦ c.order
  ]

  unfoldable pub insert : RequestKey → CachedResult → RequestCache → Option RequestCache
  unfolding evict queue RequestKey-discrete HashMap.insert
  insert key value c =
      elim (evict (HashMap.insert RequestKey-discrete c.entries key value) (queue key c)) [
        | none ↦ none
        | some (entries, order) ↦ some (record c { entries = entries; order = order })
      ]

  -- The end of `execute`: the request is no longer in flight, and a result is remembered.
  unfoldable pub finish :
      RequestKey → ℕ → Result AuthorityResult GrpcStatus → RequestCache → Option RequestCache
  unfolding insert HashMap.remove
  finish key fingerprint outcome c =
      let c' : RequestCache = record c {
        in_flight = HashMap.remove RequestKey-discrete c.in_flight key;
      } in
      elim outcome [
        | err _ ↦ some c'
        | ok result ↦
            insert key (record { operation_fingerprint = fingerprint; result = result }) c'
      ]

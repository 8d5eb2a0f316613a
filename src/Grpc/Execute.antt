-- ===== src/Grpc/Execute.antt =====
-- `execute` of grpc_server.rs as one call that is not interleaved with others. The driver behind the
-- command channel is a parameter: what it does with a command that it is sent.
use apprtc.Prelude.{
  ℕ, String, ◌+◌, ◌%◌, ◌<◌, ◌≡◌, refl, sym, ◌∙◌, subst, ap, Option, some, none, List, Result, ok,
  err, eqb, if◌then◌else◌, arith, Option-cases, inl, inr,
}
use Prim.Native.Nat.{max}
use apprtc.Prelude.HashMap
use apprtc.Std.Parse.{u64_mod}
use apprtc.Proto.{RequestContext}
use apprtc.Grpc.Operations.{
  AuthorityOperation, AuthorityResult, GrpcStatus, Hashed, operation_fingerprint, unavailable,
  deadline_exceeded, internal, already_exists,
}
use apprtc.Grpc.RequestCache.{
  RequestKey, RequestKey-discrete, RequestCache, Entered, replayed, refused, waiting, claimed,
  empty_cache, enter, finish, request_cache_capacity,
}
pub mod Once

-- What comes of a command: the channel is closed, no answer comes in time, the answer's sender is
-- dropped, or there is an answer under a request id.
pub data Reply : Type 0 where
  closed timed_out dropped : Reply
  answered : ℕ → AuthorityResult → Reply

pub record GrpcSignalingService : Type 0 where
  pub request_cache : RequestCache
  pub next_authority_request_id : ℕ

-- `new`
abbrev pub new_service : GrpcSignalingService
new_service = record { request_cache = empty_cache; next_authority_request_id = 1 }

-- A call that finds its key in flight waits; `spins` is an eviction loop that does not stop.
pub data Outcome (A : Type 0) : Type 0 where
  waits spins : Outcome A
  returned : GrpcSignalingService → Result A GrpcStatus → Outcome A

-- The `async` block: the answer must carry the id of the command.
unfoldable pub settle : ℕ → Reply → Result AuthorityResult GrpcStatus
settle id closed = err (record { code = unavailable; message = "signaling authority stopped" })
settle id timed_out =
    err (record { code = deadline_exceeded; message = "signaling authority timed out" })
settle id dropped = err (record { code = unavailable; message = "signaling authority stopped" })
settle id (answered request_id result) =
    if eqb request_id id
    then ok result
    else err (record { code = internal; message = "authority response correlation failed" })

unfoldable pub request_key : RequestContext → RequestKey
request_key context = record { instance_id = context.instance_id; request_id = context.request_id }

module _ (hash : List Hashed → ℕ) (driver : ℕ → AuthorityOperation → Reply) where
  -- The rest of `execute` for a call that has claimed its key.
  unfoldable pub run_claimed :
      RequestContext
      → AuthorityOperation
      → GrpcSignalingService
      → RequestCache
      → Outcome AuthorityResult
  unfolding settle request_key operation_fingerprint finish
  run_claimed context operation s c =
      let id = max s.next_authority_request_id 1 in
      let result = settle id (driver id operation) in
      elim (finish request_cache_capacity (request_key context)
        (operation_fingerprint hash operation) result c) [
          | none ↦ spins
          | some c' ↦
              returned
                (record {
                  request_cache = c';
                  next_authority_request_id = (s.next_authority_request_id + 1) % u64_mod;
                })
                result
        ]

  unfoldable pub execute :
      RequestContext → AuthorityOperation → GrpcSignalingService → Outcome AuthorityResult
  unfolding run_claimed enter request_key operation_fingerprint
  execute context operation s =
      elim (enter (request_key context) (operation_fingerprint hash operation) s.request_cache) [
        | replayed result ↦ returned s (ok result)
        | refused message ↦ returned s (err (record { code = already_exists; message = message }))
        | waiting ↦ waits
        | claimed c ↦ run_claimed context operation s c
      ]

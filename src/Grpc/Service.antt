-- ===== src/Grpc/Service.antt =====
-- The service of grpc_server.rs as what GrpcAuthority of grpc_client.rs calls, its calls one after
-- another. The signaling authority behind it is a parameter: what it makes of an operation, the clock,
-- and the admission token drawn for a call. It answers a command under the command's request id. A call
-- that does not return comes to the status `expired`, that of the client's own time limit.
use apprtc.Prelude.{ℕ, String, List, Result, ok, err, Bool}
use apprtc.RoomId.{RoomId}
use apprtc.Grpc.Operations.{
  AuthorityOperation, AuthorityResult, GrpcStatus, Hashed, operation_fingerprint,
}
use apprtc.Grpc.RequestCache.{claimed, enter}
use apprtc.Grpc.Wire.{RpcResult, RpcResponse}
use apprtc.Grpc.Execute.{Reply, GrpcSignalingService, answered, waits, spins, returned, request_key}
use apprtc.Grpc.Unary.{
  Asked, ask_admit_v1, ask_remove_v1, ask_occupancy_v1, ask_inject_v1, ask_get_status, ask_admit_v2,
  ask_remove_v2, ask_occupancy_v2, tell_admit_v1, tell_operation, tell_occupancy_v1,
  tell_occupancy_v2, tell_admit_v2, tell_status, unary,
}
use apprtc.Grpc.Client.Authority.{Channel}
pub mod Carried
pub mod Direct
pub mod Seen
pub mod Matched
pub mod Methods
pub mod MethodsV2
pub mod Refines
pub mod Fresh

pub record Authority (A : Type 0) : Type 0 where
  pub perform : AuthorityOperation → A → A × AuthorityResult
  pub now : A → ℕ
  pub token : A → String

pub record World (A : Type 0) : Type 0 where
  pub service : GrpcSignalingService
  pub authority : A

module _ {A : Type 0} (x : Authority A) (hash : List Hashed → ℕ) (expired : GrpcStatus) where
  -- The authority after a call: only one that claims its key sends it a command.
  unfoldable pub performed : Asked → World A → A
  unfolding enter request_key operation_fingerprint
  performed (err status) w = w.authority
  performed (ok (context, operation)) w =
      elim (enter (request_key context) (operation_fingerprint hash operation)
        w.service.request_cache) [
          | claimed _ ↦ (x.perform operation w.authority).0
          | _ ↦ w.authority
        ]

  -- What the authority sends back now.
  unfoldable pub reply : World A → ℕ → AuthorityOperation → Reply
  reply w id operation = answered id (x.perform operation w.authority).1

  unfoldable pub serve :
      {B : Type 0}
      → Asked
      → (AuthorityResult → Result (RpcResult B) GrpcStatus)
      → World A
      → World A × Result (RpcResponse B) GrpcStatus
  unfolding unary performed reply
  serve asked tell w = elim (unary hash (reply w) asked tell w.service) [
    | waits ↦ (w, err expired)
    | spins ↦ (record w { authority = performed asked w }, err expired)
    | returned service outcome ↦
        (record { service = service; authority = performed asked w }, outcome)
  ]

  module _ (is_room_uuid : RoomId → Bool) where
    -- The methods that the handlers call, through to the authority.
    abbrev pub channel : Channel (World A)
    channel = record {
      admit_v1 = λ r w. serve (ask_admit_v1 (x.now w.authority) r) tell_admit_v1 w;
      remove_v1 = λ r. serve (ask_remove_v1 r) tell_operation;
      occupancy_v1 = λ r. serve (ask_occupancy_v1 r) tell_occupancy_v1;
      inject_v1 = λ r w. serve (ask_inject_v1 (x.now w.authority) r) tell_operation w;
      admit_v2 = λ r w.
          serve (ask_admit_v2 is_room_uuid (x.now w.authority) (x.token w.authority) r)
            tell_admit_v2 w;
      remove_v2 = λ r. serve (ask_remove_v2 is_room_uuid r) tell_operation;
      occupancy_v2 = λ r. serve (ask_occupancy_v2 is_room_uuid r) tell_occupancy_v2;
      get_status = λ r. serve (ask_get_status r) tell_status;
    }

-- ===== src/Grpc/Stream/Decode.antt =====
-- What a worker's messages are decoded to: sfu_context, decode_sfu_input and decode_signal of
-- grpc_server.rs.
use apprtc.Prelude.{
  Option, some, none, Result, ok, err, ◌>>=◌, map_ok, and_then, ok_or, Bool, str_eq, eqb,
  if◌then◌else◌,
}
use apprtc.RoomId.{RoomId, room_id_from_bytes}
use apprtc.Proto.{
  RequestContext, AppId, app_id_sfu, Member, SfuSignal, Payload, CommandOutcome, SfuCommandResult,
  SfuState, SfuHealth, SfuFailure, EventMessage, SfuToSignaling,
}
use apprtc.Proto
use apprtc.Grpc.Operations.{GrpcStatus, permission_denied, invalid_argument}
use apprtc.Grpc.Handlers.{invalid}
use apprtc.Grpc.Unary.{parse_wire_room_id}
use apprtc.Grpc.Stream.{
  RoomMember, Signal, SfuError, CommandOk, acknowledged, member_joined, member_left, room_synced,
  EventKind, health, signal, failure, StreamInput, command_result, event,
}

unfoldable pub is_sfu : AppId → Bool
is_sfu app_id_sfu = Bool.true
is_sfu _ = Bool.false

unfoldable pub sfu_context : Option RequestContext → Result RequestContext GrpcStatus
unfolding is_sfu
sfu_context none = invalid "missing context"
sfu_context (some context) =
    if is_sfu context.app_id
    then if str_eq context.instance_id ""
      then invalid "instance_id must not be empty"
      else if eqb context.request_id 0
      then invalid "request_id must be nonzero"
      else ok context
    else err (record { code = permission_denied; message = "SFU session requires APP_ID_SFU" })

module _ (is_room_uuid : RoomId → Bool) where
  unfoldable pub decode_member : Member → Result RoomMember GrpcStatus
  unfolding parse_wire_room_id
  decode_member m =
      map_ok
        (λ room. record {
          room_id = room;
          client_id = m.client_id;
          lifecycle_id = m.lifecycle_id;
          assignment_epoch = m.assignment_epoch;
        })
        (parse_wire_room_id is_room_uuid m.room_id)

  unfoldable pub decode_payload : Option Payload → Result CommandOk GrpcStatus
  unfolding decode_member parse_wire_room_id
  decode_payload (some Payload.acknowledged) = ok acknowledged
  decode_payload (some (Payload.member_joined m)) = map_ok member_joined (decode_member m)
  decode_payload (some (Payload.member_left m)) = map_ok member_left (decode_member m)
  decode_payload (some (Payload.room_synced r)) =
      map_ok (λ room. room_synced room r.assignment_epoch)
        (parse_wire_room_id is_room_uuid r.room_id)
  decode_payload none = ok acknowledged

  unfoldable pub decode_result_value :
      Option CommandOutcome → Result (Result CommandOk SfuError) GrpcStatus
  unfolding decode_payload
  decode_result_value (some (CommandOutcome.ok payload)) = map_ok ok (decode_payload payload)
  decode_result_value (some (CommandOutcome.error e)) =
      ok (err (record { reason = e.reason; retryable = e.retryable }))
  decode_result_value none = invalid "missing command result"

  unfoldable pub decode_signal : SfuSignal → Result Signal GrpcStatus
  unfolding parse_wire_room_id
  decode_signal s =
      if str_eq s.message_json ""
      then invalid "SFU signal message_json must not be empty"
      else map_ok
          (λ room. record {
            room_id = room;
            client_id = s.client_id;
            lifecycle_id = s.lifecycle_id;
            assignment_epoch = s.assignment_epoch;
            message_json = s.message_json;
            sdp_request_id = s.sdp_request_id;
          })
          (parse_wire_room_id is_room_uuid s.room_id)

  -- Whether a worker is draining.
  unfoldable pub decode_state : SfuState → Result Bool GrpcStatus
  decode_state SfuState.ready = ok Bool.false
  decode_state SfuState.draining = ok Bool.true
  decode_state (SfuState.other _) = invalid "invalid SFU health state"

  unfoldable pub decode_event : Option Proto.EventKind → Result EventKind GrpcStatus
  unfolding decode_state decode_signal room_id_from_bytes
  decode_event (some (Proto.health h)) =
      ok_or h.capacity (record { code = invalid_argument; message = "missing health capacity" })
      >>= λ capacity. decode_state h.state >>= λ draining. ok (
          health draining (capacity.max_rooms, capacity.max_clients)
            (h.current_rooms, h.current_clients))
  decode_event (some (Proto.signal s)) = map_ok signal (decode_signal s)
  decode_event (some (Proto.failure f)) =
      map_ok
        (λ e.
          failure (record { reason = e.reason; retryable = e.retryable })
            (and_then f.room_id (room_id_from_bytes is_room_uuid)) f.client_id f.lifecycle_id
            f.sdp_request_id)
        (ok_or f.error (record { code = invalid_argument; message = "missing SFU failure error" }))
  decode_event none = invalid "missing SFU event"

  unfoldable pub decode_sfu_input : Option SfuToSignaling → Result StreamInput GrpcStatus
  unfolding decode_result_value decode_event
  decode_sfu_input (some (SfuToSignaling.register _)) =
      invalid "RegisterSfu must appear exactly once"
  decode_sfu_input (some (SfuToSignaling.command_result r)) =
      if eqb r.request_id 0
      then invalid "command result request_id must be nonzero"
      else map_ok (command_result r.request_id) (decode_result_value r.result)
  decode_sfu_input (some (SfuToSignaling.event e)) =
      if eqb e.request_id 0
      then invalid "event request_id must be nonzero"
      else map_ok (event e.request_id) (decode_event e.event)
  decode_sfu_input none = invalid "empty SFU message"

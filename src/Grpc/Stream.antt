-- ===== src/Grpc/Stream.antt =====
-- The SFU session on the signaling side, in grpc_server.rs: how what the authority tells a worker is
-- encoded. The types of `signaling::sfu` are those that the
-- code builds and matches on; the time of an input is left out.
use apprtc.Prelude.{
  ℕ, String, Option, some, none, List, Result, ok, err, ◌>>=◌, map_ok, and_then, ok_or, Bool,
  str_eq, eqb, if◌then◌else◌,
}
use apprtc.RoomId.{RoomId, room_id_to_bytes, room_id_from_bytes}
use apprtc.Proto.{
  RequestContext, ResponseContext, AppId, app_id_sfu, Member, MemberProjection, SfuSignal, Command,
  SfuCommand, Payload, CommandOutcome, SfuCommandResult, SfuState, SfuHealth, SfuFailure,
  EventMessage, SfuToSignaling, RegisterResult, SignalingToSfu,
}
use apprtc.Proto
use apprtc.Grpc.Operations.{GrpcStatus, permission_denied, invalid_argument}
use apprtc.Grpc.Handlers.{domain_error, invalid}
use apprtc.Grpc.Unary.{parse_wire_room_id}
pub mod Decode
pub mod Answered
pub mod Session

-- `JoinMember`, and `LeaveMember` without its reason.
pub record RoomMember : Type 0 where
  pub room_id : RoomId
  pub client_id : ℕ
  pub lifecycle_id : ℕ
  pub assignment_epoch : ℕ

pub record Signal : Type 0 where
  pub room_id : RoomId
  pub client_id : ℕ
  pub lifecycle_id : ℕ
  pub assignment_epoch : ℕ
  pub message_json : String
  pub sdp_request_id : Option ℕ

pub record SfuError : Type 0 where
  pub reason : String
  pub retryable : Bool

pub data CommandOk : Type 0 where
  acknowledged : CommandOk
  member_joined member_left : RoomMember → CommandOk
  room_synced : RoomId → ℕ → CommandOk

-- `health` has whether the worker is draining, its capacity in rooms and clients, and its load.
pub data EventKind : Type 0 where
  health : Bool → ℕ × ℕ → ℕ × ℕ → EventKind
  signal : Signal → EventKind
  failure : SfuError → Option RoomId → Option ℕ → Option ℕ → Option ℕ → EventKind

-- The number is the request id.
pub data StreamInput : Type 0 where
  command_result : ℕ → Result CommandOk SfuError → StreamInput
  event : ℕ → EventKind → StreamInput

pub data CommandKind : Type 0 where
  sync_room : RoomId → ℕ → List MemberProjection → CommandKind
  join : RoomMember → CommandKind
  leave : RoomMember → CommandKind
  signal : Signal → CommandKind

pub data StreamOutput : Type 0 where
  registered : ℕ → ℕ → Bool → StreamOutput
  registration_error : ℕ → SfuError → StreamOutput
  command : ℕ → CommandKind → StreamOutput
  event_ack : ℕ → StreamOutput
  close : StreamOutput

unfoldable pub encode_signal : Signal → SfuSignal
unfolding room_id_to_bytes
encode_signal s = record {
  room_id = room_id_to_bytes s.room_id;
  client_id = s.client_id;
  lifecycle_id = s.lifecycle_id;
  assignment_epoch = s.assignment_epoch;
  message_json = s.message_json;
  sdp_request_id = s.sdp_request_id;
}

-- `user` is the number of `LeaveReason::User`, the only reason that is sent.
unfoldable pub encode_command : ℕ → CommandKind → Command
unfolding encode_signal room_id_to_bytes
encode_command user (sync_room room epoch members) =
    Command.sync_room
      (record { room_id = room_id_to_bytes room; assignment_epoch = epoch; members = members })
encode_command user (join m) = Command.join (record {
  room_id = room_id_to_bytes m.room_id;
  client_id = m.client_id;
  lifecycle_id = m.lifecycle_id;
  assignment_epoch = m.assignment_epoch;
})
encode_command user (leave m) = Command.leave (record {
  room_id = room_id_to_bytes m.room_id;
  client_id = m.client_id;
  lifecycle_id = m.lifecycle_id;
  assignment_epoch = m.assignment_epoch;
  reason = user;
})
encode_command user (signal s) = Command.signal (encode_signal s)

-- `none` is `unreachable!`: the stream adapter takes a close out before.
unfoldable pub encode_sfu_output : ℕ → StreamOutput → Option SignalingToSfu
unfolding encode_command domain_error
encode_sfu_output user (registered request_id health_interval_ms resumed) = some (
    SignalingToSfu.registered (record {
      context = some (record { request_id = request_id });
      result = some (RegisterResult.registered health_interval_ms resumed);
    }))
encode_sfu_output user (registration_error request_id e) = some (
    SignalingToSfu.registered (record {
      context = some (record { request_id = request_id });
      result = some (RegisterResult.error (domain_error e.reason));
    }))
encode_sfu_output user (command request_id kind) = some (
    SignalingToSfu.command
      (record { request_id = request_id; command = some (encode_command user kind) }))
encode_sfu_output user (event_ack request_id) = some (SignalingToSfu.event_ack request_id)
encode_sfu_output user close = none

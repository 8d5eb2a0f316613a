-- ===== src/Grpc/Handlers.antt =====
-- The unary methods of GrpcSignalingService in grpc_server.rs: each checks its request, executes the
-- operation and translates the authority's result.
use apprtc.Prelude.{
  ℕ, String, ◌-◌, Option, some, none, Result, ok, err, Bool, str_eq, eqb, ltb, if◌then◌else◌,
}
use apprtc.Std.Parse.{u64_mod}
use apprtc.Proto.{RequestContext, ResponseContext, ProtoError, ErrorCode, AppId, app_id_apprtc}
use apprtc.Proto
use apprtc.Grpc.Operations.{GrpcStatus, RoomMode, invalid_argument, permission_denied, internal}
use apprtc.Grpc.Wire.{WireMode}

abbrev pub invalid : {A : Type 0} → String → Result A GrpcStatus
invalid message = err (record { code = invalid_argument; message = message })

abbrev pub unexpected : {A : Type 0} → Result A GrpcStatus
unexpected = err (record { code = internal; message = "unexpected authority response" })

unfoldable pub is_apprtc : AppId → Bool
is_apprtc app_id_apprtc = Bool.true
is_apprtc _ = Bool.false

unfoldable pub app_context : Option RequestContext → Result RequestContext GrpcStatus
unfolding is_apprtc
app_context none = invalid "missing context"
app_context (some context) =
    if is_apprtc context.app_id
    then if str_eq context.instance_id ""
      then invalid "instance_id must not be empty"
      else if eqb context.request_id 0
      then invalid "request_id must be nonzero"
      else ok context
    else err (record { code = permission_denied; message = "AppRTC RPC requires APP_ID_APPRTC" })

unfoldable pub error_code : String → ErrorCode
error_code reason =
    if str_eq reason "FULL"
    then Proto.full
    else if str_eq reason "DUPLICATE_CLIENT"
    then Proto.duplicate_client
    else if str_eq reason "ROOM_NOT_FOUND"
    then Proto.room_not_found
    else if str_eq reason "CLIENT_NOT_FOUND"
    then Proto.client_not_found
    else if str_eq reason "UNAUTHORIZED"
    then Proto.unauthorized
    else if str_eq reason "NO_SFU_AVAILABLE"
    then Proto.no_sfu_available
    else if str_eq reason "ROOM_TRANSITION"
    then Proto.room_transition
    else if str_eq reason "WORKER_UNAVAILABLE"
    then Proto.worker_unavailable
    else if str_eq reason "STALE_ASSIGNMENT"
    then Proto.stale_assignment_epoch
    else if str_eq reason "STALE_LIFECYCLE"
    then Proto.stale_lifecycle
    else if str_eq reason "RESOURCE_EXHAUSTED"
    then Proto.resource_exhausted
    else Proto.invalid_request

unfoldable pub domain_error : String → ProtoError
unfolding error_code
domain_error reason = record {
  code = error_code reason;
  reason = reason;
  retryable = Bool.false;
  retry_after_ms = none;
}

-- `u64::try_from(n).unwrap_or(u64::MAX)`
unfoldable pub saturated : ℕ → ℕ
saturated n = if ltb n u64_mod then n else u64_mod - 1

unfoldable pub proto_room_mode : RoomMode → WireMode
proto_room_mode RoomMode.p2p = WireMode.p2p
proto_room_mode RoomMode.upgrading = WireMode.upgrading
proto_room_mode RoomMode.sfu = WireMode.sfu
proto_room_mode RoomMode.failed = WireMode.failed

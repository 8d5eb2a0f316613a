-- ===== src/Grpc/Unary.antt =====
-- The unary methods of GrpcSignalingService in grpc_server.rs. The request of each gives a context and
-- an operation, or a status; `now` and a fresh admission token are arguments.
use apprtc.Prelude.{
  ℕ, String, some, List, Result, ok, err, ◌>>=◌, map_ok, ok_or, Bool, ◌||◌, str_eq, if◌then◌else◌,
}
use apprtc.RoomId.{RoomId, room_id_from_bytes}
use apprtc.Proto.{RequestContext}
use apprtc.Grpc.Operations.{
  AuthorityOperation, AuthorityResult, GrpcStatus, Hashed, invalid_argument,
}
use apprtc.Grpc.Wire.{
  WireMode, AdmitV1Request, RemoveV1Request, OccupancyV1Request, InjectV1Request, AdmitV2Request,
  RemoveV2Request, OccupancyV2Request, StatusRequest, RpcResult, value, RpcResponse, V1Admission,
  V2Admission, Occupancy, Status,
}
use apprtc.Grpc.Handlers.{
  app_context, invalid, unexpected, domain_error, saturated, proto_room_mode,
}
use apprtc.Grpc.Execute.{Reply, GrpcSignalingService, Outcome, waits, spins, returned, execute}

-- What a request asks for.
abbrev pub Asked : Type 0
Asked = Result (RequestContext × AuthorityOperation) GrpcStatus

unfoldable pub ask_admit_v1 : ℕ → AdmitV1Request → Asked
unfolding app_context
ask_admit_v1 now r = app_context r.context >>= λ context.
    if str_eq r.room_id "" || str_eq r.client_id ""
    then invalid "room_id and client_id must not be empty"
    else ok (context, AuthorityOperation.admit r.room_id r.client_id r.is_loopback now)

unfoldable pub ask_remove_v1 : RemoveV1Request → Asked
unfolding app_context
ask_remove_v1 r = app_context r.context >>= λ context.
    if str_eq r.room_id "" || str_eq r.client_id ""
    then invalid "room_id and client_id must not be empty"
    else ok (context, AuthorityOperation.remove r.room_id r.client_id)

unfoldable pub ask_occupancy_v1 : OccupancyV1Request → Asked
unfolding app_context
ask_occupancy_v1 r = app_context r.context >>= λ context.
    if str_eq r.room_id ""
    then invalid "room_id must not be empty"
    else ok (context, AuthorityOperation.occupancy r.room_id)

unfoldable pub ask_inject_v1 : ℕ → InjectV1Request → Asked
unfolding app_context
ask_inject_v1 now r = app_context r.context >>= λ context.
    if str_eq r.room_id "" || str_eq r.client_id "" || str_eq r.message_json ""
    then invalid "room_id, client_id, and message_json must not be empty"
    else ok (context, AuthorityOperation.inject r.room_id r.client_id r.message_json now)

unfoldable pub ask_get_status : StatusRequest → Asked
unfolding app_context
ask_get_status r = app_context r.context >>= λ context. ok (context, AuthorityOperation.status)

module _ (is_room_uuid : RoomId → Bool) where
  unfoldable pub parse_wire_room_id : List ℕ → Result RoomId GrpcStatus
  unfolding room_id_from_bytes
  parse_wire_room_id bytes =
      ok_or (room_id_from_bytes is_room_uuid bytes)
        (record { code = invalid_argument; message = "room_id must be the 16 bytes of a UUIDv8" })

  unfoldable pub ask_admit_v2 : ℕ → String → AdmitV2Request → Asked
  unfolding app_context parse_wire_room_id
  ask_admit_v2 now token r = app_context r.context >>= λ context.
      parse_wire_room_id r.room_id >>= λ room.
      ok (context, AuthorityOperation.admit_v2 room r.client_id token now)

  unfoldable pub ask_remove_v2 : RemoveV2Request → Asked
  unfolding app_context parse_wire_room_id
  ask_remove_v2 r = app_context r.context >>= λ context.
      if str_eq r.admission_token ""
      then invalid "admission_token must not be empty"
      else parse_wire_room_id r.room_id >>= λ room.
          ok (context, AuthorityOperation.remove_v2 room r.client_id r.admission_token)

  unfoldable pub ask_occupancy_v2 : OccupancyV2Request → Asked
  unfolding app_context parse_wire_room_id
  ask_occupancy_v2 r = app_context r.context >>= λ context.
      parse_wire_room_id r.room_id >>= λ room. ok (context, AuthorityOperation.occupancy_v2 room)

-- What each method makes of the authority's result.
unfoldable pub tell_admit_v1 : AuthorityResult → Result (RpcResult V1Admission) GrpcStatus
unfolding domain_error
tell_admit_v1 (AuthorityResult.admitted is_initiator messages) =
    ok (value (record { is_initiator = is_initiator; messages = messages }))
tell_admit_v1 (AuthorityResult.error result) = ok (RpcResult.error (domain_error result))
tell_admit_v1 _ = unexpected

-- `operation_response`
unfoldable pub tell_operation : AuthorityResult → Result (RpcResult (Unit {0})) GrpcStatus
unfolding domain_error
tell_operation AuthorityResult.removed = ok (value tt)
tell_operation AuthorityResult.removed_v2 = ok (value tt)
tell_operation AuthorityResult.injected = ok (value tt)
tell_operation (AuthorityResult.error result) = ok (RpcResult.error (domain_error result))
tell_operation _ = unexpected

unfoldable pub tell_occupancy_v1 : AuthorityResult → Result (RpcResult Occupancy) GrpcStatus
unfolding domain_error saturated
tell_occupancy_v1 (AuthorityResult.occupancy count) =
    ok (value (record { member_count = saturated count; mode = WireMode.p2p }))
tell_occupancy_v1 (AuthorityResult.error result) = ok (RpcResult.error (domain_error result))
tell_occupancy_v1 _ = unexpected

unfoldable pub tell_occupancy_v2 : AuthorityResult → Result (RpcResult Occupancy) GrpcStatus
unfolding domain_error saturated proto_room_mode
tell_occupancy_v2 (AuthorityResult.occupancy_v2 count mode) =
    ok (value (record { member_count = saturated count; mode = proto_room_mode mode }))
tell_occupancy_v2 (AuthorityResult.error result) = ok (RpcResult.error (domain_error result))
tell_occupancy_v2 _ = unexpected

unfoldable pub tell_admit_v2 : AuthorityResult → Result (RpcResult V2Admission) GrpcStatus
unfolding domain_error proto_room_mode
tell_admit_v2 (AuthorityResult.admitted_v2 mode signal_epoch admission_token is_initiator) = ok (
    value (record {
      mode = proto_room_mode mode;
      signal_epoch = signal_epoch;
      admission_token = admission_token;
      is_initiator = is_initiator;
    }))
tell_admit_v2 (AuthorityResult.error result) = ok (RpcResult.error (domain_error result))
tell_admit_v2 _ = unexpected

unfoldable pub tell_status : AuthorityResult → Result (RpcResult Status) GrpcStatus
unfolding domain_error saturated
tell_status (AuthorityResult.status report) = ok (
    value (record {
      v1_rooms = saturated report.rooms;
      v2_rooms = saturated report.v2_rooms;
      clients = saturated report.clients;
      browser_websocket_connections = saturated report.websocket_connections;
      total_browser_websocket_connections = report.total_websocket_connections;
      browser_websocket_errors = report.websocket_errors;
      connected_sfu_instances = saturated report.connected_sfu_instances;
      ready_sfu_instances = saturated report.ready_sfu_instances;
    }))
tell_status (AuthorityResult.error result) = ok (RpcResult.error (domain_error result))
tell_status _ = unexpected

-- `response_context` and the response that every method builds around its result.
unfoldable pub respond :
    {A : Type 0} → ℕ → Result (RpcResult A) GrpcStatus → Result (RpcResponse A) GrpcStatus
respond request_id told =
    map_ok
      (λ result. record {
        context = some (record { request_id = request_id });
        result = some result;
      })
      told

module _ (hash : List Hashed → ℕ) (driver : ℕ → AuthorityOperation → Reply) where
  -- The body of a method: `execute` with `?`, then the response.
  unfoldable pub unary :
      {A : Type 0}
      → Asked
      → (AuthorityResult → Result (RpcResult A) GrpcStatus)
      → GrpcSignalingService
      → Outcome (RpcResponse A)
  unfolding execute respond
  unary (err status) tell s = returned s (err status)
  unary (ok (context, operation)) tell s = elim (execute hash driver context operation s) [
    | waits ↦ waits
    | spins ↦ spins
    | returned s' outcome ↦
        returned s' (outcome >>= λ result. respond context.request_id (tell result))
  ]

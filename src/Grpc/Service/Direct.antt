-- ===== src/Grpc/Service/Direct.antt =====
-- The trait `RoomAuthority` of grpc_client.rs over the signaling authority itself, with no client,
-- server, request id or cache between them: what its callers are meant to see.
use apprtc.Prelude.{
  ℕ, String, Bool, ◌||◌, ◌-◌, Result, ok, err, ltb, str_eq, unwrap_or, if◌then◌else◌,
}
use apprtc.RoomId.{RoomId}
use apprtc.Std.Parse.{u64_mod}
use apprtc.Proto
use apprtc.Grpc.Operations.{
  AuthorityOperation, AuthorityResult, RoomMode, GrpcStatus, Code, invalid_argument,
}
use apprtc.Grpc.Operations
use apprtc.Grpc.Wire.{V1Admission, V2Admission, WireMode}
use apprtc.Grpc.Client.{Texts, StatusSnapshot, is_none}
use apprtc.Grpc.Client.Authority.{Method}
use apprtc.Room.Server.{RoomAuthority}
use apprtc.Grpc.Service.{Authority}

module _ (texts : Texts) where
  -- What a caller sees of a call that fails with a status of the service.
  abbrev pub failed : {B : Type 0} → String → Code → String → Result B String
  failed operation code message =
      err (texts.grpc_error operation (record { code = code; message = message }))

  abbrev pub unexpected : {B : Type 0} → String → Result B String
  unexpected operation = failed operation Operations.internal "unexpected authority response"

  -- The reason of a refusal; an empty one is replaced by the name of the code for it.
  abbrev pub refusal : {B : Type 0} → String → Result B String
  refusal reason =
      if str_eq reason ""
      then err (unwrap_or (texts.code_name Proto.invalid_request) "UNKNOWN_SIGNALING_ERROR")
      else err reason

  -- A count is given up to the largest number of 64 bits.
  abbrev pub capped : ℕ → ℕ
  capped n = if ltb n u64_mod then n else u64_mod - 1

  unfoldable pub see_admit : AuthorityResult → Result V1Admission String
  see_admit (AuthorityResult.admitted is_initiator messages) =
      ok (record { is_initiator = is_initiator; messages = messages })
  see_admit (AuthorityResult.error reason) = refusal reason
  see_admit _ = unexpected "admit_v1"

  unfoldable pub see_operation : String → AuthorityResult → Result (Unit {0}) String
  see_operation operation AuthorityResult.removed = ok tt
  see_operation operation AuthorityResult.removed_v2 = ok tt
  see_operation operation AuthorityResult.injected = ok tt
  see_operation operation (AuthorityResult.error reason) = refusal reason
  see_operation operation _ = unexpected operation

  unfoldable pub see_occupancy : AuthorityResult → Result ℕ String
  see_occupancy (AuthorityResult.occupancy count) = ok (capped count)
  see_occupancy (AuthorityResult.error reason) = refusal reason
  see_occupancy _ = unexpected "occupancy_v1"

  unfoldable pub see_admit_v2 : AuthorityResult → Result V2Admission String
  unfolding is_none
  see_admit_v2 (AuthorityResult.admitted_v2 RoomMode.p2p epoch token initiator) =
      if is_none texts initiator
      then err "P2P admission missing is_initiator"
      else if str_eq token ""
      then err "V2 admission missing admission_token"
      else ok (record {
        mode = WireMode.p2p;
        signal_epoch = epoch;
        admission_token = token;
        is_initiator = initiator;
      })
  see_admit_v2 (AuthorityResult.admitted_v2 RoomMode.sfu epoch token initiator) =
      if str_eq token ""
      then err "V2 admission missing admission_token"
      else ok (record {
        mode = WireMode.sfu;
        signal_epoch = epoch;
        admission_token = token;
        is_initiator = initiator;
      })
  see_admit_v2 (AuthorityResult.admitted_v2 _ _ _ _) = err "ROOM_TRANSITION"
  see_admit_v2 (AuthorityResult.error reason) = refusal reason
  see_admit_v2 _ = unexpected "admit_v2"

  unfoldable pub see_status : AuthorityResult → Result StatusSnapshot String
  see_status (AuthorityResult.status report) = ok (record {
    rooms = capped report.rooms;
    clients = capped report.clients;
    websocket_connections = capped report.websocket_connections;
    total_websocket_connections = report.total_websocket_connections;
    websocket_errors = report.websocket_errors;
  })
  see_status (AuthorityResult.error reason) = refusal reason
  see_status _ = unexpected "get_status"

  module _ {A : Type 0} (x : Authority A) where
    -- The authority performs an operation, and the caller sees its result.
    abbrev pub perform_and :
        {B : Type 0} → AuthorityOperation → (AuthorityResult → Result B String) → Method A B
    perform_and operation see a = let (a', result) = x.perform operation a in (a', see result)

    abbrev no_ids : {B : Type 0} → String → Result B String
    no_ids operation = failed operation invalid_argument "room_id and client_id must not be empty"

    unfoldable pub direct_admit : String → String → Bool → Method A V1Admission
    unfolding see_admit
    direct_admit room client loopback a =
        if str_eq room "" || str_eq client ""
        then (a, no_ids "admit_v1")
        else perform_and (AuthorityOperation.admit room client loopback (x.now a)) see_admit a

    unfoldable pub direct_remove : String → String → Method A (Unit {0})
    unfolding see_operation
    direct_remove room client a =
        if str_eq room "" || str_eq client ""
        then (a, no_ids "remove_v1")
        else perform_and (AuthorityOperation.remove room client) (see_operation "remove_v1") a

    unfoldable pub direct_occupancy : String → Method A ℕ
    unfolding see_occupancy
    direct_occupancy room a =
        if str_eq room ""
        then (a, failed "occupancy_v1" invalid_argument "room_id must not be empty")
        else perform_and (AuthorityOperation.occupancy room) see_occupancy a

    unfoldable pub direct_inject : String → String → String → Method A (Unit {0})
    unfolding see_operation
    direct_inject room client message a =
        if str_eq room "" || str_eq client "" || str_eq message ""
        then (
          a,
          failed "inject_v1" invalid_argument
              "room_id, client_id, and message_json must not be empty",
        )
        else perform_and (AuthorityOperation.inject room client message (x.now a))
            (see_operation "inject_v1") a

    unfoldable pub direct_admit_v2 : RoomId → ℕ → Method A V2Admission
    unfolding see_admit_v2
    direct_admit_v2 room client a =
        perform_and (AuthorityOperation.admit_v2 room client (x.token a) (x.now a)) see_admit_v2 a

    unfoldable pub direct_remove_v2 : RoomId → ℕ → String → Method A (Unit {0})
    unfolding see_operation
    direct_remove_v2 room client token a =
        if str_eq token ""
        then (a, failed "remove_v2" invalid_argument "admission_token must not be empty")
        else perform_and (AuthorityOperation.remove_v2 room client token)
            (see_operation "remove_v2") a

    unfoldable pub direct_status : Method A StatusSnapshot
    unfolding see_status
    direct_status = perform_and AuthorityOperation.status see_status

    abbrev pub direct_authority : RoomAuthority A
    direct_authority = record {
      admit = direct_admit;
      remove = direct_remove;
      occupancy = direct_occupancy;
      inject = direct_inject;
      admit_v2 = direct_admit_v2;
      remove_v2 = direct_remove_v2;
      status = direct_status;
    }

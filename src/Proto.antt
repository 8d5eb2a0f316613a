-- ===== src/Proto.antt =====
-- The protobuf messages of `signaling_proto::v2` as far as this crate reads and writes them: the
-- fields are those that its struct literals give. An enumeration field is the value it stands for,
-- with `other` for a number that the crate does not name.
use apprtc.Prelude.{ℕ, String, Option, List, Bool}

pub data ErrorCode : Type 0 where
  invalid_request invalid_signal stale_lifecycle stale_assignment_epoch internal : ErrorCode
  worker_unavailable full duplicate_client room_not_found client_not_found unauthorized : ErrorCode
  no_sfu_available room_transition resource_exhausted : ErrorCode
  other : ℕ → ErrorCode

pub record ProtoError : Type 0 where
  pub code : ErrorCode
  pub reason : String
  pub retryable : Bool
  pub retry_after_ms : Option ℕ

-- A request's context. `app_id` is the enumeration AppId.
pub data AppId : Type 0 where
  app_id_apprtc app_id_sfu : AppId
  other : ℕ → AppId

pub record RequestContext : Type 0 where
  pub app_id : AppId
  pub instance_id : String
  pub request_id : ℕ

-- `ResponseContext` has the request id alone.
pub record ResponseContext : Type 0 where
  pub request_id : ℕ

-- The four fields that JoinMember, MemberJoined and MemberLeft share.
pub record Member : Type 0 where
  pub room_id : List ℕ
  pub client_id : ℕ
  pub lifecycle_id : ℕ
  pub assignment_epoch : ℕ

pub record LeaveMember : Type 0 where
  pub room_id : List ℕ
  pub client_id : ℕ
  pub lifecycle_id : ℕ
  pub assignment_epoch : ℕ
  pub reason : ℕ

pub record MemberProjection : Type 0 where
  pub client_id : ℕ
  pub lifecycle_id : ℕ

pub record SyncRoom : Type 0 where
  pub room_id : List ℕ
  pub assignment_epoch : ℕ
  pub members : List MemberProjection

pub record RoomSynced : Type 0 where
  pub room_id : List ℕ
  pub assignment_epoch : ℕ

pub record SfuSignal : Type 0 where
  pub room_id : List ℕ
  pub client_id : ℕ
  pub lifecycle_id : ℕ
  pub assignment_epoch : ℕ
  pub message_json : String
  pub sdp_request_id : Option ℕ

pub data Command : Type 0 where
  sync_room : SyncRoom → Command
  join : Member → Command
  leave : LeaveMember → Command
  signal : SfuSignal → Command
  drain : Command

pub record SfuCommand : Type 0 where
  pub request_id : ℕ
  pub command : Option Command

pub data Payload : Type 0 where
  acknowledged : Payload
  member_joined member_left : Member → Payload
  room_synced : RoomSynced → Payload

-- `ok` carries the optional payload of SfuCommandOk.
pub data CommandOutcome : Type 0 where
  ok : Option Payload → CommandOutcome
  error : ProtoError → CommandOutcome

pub record SfuCommandResult : Type 0 where
  pub request_id : ℕ
  pub result : Option CommandOutcome

pub record SfuCapacity : Type 0 where
  pub max_rooms : ℕ
  pub max_clients : ℕ

pub data SfuState : Type 0 where
  ready draining : SfuState
  other : ℕ → SfuState

pub record SfuHealth : Type 0 where
  pub state : SfuState
  pub capacity : Option SfuCapacity
  pub current_rooms : ℕ
  pub current_clients : ℕ

pub record SfuFailure : Type 0 where
  pub error : Option ProtoError
  pub room_id : Option (List ℕ)
  pub client_id : Option ℕ
  pub lifecycle_id : Option ℕ
  pub sdp_request_id : Option ℕ

pub data EventKind : Type 0 where
  health : SfuHealth → EventKind
  signal : SfuSignal → EventKind
  failure : SfuFailure → EventKind

-- The message `SfuEvent`.
pub record EventMessage : Type 0 where
  pub request_id : ℕ
  pub event : Option EventKind

pub record RegisterSfu : Type 0 where
  pub context : Option RequestContext
  pub capacity : Option SfuCapacity

pub data SfuToSignaling : Type 0 where
  register : RegisterSfu → SfuToSignaling
  command_result : SfuCommandResult → SfuToSignaling
  event : EventMessage → SfuToSignaling

pub data RegisterResult : Type 0 where
  registered : ℕ → Bool → RegisterResult
  error : ProtoError → RegisterResult

pub record RegisterSfuResponse : Type 0 where
  pub context : Option ResponseContext
  pub result : Option RegisterResult

pub data SignalingToSfu : Type 0 where
  registered : RegisterSfuResponse → SignalingToSfu
  command : SfuCommand → SignalingToSfu
  event_ack : ℕ → SignalingToSfu

-- ===== src/Grpc/Wire.antt =====
-- The requests and responses of the service that AppRTC calls.
use apprtc.Prelude.{ℕ, String, Bool, Option, List}
use apprtc.Proto.{RequestContext, ResponseContext, ProtoError}

-- The enumeration `RoomMode` of the protocol; `unset` stands for its values without a constructor in
-- this crate, `unknown` for a number that it does not name.
pub data WireMode : Type 0 where
  p2p upgrading sfu failed unset : WireMode
  unknown : ℕ → WireMode

-- AdmitV1Request, RemoveV1Request (without the flag), OccupancyV1Request and InjectV1Request share the
-- context and then have the fields that the code moves into the operation.
pub record AdmitV1Request : Type 0 where
  pub context : Option RequestContext
  pub room_id : String
  pub client_id : String
  pub is_loopback : Bool

pub record RemoveV1Request : Type 0 where
  pub context : Option RequestContext
  pub room_id : String
  pub client_id : String

pub record OccupancyV1Request : Type 0 where
  pub context : Option RequestContext
  pub room_id : String

pub record InjectV1Request : Type 0 where
  pub context : Option RequestContext
  pub room_id : String
  pub client_id : String
  pub message_json : String

pub record AdmitV2Request : Type 0 where
  pub context : Option RequestContext
  pub room_id : List ℕ
  pub client_id : ℕ

pub record RemoveV2Request : Type 0 where
  pub context : Option RequestContext
  pub room_id : List ℕ
  pub client_id : ℕ
  pub admission_token : String

pub record OccupancyV2Request : Type 0 where
  pub context : Option RequestContext
  pub room_id : List ℕ

pub record StatusRequest : Type 0 where
  pub context : Option RequestContext

-- The `oneof` of a response: a value of the response's own, or an error.
pub data RpcResult (A : Type 0) : Type 0 where
  value : A → RpcResult A
  error : ProtoError → RpcResult A

-- AdmitV1Response, AdmitV2Response, OccupancyResponse, StatusResponse, and OperationResponse at the
-- unit type.
pub record RpcResponse (A : Type 0) : Type 0 where
  pub context : Option ResponseContext
  pub result : Option (RpcResult A)

pub record V1Admission : Type 0 where
  pub is_initiator : Bool
  pub messages : List String

pub record V2Admission : Type 0 where
  pub mode : WireMode
  pub signal_epoch : ℕ
  pub admission_token : String
  pub is_initiator : Option Bool

pub record Occupancy : Type 0 where
  pub member_count : ℕ
  pub mode : WireMode

pub record Status : Type 0 where
  pub v1_rooms : ℕ
  pub v2_rooms : ℕ
  pub clients : ℕ
  pub browser_websocket_connections : ℕ
  pub total_browser_websocket_connections : ℕ
  pub browser_websocket_errors : ℕ
  pub connected_sfu_instances : ℕ
  pub ready_sfu_instances : ℕ

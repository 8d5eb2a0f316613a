-- ===== src/Room/Server.antt =====
-- What the handlers of room_server.rs share: the authority that they call, which is the trait
-- `RoomAuthority` of grpc_client.rs, their responses, and the count of HTTP errors.
use apprtc.Prelude.{ℕ, String, Text, ◌+◌, ◌%◌, Bool, Option, Result}
use apprtc.RoomId.{RoomId}
use apprtc.Std.Parse.{u64_mod}
use apprtc.Grpc.Wire.{V1Admission, V2Admission}
use apprtc.Grpc.Client.{StatusSnapshot}
use apprtc.Params.{RoomParameters, Value}

-- The methods over a state `S` of whatever stands behind them; `occupancy_v2`, which no handler calls, is
-- left out, and is with the methods of the client.
pub record RoomAuthority (S : Type 0) : Type 0 where
  pub admit : String → String → Bool → S → S × Result V1Admission String
  pub remove : String → String → S → S × Result (Unit {0}) String
  pub occupancy : String → S → S × Result ℕ String
  pub inject : String → String → String → S → S × Result (Unit {0}) String
  pub admit_v2 : RoomId → ℕ → S → S × Result V2Admission String
  pub remove_v2 : RoomId → ℕ → String → S → S × Result (Unit {0}) String
  pub status : S → S × Result StatusSnapshot String

pub record V2JoinParameters : Type 0 where
  pub client_id : ℕ
  pub room_id : String
  pub room_link : String
  pub mode : String
  pub epoch : ℕ
  pub wss_url : String
  pub admission_token : String
  pub is_initiator : Option Bool

-- The uptime is in seconds.
pub record StatusReport : Type 0 where
  pub up_time_sec : ℕ
  pub open_ws : ℕ
  pub total_ws : ℕ
  pub ws_errs : ℕ
  pub http_errs : ℕ

-- A V2 join answers a result and, where it succeeds, parameters; other methods answer a JSON result, an
-- empty success, a text, or the status 500 with a message. `cors` is a response to which the headers
-- for the methods POST and DELETE are added; `status` has those for GET. `joined` is a V1 join, with no
-- parameters of its own where it fails.
pub data Response : Type 0 where
  v2_join : String → Option V2JoinParameters → Response
  result : String → Response
  ok_empty : Response
  text : String → Response
  server_error : String → Response
  cors : Response → Response
  html : Text → Response
  params : RoomParameters → Response
  json : Value → Response
  joined : String → Option RoomParameters → Response
  status : StatusReport → Response

pub record Inner (S : Type 0) : Type 0 where
  pub authority : S
  pub http_errors : ℕ

unfoldable pub http_error : {S : Type 0} → String → Inner S → Inner S × Response
http_error message s =
    (record s { http_errors = (s.http_errors + 1) % u64_mod }, server_error message)

-- ===== src/Grpc/Operations.antt =====
-- The operations of the signaling authority as grpc_server.rs builds them, their fingerprints, and
-- the results that it reads.
use apprtc.Prelude.{ℕ, String, Bool, Option, List, [], ◌∷◌}
use apprtc.RoomId.{RoomId}
pub mod Fingerprint

-- `signaling::v2::RoomMode`
pub data RoomMode : Type 0 where
  p2p upgrading sfu failed : RoomMode

-- `AuthorityOperation`; the last number of `admit`, `inject` and `admit_v2` is the field `now`.
pub data AuthorityOperation : Type 0 where
  admit : String → String → Bool → ℕ → AuthorityOperation
  remove : String → String → AuthorityOperation
  occupancy : String → AuthorityOperation
  inject : String → String → String → ℕ → AuthorityOperation
  admit_v2 : RoomId → ℕ → String → ℕ → AuthorityOperation
  remove_v2 : RoomId → ℕ → String → AuthorityOperation
  occupancy_v2 : RoomId → AuthorityOperation
  status : AuthorityOperation

-- The fields of the authority's status report that `get_status` reads.
pub record AuthorityStatus : Type 0 where
  pub rooms : ℕ
  pub v2_rooms : ℕ
  pub clients : ℕ
  pub websocket_connections : ℕ
  pub total_websocket_connections : ℕ
  pub websocket_errors : ℕ
  pub connected_sfu_instances : ℕ
  pub ready_sfu_instances : ℕ

-- `AuthorityResult`
pub data AuthorityResult : Type 0 where
  admitted : Bool → List String → AuthorityResult
  removed injected removed_v2 : AuthorityResult
  occupancy : ℕ → AuthorityResult
  admitted_v2 : RoomMode → ℕ → String → Option Bool → AuthorityResult
  occupancy_v2 : ℕ → RoomMode → AuthorityResult
  status : AuthorityStatus → AuthorityResult
  error : String → AuthorityResult

-- `tonic::Status` as this crate makes it: a code and a message.
pub data Code : Type 0 where
  invalid_argument permission_denied already_exists unavailable deadline_exceeded internal : Code
  resource_exhausted : Code
  other : ℕ → Code

pub record GrpcStatus : Type 0 where
  pub code : Code
  pub message : String

-- A value that is fed to the hasher.
pub data Hashed : Type 0 where
  text : String → Hashed
  flag : Bool → Hashed
  number : ℕ → Hashed
  room : RoomId → Hashed

-- What `operation_fingerprint` feeds to the hasher, in order.
unfoldable pub hashed : AuthorityOperation → List Hashed
hashed (AuthorityOperation.admit roomid clientid is_loopback _) =
    text "admit" ∷ text roomid ∷ text clientid ∷ flag is_loopback ∷ []
hashed (AuthorityOperation.remove roomid clientid) =
    text "remove" ∷ text roomid ∷ text clientid ∷ []
hashed (AuthorityOperation.occupancy roomid) = text "occupancy" ∷ text roomid ∷ []
hashed (AuthorityOperation.inject roomid clientid msg _) =
    text "inject" ∷ text roomid ∷ text clientid ∷ text msg ∷ []
hashed (AuthorityOperation.admit_v2 room_id client_id _ _) =
    text "admit_v2" ∷ room room_id ∷ number client_id ∷ []
hashed (AuthorityOperation.remove_v2 room_id client_id admission_token) =
    text "remove_v2" ∷ room room_id ∷ number client_id ∷ text admission_token ∷ []
hashed (AuthorityOperation.occupancy_v2 room_id) = text "occupancy_v2" ∷ room room_id ∷ []
hashed AuthorityOperation.status = text "status" ∷ []

-- `hash` is `DefaultHasher`: all values of a list into a fresh hasher, then `finish`.
unfoldable pub operation_fingerprint : (List Hashed → ℕ) → AuthorityOperation → ℕ
unfolding hashed
operation_fingerprint hash operation = hash (hashed operation)

-- ===== src/Grpc/Client/Authority.antt =====
-- The trait `RoomAuthority` as GrpcAuthority of grpc_client.rs implements it. The service behind the
-- channel, and what it keeps, are parameters.
use apprtc.Prelude.{ℕ, String, Bool, some, Result}
use apprtc.RoomId.{RoomId, room_id_to_bytes}
use apprtc.Grpc.Operations.{GrpcStatus}
use apprtc.Grpc.Wire.{
  AdmitV1Request, RemoveV1Request, OccupancyV1Request, InjectV1Request, AdmitV2Request,
  RemoveV2Request, OccupancyV2Request, StatusRequest, RpcResponse, V1Admission, V2Admission,
  Occupancy, Status,
}
use apprtc.Grpc.Client.{
  Texts, GrpcAuthority, StatusSnapshot, method, read_admit_v1, operation_result, read_occupancy,
  read_occupancy_v2, read_admit_v2, read_status,
}
use apprtc.Room.Server.{RoomAuthority}

-- A method of `SignalingServiceClient`: a request, and a response or a status.
abbrev pub Rpc : Type 0 → Type 0 → Type 0 → Type 0
Rpc W R A = R → W → W × Result (RpcResponse A) GrpcStatus

pub record Channel (W : Type 0) : Type 0 where
  pub admit_v1 : Rpc W AdmitV1Request V1Admission
  pub remove_v1 : Rpc W RemoveV1Request (Unit {0})
  pub occupancy_v1 : Rpc W OccupancyV1Request Occupancy
  pub inject_v1 : Rpc W InjectV1Request (Unit {0})
  pub admit_v2 : Rpc W AdmitV2Request V2Admission
  pub remove_v2 : Rpc W RemoveV2Request (Unit {0})
  pub occupancy_v2 : Rpc W OccupancyV2Request Occupancy
  pub get_status : Rpc W StatusRequest Status

-- What a method makes of what it calls.
abbrev pub Method : Type 0 → Type 0 → Type 0
Method S B = S → S × Result B String

module _ (texts : Texts) {W : Type 0} (channel : Channel W) where
  unfoldable pub admit : String → String → Bool → Method (GrpcAuthority × W) V1Admission
  unfolding method read_admit_v1
  admit roomid clientid is_loopback =
      method texts "admit_v1"
        (λ c. record {
          context = some c;
          room_id = roomid;
          client_id = clientid;
          is_loopback = is_loopback;
        })
        (read_admit_v1 texts) channel.admit_v1

  unfoldable pub remove : String → String → Method (GrpcAuthority × W) (Unit {0})
  unfolding method operation_result
  remove roomid clientid =
      method texts "remove_v1"
        (λ c. record { context = some c; room_id = roomid; client_id = clientid })
        (operation_result texts "remove_v1") channel.remove_v1

  unfoldable pub occupancy : String → Method (GrpcAuthority × W) ℕ
  unfolding method read_occupancy
  occupancy roomid =
      method texts "occupancy_v1" (λ c. record { context = some c; room_id = roomid })
        (read_occupancy texts) channel.occupancy_v1

  unfoldable pub inject : String → String → String → Method (GrpcAuthority × W) (Unit {0})
  unfolding method operation_result
  inject roomid clientid msg =
      method texts "inject_v1"
        (λ c. record {
          context = some c;
          room_id = roomid;
          client_id = clientid;
          message_json = msg;
        })
        (operation_result texts "inject_v1") channel.inject_v1

  unfoldable pub admit_v2 : RoomId → ℕ → Method (GrpcAuthority × W) V2Admission
  unfolding method read_admit_v2 room_id_to_bytes
  admit_v2 room_id client_id =
      method texts "admit_v2"
        (λ c. record {
          context = some c;
          room_id = room_id_to_bytes room_id;
          client_id = client_id;
        })
        (read_admit_v2 texts) channel.admit_v2

  unfoldable pub remove_v2 : RoomId → ℕ → String → Method (GrpcAuthority × W) (Unit {0})
  unfolding method operation_result room_id_to_bytes
  remove_v2 room_id client_id admission_token =
      method texts "remove_v2"
        (λ c. record {
          context = some c;
          room_id = room_id_to_bytes room_id;
          client_id = client_id;
          admission_token = admission_token;
        })
        (operation_result texts "remove_v2") channel.remove_v2

  unfoldable pub occupancy_v2 : RoomId → Method (GrpcAuthority × W) ℕ
  unfolding method read_occupancy_v2 room_id_to_bytes
  occupancy_v2 room_id =
      method texts "occupancy_v2"
        (λ c. record { context = some c; room_id = room_id_to_bytes room_id })
        (read_occupancy_v2 texts) channel.occupancy_v2

  unfoldable pub status : Method (GrpcAuthority × W) StatusSnapshot
  unfolding method read_status
  status =
      method texts "get_status" (λ c. record { context = some c }) (read_status texts)
        channel.get_status

  -- The methods that the handlers of the room server call.
  abbrev pub grpc_authority : RoomAuthority (GrpcAuthority × W)
  grpc_authority = record {
    admit = admit;
    remove = remove;
    occupancy = occupancy;
    inject = inject;
    admit_v2 = admit_v2;
    remove_v2 = remove_v2;
    status = status;
  }

-- ===== src/Grpc/Service/Methods.antt =====
-- The methods of GrpcAuthority of grpc_client.rs for V1 rooms and the status, over the service of
-- grpc_server.rs, against what they are meant to do.
use apprtc.Prelude.{
  ℕ, String, ◌+◌, ◌≡◌, refl, some, List, ok, Bool, false, ◌||◌, str_eq, if◌then◌else◌,
}
use apprtc.RoomId.{RoomId}
use apprtc.Proto.{RequestContext}
use apprtc.Grpc.Operations.{AuthorityOperation, GrpcStatus, Hashed, invalid_argument}
use apprtc.Grpc.Wire.{
  AdmitV1Request, RemoveV1Request, OccupancyV1Request, InjectV1Request, StatusRequest,
}
use apprtc.Grpc.Handlers.{app_context, invalid}
use apprtc.Grpc.Unary.{
  ask_admit_v1, ask_remove_v1, ask_occupancy_v1, ask_inject_v1, ask_get_status, tell_admit_v1,
  tell_operation, tell_occupancy_v1, tell_status,
}
use apprtc.Grpc.Client.{
  Texts, GrpcAuthority, read_admit_v1, operation_result, read_occupancy, read_status,
}
use apprtc.Grpc.Client.Authority.{admit, remove, occupancy, inject, status}
use apprtc.Grpc.Service.{Authority, World, channel}
use apprtc.Grpc.Service.Carried.{IsReady}
use apprtc.Grpc.Service.Direct.{
  see_admit, see_operation, see_occupancy, see_status, direct_admit, direct_remove,
  direct_occupancy, direct_inject, direct_status,
}
use apprtc.Grpc.Service.Seen.{
  see_admit-tell, see_operation-tell, see_occupancy-tell, see_status-tell,
}
use apprtc.Room.Simulates.{IsMatched}
use apprtc.Grpc.Service.Matched.{remote, matched}

module _ {A : Type 0} (texts : Texts) (x : Authority A) (hash : List Hashed → ℕ)
    (expired : GrpcStatus) (is_room_uuid : RoomId → Bool) where
  abbrev request_admit : String → String → Bool → RequestContext → AdmitV1Request
  request_admit room client loopback c = record {
    context = some c;
    room_id = room;
    client_id = client;
    is_loopback = loopback;
  }

  asks_admit :
      (c : RequestContext) (room : String) (client : String) (loopback : Bool) (now : ℕ)
      → app_context (some c) ≡ ok c
      → ask_admit_v1 now (request_admit room client loopback c) ≡ (
          if str_eq room "" || str_eq client ""
          then invalid "room_id and client_id must not be empty"
          else ok (c, AuthorityOperation.admit room client loopback now))
  unfolding ask_admit_v1
  asks_admit c room client loopback now good = rw (good, ask_admit_v1) refl

  pub admit-IsMatched :
      (room : String) (client : String) (loopback : Bool) (n : ℕ) (s : GrpcAuthority × World A)
      → IsReady (n + 1) s s.1.authority
      → IsMatched
          (IsReady n)
          ((remote texts x hash expired is_room_uuid).admit room client loopback s)
          (direct_admit texts x room client loopback s.1.authority)
  unfolding admit direct_admit
  admit-IsMatched room client loopback n s r =
      matched texts x hash expired is_room_uuid "admit_v1" (request_admit room client loopback)
        (read_admit_v1 texts) (channel x hash expired is_room_uuid).admit_v1
        (λ c. ask_admit_v1 (x.now s.1.authority) (request_admit room client loopback c))
        tell_admit_v1 (see_admit texts) (str_eq room "" || str_eq client "")
        (record { code = invalid_argument; message = "room_id and client_id must not be empty" })
        (AuthorityOperation.admit room client loopback (x.now s.1.authority)) n s s.1.authority
        (see_admit-tell texts) (λ c. refl)
        (λ c good. asks_admit c room client loopback (x.now s.1.authority) good) r

  abbrev request_remove : String → String → RequestContext → RemoveV1Request
  request_remove room client c = record { context = some c; room_id = room; client_id = client }

  asks_remove :
      (c : RequestContext) (room : String) (client : String)
      → app_context (some c) ≡ ok c
      → ask_remove_v1 (request_remove room client c) ≡ (
          if str_eq room "" || str_eq client ""
          then invalid "room_id and client_id must not be empty"
          else ok (c, AuthorityOperation.remove room client))
  unfolding ask_remove_v1
  asks_remove c room client good = rw (good, ask_remove_v1) refl

  pub remove-IsMatched :
      (room : String) (client : String) (n : ℕ) (s : GrpcAuthority × World A)
      → IsReady (n + 1) s s.1.authority
      → IsMatched
          (IsReady n)
          ((remote texts x hash expired is_room_uuid).remove room client s)
          (direct_remove texts x room client s.1.authority)
  unfolding remove direct_remove
  remove-IsMatched room client n s r =
      matched texts x hash expired is_room_uuid "remove_v1" (request_remove room client)
        (operation_result texts "remove_v1") (channel x hash expired is_room_uuid).remove_v1
        (λ c. ask_remove_v1 (request_remove room client c)) tell_operation
        (see_operation texts "remove_v1") (str_eq room "" || str_eq client "")
        (record { code = invalid_argument; message = "room_id and client_id must not be empty" })
        (AuthorityOperation.remove room client) n s s.1.authority
        (see_operation-tell texts "remove_v1") (λ c. refl)
        (λ c good. asks_remove c room client good) r

  abbrev request_occupancy : String → RequestContext → OccupancyV1Request
  request_occupancy room c = record { context = some c; room_id = room }

  asks_occupancy :
      (c : RequestContext) (room : String)
      → app_context (some c) ≡ ok c
      → ask_occupancy_v1 (request_occupancy room c) ≡ (
          if str_eq room ""
          then invalid "room_id must not be empty"
          else ok (c, AuthorityOperation.occupancy room))
  unfolding ask_occupancy_v1
  asks_occupancy c room good = rw (good, ask_occupancy_v1) refl

  pub occupancy-IsMatched :
      (room : String) (n : ℕ) (s : GrpcAuthority × World A)
      → IsReady (n + 1) s s.1.authority
      → IsMatched
          (IsReady n)
          ((remote texts x hash expired is_room_uuid).occupancy room s)
          (direct_occupancy texts x room s.1.authority)
  unfolding occupancy direct_occupancy
  occupancy-IsMatched room n s r =
      matched texts x hash expired is_room_uuid "occupancy_v1" (request_occupancy room)
        (read_occupancy texts) (channel x hash expired is_room_uuid).occupancy_v1
        (λ c. ask_occupancy_v1 (request_occupancy room c)) tell_occupancy_v1 (see_occupancy texts)
        (str_eq room "") (record { code = invalid_argument; message = "room_id must not be empty" })
        (AuthorityOperation.occupancy room) n s s.1.authority (see_occupancy-tell texts) (λ c. refl)
        (λ c good. asks_occupancy c room good) r

  abbrev request_inject : String → String → String → RequestContext → InjectV1Request
  request_inject room client message c = record {
    context = some c;
    room_id = room;
    client_id = client;
    message_json = message;
  }

  asks_inject :
      (c : RequestContext) (room : String) (client : String) (message : String) (now : ℕ)
      → app_context (some c) ≡ ok c
      → ask_inject_v1 now (request_inject room client message c) ≡ (
          if str_eq room "" || str_eq client "" || str_eq message ""
          then invalid "room_id, client_id, and message_json must not be empty"
          else ok (c, AuthorityOperation.inject room client message now))
  unfolding ask_inject_v1
  asks_inject c room client message now good = rw (good, ask_inject_v1) refl

  pub inject-IsMatched :
      (room : String) (client : String) (message : String) (n : ℕ) (s : GrpcAuthority × World A)
      → IsReady (n + 1) s s.1.authority
      → IsMatched
          (IsReady n)
          ((remote texts x hash expired is_room_uuid).inject room client message s)
          (direct_inject texts x room client message s.1.authority)
  unfolding inject direct_inject
  inject-IsMatched room client message n s r =
      matched texts x hash expired is_room_uuid "inject_v1" (request_inject room client message)
        (operation_result texts "inject_v1") (channel x hash expired is_room_uuid).inject_v1
        (λ c. ask_inject_v1 (x.now s.1.authority) (request_inject room client message c))
        tell_operation (see_operation texts "inject_v1")
        (str_eq room "" || str_eq client "" || str_eq message "")
        (record {
          code = invalid_argument;
          message = "room_id, client_id, and message_json must not be empty";
        })
        (AuthorityOperation.inject room client message (x.now s.1.authority)) n s s.1.authority
        (see_operation-tell texts "inject_v1") (λ c. refl)
        (λ c good. asks_inject c room client message (x.now s.1.authority) good) r

  abbrev request_status : RequestContext → StatusRequest
  request_status c = record { context = some c }

  asks_status :
      (c : RequestContext)
      → app_context (some c) ≡ ok c
      → ask_get_status (request_status c) ≡ ok (c, AuthorityOperation.status)
  unfolding ask_get_status
  asks_status c good = rw (good, ask_get_status) refl

  pub status-IsMatched :
      (n : ℕ) (s : GrpcAuthority × World A)
      → IsReady (n + 1) s s.1.authority
      → IsMatched
          (IsReady n)
          ((remote texts x hash expired is_room_uuid).status s)
          (direct_status texts x s.1.authority)
  unfolding status direct_status
  status-IsMatched n s r =
      matched texts x hash expired is_room_uuid "get_status" (request_status) (read_status texts)
        (channel x hash expired is_room_uuid).get_status (λ c. ask_get_status (request_status c))
        tell_status (see_status texts) false (expired) (AuthorityOperation.status) n s s.1.authority
        (see_status-tell texts) (λ c. refl) (λ c good. asks_status c good) r

-- ===== src/Grpc/Service/MethodsV2.antt =====
-- The methods of GrpcAuthority of grpc_client.rs for V2 rooms, over the service of grpc_server.rs, against
-- what they are meant to do.
use apprtc.Prelude.{
  ℕ, String, ◌+◌, ◌≡◌, refl, ap, some, List, ok, ◌>>=◌, Bool, false, str_eq, if◌then◌else◌, arith,
}
use apprtc.RoomId.{RoomId, room_id_from_bytes, room_id_to_bytes}
use apprtc.Proto.{RequestContext}
use apprtc.Grpc.Operations.{AuthorityOperation, GrpcStatus, Hashed, invalid_argument}
use apprtc.Grpc.Wire.{AdmitV2Request, RemoveV2Request}
use apprtc.Grpc.Handlers.{app_context, invalid}
use apprtc.Grpc.Unary.{
  ask_admit_v2, ask_remove_v2, parse_wire_room_id, tell_operation, tell_admit_v2,
}
use apprtc.Grpc.Client.{Texts, GrpcAuthority, operation_result, read_admit_v2}
use apprtc.Grpc.Client.Authority.{admit_v2, remove_v2}
use apprtc.Grpc.Service.{Authority, World, channel}
use apprtc.Grpc.Service.Carried.{IsReady}
use apprtc.Grpc.Service.Direct.{see_operation, see_admit_v2, direct_admit_v2, direct_remove_v2}
use apprtc.Grpc.Service.Seen.{see_operation-tell, see_admit_v2-tell}
use apprtc.Room.Simulates.{IsMatched}
use apprtc.Grpc.Service.Matched.{IsRoom, remote, matched}

module _ {A : Type 0} (texts : Texts) (x : Authority A) (hash : List Hashed → ℕ)
    (expired : GrpcStatus) (is_room_uuid : RoomId → Bool) where
  parsed :
      (room : RoomId)
      → IsRoom is_room_uuid room
      → parse_wire_room_id is_room_uuid (room_id_to_bytes room) ≡ ok room
  unfolding parse_wire_room_id room_id_from_bytes room_id_to_bytes
  parsed room v = ground (arith, v.0, v.1)

  abbrev request_admit_v2 : RoomId → ℕ → RequestContext → AdmitV2Request
  request_admit_v2 room client c = record {
    context = some c;
    room_id = room_id_to_bytes room;
    client_id = client;
  }

  asks_admit_v2 :
      (c : RequestContext) (room : RoomId) (client : ℕ) (now : ℕ) (drawn : String)
      → app_context (some c) ≡ ok c
      → IsRoom is_room_uuid room
      → ask_admit_v2 is_room_uuid now drawn (request_admit_v2 room client c)
        ≡ ok (c, AuthorityOperation.admit_v2 room client drawn now)
  unfolding ask_admit_v2
  asks_admit_v2 c room client now drawn good v =
      rw (good, ask_admit_v2)
        (ap (λ i. i >>= λ id. ok (c, AuthorityOperation.admit_v2 id client drawn now))
          (parsed room v))

  pub admit_v2-IsMatched :
      (room : RoomId) (client : ℕ) (n : ℕ) (s : GrpcAuthority × World A)
      → IsRoom is_room_uuid room
      → IsReady (n + 1) s s.1.authority
      → IsMatched
          (IsReady n)
          ((remote texts x hash expired is_room_uuid).admit_v2 room client s)
          (direct_admit_v2 texts x room client s.1.authority)
  unfolding admit_v2 direct_admit_v2
  admit_v2-IsMatched room client n s v r =
      matched texts x hash expired is_room_uuid "admit_v2" (request_admit_v2 room client)
        (read_admit_v2 texts) (channel x hash expired is_room_uuid).admit_v2
        (λ c.
          ask_admit_v2 is_room_uuid (x.now s.1.authority) (x.token s.1.authority)
            (request_admit_v2 room client c))
        tell_admit_v2 (see_admit_v2 texts) false (expired)
        (AuthorityOperation.admit_v2 room client (x.token s.1.authority) (x.now s.1.authority)) n s
        s.1.authority (see_admit_v2-tell texts) (λ c. refl)
        (λ c good. asks_admit_v2 c room client (x.now s.1.authority) (x.token s.1.authority) good v)
        r

  abbrev request_remove_v2 : RoomId → ℕ → String → RequestContext → RemoveV2Request
  request_remove_v2 room client token c = record {
    context = some c;
    room_id = room_id_to_bytes room;
    client_id = client;
    admission_token = token;
  }

  asks_remove_v2 :
      (c : RequestContext) (room : RoomId) (client : ℕ) (token : String)
      → app_context (some c) ≡ ok c
      → IsRoom is_room_uuid room
      → ask_remove_v2 is_room_uuid (request_remove_v2 room client token c) ≡ (
          if str_eq token ""
          then invalid "admission_token must not be empty"
          else ok (c, AuthorityOperation.remove_v2 room client token))
  unfolding ask_remove_v2
  asks_remove_v2 c room client token good v =
      rw (good, ask_remove_v2)
        (ap
          (λ i.
            if str_eq token ""
            then invalid "admission_token must not be empty"
            else (i >>= λ id. ok (c, AuthorityOperation.remove_v2 id client token)))
          (parsed room v))

  pub remove_v2-IsMatched :
      (room : RoomId) (client : ℕ) (token : String) (n : ℕ) (s : GrpcAuthority × World A)
      → IsRoom is_room_uuid room
      → IsReady (n + 1) s s.1.authority
      → IsMatched
          (IsReady n)
          ((remote texts x hash expired is_room_uuid).remove_v2 room client token s)
          (direct_remove_v2 texts x room client token s.1.authority)
  unfolding remove_v2 direct_remove_v2
  remove_v2-IsMatched room client token n s v r =
      matched texts x hash expired is_room_uuid "remove_v2" (request_remove_v2 room client token)
        (operation_result texts "remove_v2") (channel x hash expired is_room_uuid).remove_v2
        (λ c. ask_remove_v2 is_room_uuid (request_remove_v2 room client token c)) tell_operation
        (see_operation texts "remove_v2") (str_eq token "")
        (record { code = invalid_argument; message = "admission_token must not be empty" })
        (AuthorityOperation.remove_v2 room client token) n s s.1.authority
        (see_operation-tell texts "remove_v2") (λ c. refl)
        (λ c good. asks_remove_v2 c room client token good v) r

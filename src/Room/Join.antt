-- ===== src/Room/Join.antt =====
-- `v2_join` of room_server.rs. The decoder of room tokens is a parameter, and so is what
-- `request_context` and `build_v2_room_parameters` make of the request: the room link and the WebSocket
-- address, or the text of an invalid URL. `client_id n` is the number drawn in the n-th attempt.
use apprtc.Prelude.{
  ℕ, zero, suc, String, ◌+◌, Option, some, none, Result, ok, err, Bool, ◌&&◌, str_eq, ltb,
  if◌then◌else◌,
}
use apprtc.RoomId.{RoomId}
use apprtc.Grpc.Wire.{WireMode, V2Admission}
use apprtc.Room.Server.{RoomAuthority, V2JoinParameters, Response, v2_join, Inner, http_error}
pub mod Attempts

-- CLIENT_ID_ATTEMPTS
abbrev pub client_id_attempts : ℕ
client_id_attempts = 8

-- What the loop comes to: an admission of a client, an error of the authority, or its end.
pub data Joined : Type 0 where
  admitted : ℕ → V2Admission → Joined
  rejected : String → Joined
  exhausted : Joined

module _ {S : Type 0} (a : RoomAuthority S) (client_id : ℕ → ℕ) (room : RoomId) where
  -- The loop from one attempt on, over the attempts that are left.
  unfoldable pub attempts : ℕ → ℕ → S → S × Joined
  attempts zero attempt s = (s, exhausted)
  attempts (suc left) attempt s =
      let (s', outcome) = a.admit_v2 room (client_id attempt) s in
      let rest = attempts left (attempt + 1) s' in
      elim outcome [
        | ok admission ↦ (s', admitted (client_id attempt) admission)
        | err error ↦
            if str_eq error "DUPLICATE_CLIENT" && ltb attempt client_id_attempts
            then rest
            else (s', rejected error)
      ]

-- The mode's name; any other mode is `unreachable!`.
unfoldable pub mode_name : WireMode → Option String
mode_name WireMode.p2p = some "p2p"
mode_name WireMode.sfu = some "sfu"
mode_name _ = none

-- The response, where the handler does not panic.
unfoldable pub join_response : String → String × String → Joined → Option Response
unfolding mode_name
join_response roomid (room_link, wss_url) (admitted client_id admission) =
    elim (mode_name admission.mode) [
      | none ↦ none
      | some mode ↦ some (
          v2_join "SUCCESS" (
            some (record {
              client_id = client_id;
              room_id = roomid;
              room_link = room_link;
              mode = mode;
              epoch = admission.signal_epoch;
              wss_url = wss_url;
              admission_token = admission.admission_token;
              is_initiator = admission.is_initiator;
            })))
    ]
join_response roomid links (rejected error) = some (v2_join error none)
join_response roomid links exhausted = some (v2_join "RESOURCE_EXHAUSTED" none)

module _ {S : Type 0} (a : RoomAuthority S) (parse_room_token : String → Option RoomId)
    (client_id : ℕ → ℕ) where
  -- Once the room id and the request are read.
  unfoldable pub join_room : String → RoomId → String × String → Inner S → Inner S × Option Response
  unfolding attempts join_response
  join_room roomid room links s =
      let (authority, joined) = attempts a client_id room client_id_attempts 1 s.authority in
      (record s { authority = authority }, join_response roomid links joined)

  unfoldable pub v2_join_handler :
      String → Result (String × String) String → Inner S → Inner S × Option Response
  unfolding join_room http_error
  v2_join_handler roomid request s = elim (parse_room_token roomid) [
    | none ↦ (s, some (v2_join "INVALID_ROOM_ID" none))
    | some room ↦ elim request [
      | err message ↦ let (s', response) = http_error message s in (s', some response)
      | ok links ↦ join_room roomid room links s
    ]
  ]

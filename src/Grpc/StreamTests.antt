-- ===== src/Grpc/StreamTests.antt =====
-- The theorems about the SFU session on the signaling side, at one command and one signal.
use apprtc.Prelude.{◌≡◌, ◌≢◌, ◌↔◌, refl, some, none, [], ◌∷◌, ok, Bool, true, ℕ_discrete}
use apprtc.RoomId.{RoomId}
use apprtc.Proto.{Payload, SfuSignal}
use apprtc.Sfu.Engine.{External}
use apprtc.Sfu.Shard.{Shard}
use apprtc.Sfu.Commands.{dispatch}
use apprtc.Grpc.Stream.{RoomMember, Signal, CommandKind, encode_command, encode_signal}
use apprtc.Grpc.Stream.Decode.{decode_payload, decode_signal}
use apprtc.Grpc.Stream.Answered.{IsRoom, agreed, decode_payload-dispatch, decode_signal_iff}

abbrev room : RoomId
room = record { bytes = 1 ∷ 2 ∷ 3 ∷ 4 ∷ 5 ∷ 6 ∷ 7 ∷ 8 ∷ 9 ∷ 10 ∷ 11 ∷ 12 ∷ 13 ∷ 14 ∷ 15 ∷ 16 ∷ [] }

abbrev any_room : RoomId → Bool
any_room r = true

abbrev alice : RoomMember
alice = record { room_id = room; client_id = 11; lifecycle_id = 3; assignment_epoch = 2 }

-- An engine that agrees to everything.
abbrev willing : External Unit Unit Unit
willing = record {
  is_room_uuid = any_room;
  handle_event = λ e event. (e, true);
  from_str = λ s. none;
  app_signal = λ v. none;
  description = λ v. none;
  is_answer = λ s. true;
  reason_name = λ n. "User";
}

abbrev empty : Shard Unit
empty = record { engine = tt; projection = [] }

room-IsRoom : IsRoom any_room room
room-IsRoom = (refl, refl)

abbrev joined : Payload
joined =
    Payload.member_joined
      (record { room_id = room.bytes; client_id = 11; lifecycle_id = 3; assignment_epoch = 2 })

dispatch-joined :
    (dispatch willing 5 (some (encode_command 1 (CommandKind.join alice))) empty).1 ≡ ok joined
unfolding dispatch encode_command ℕ_discrete
dispatch-joined = refl

decode_payload-dispatch_example :
    decode_payload any_room (some joined) ≡ ok (agreed (CommandKind.join alice))
decode_payload-dispatch_example =
    decode_payload-dispatch willing 5 empty 1 (CommandKind.join alice) joined room-IsRoom
      dispatch-joined

abbrev trickled : Signal
trickled = record {
  room_id = room;
  client_id = 11;
  lifecycle_id = 3;
  assignment_epoch = 2;
  message_json = "{}";
  sdp_request_id = none;
}

abbrev encoded : SfuSignal
encoded = encode_signal trickled

decode_signal_iff_example :
    (decode_signal any_room encoded ≡ ok trickled)
    ↔ ((encode_signal trickled ≡ encoded) × (trickled.message_json ≢ "") × IsRoom any_room room)
decode_signal_iff_example = decode_signal_iff any_room encoded trickled

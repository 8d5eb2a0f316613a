-- ===== src/Grpc/Stream/Answered.antt =====
-- A command from the authority to a worker and its answer back.
use apprtc.Prelude.{ℕ, ◌≡◌, ◌≢◌, ◌↔◌, refl, some, ok, arith, length, Bool, true, eq_iff}
use apprtc.RoomId.{RoomId, room_id_to_bytes, room_id_from_bytes, room_id_from_bytes_iff}
use apprtc.Proto.{Member, LeaveMember, SyncRoom, SfuSignal, Payload}
use apprtc.Sfu.Engine.{External}
use apprtc.Sfu.Shard.{Shard}
use apprtc.Sfu.Sync.{sync_room}
use apprtc.Sfu.Commands.{left_member, dispatch, apply_join, apply_leave, apply_member_signal}
use apprtc.Sfu.Dispatch.{room_of}
use apprtc.Grpc.Stream.{RoomMember, Signal, CommandKind, CommandOk, encode_command, encode_signal}
use apprtc.Grpc.Stream
use apprtc.Grpc.Stream.Decode.{decode_signal, decode_payload}

abbrev pub kind_room : CommandKind → RoomId
kind_room (Stream.CommandKind.sync_room room _ _) = room
kind_room (Stream.CommandKind.join m) = m.room_id
kind_room (Stream.CommandKind.leave m) = m.room_id
kind_room (Stream.CommandKind.signal s) = s.room_id

-- The bytes of a room that is a room's UUID.
abbrev pub IsRoom : (RoomId → Bool) → RoomId → Type 0
IsRoom is_room_uuid room = (length room.bytes ≡ 16) × (is_room_uuid room ≡ true)

-- The answer that agrees to a command.
abbrev pub agreed : CommandKind → CommandOk
agreed (Stream.CommandKind.sync_room room epoch _) = CommandOk.room_synced room epoch
agreed (Stream.CommandKind.join m) = CommandOk.member_joined m
agreed (Stream.CommandKind.leave m) = CommandOk.member_left m
agreed (Stream.CommandKind.signal _) = CommandOk.acknowledged

module _ (is_room_uuid : RoomId → Bool) where
  room_id_from_bytes-IsRoom :
      (room : RoomId)
      → IsRoom is_room_uuid room
      → room_id_from_bytes is_room_uuid (room_id_to_bytes room) ≡ some room
  unfolding room_id_to_bytes
  room_id_from_bytes-IsRoom room h =
      (room_id_from_bytes_iff is_room_uuid (room_id_to_bytes room) room).1 (refl, h.0, h.1)

  -- A worker takes the room of a command that it is sent to be the room for which the authority
  -- meant it, where that room's id is sixteen bytes of a room's UUID.
  pub room_of-encode_command :
      (user : ℕ) (kind : CommandKind)
      → IsRoom is_room_uuid (kind_room kind)
      → room_of is_room_uuid (some (encode_command user kind)) ≡ some (kind_room kind)
  unfolding encode_command room_of
  room_of-encode_command user (Stream.CommandKind.sync_room room _ _) h =
      room_id_from_bytes-IsRoom room h
  room_of-encode_command user (Stream.CommandKind.join m) h = room_id_from_bytes-IsRoom m.room_id h
  room_of-encode_command user (Stream.CommandKind.leave m) h = room_id_from_bytes-IsRoom m.room_id h
  room_of-encode_command user (Stream.CommandKind.signal s) h =
      room_id_from_bytes-IsRoom s.room_id h

module _ {E V S : Type 0} (x : External E V S) (request_id : ℕ) (s : Shard E) where
  payload-join :
      (j : Member) (payload : Payload)
      → (apply_join x request_id j s).1 ≡ ok payload
      → payload ≡ Payload.member_joined j
  unfolding apply_join
  payload-join j payload h = ground arith

  payload-leave :
      (l : LeaveMember) (payload : Payload)
      → (apply_leave x request_id l s).1 ≡ ok payload
      → payload ≡ Payload.member_left (left_member l)
  unfolding apply_leave
  payload-leave l payload h = ground arith

  payload-signal :
      (g : SfuSignal) (payload : Payload)
      → (apply_member_signal x request_id g s).1 ≡ ok payload
      → payload ≡ Payload.acknowledged
  unfolding apply_member_signal
  payload-signal g payload h = ground arith

  payload-sync_room :
      (y : SyncRoom) (payload : Payload)
      → (sync_room x request_id y s).1 ≡ ok payload
      → payload
        ≡ Payload.room_synced
            (record { room_id = y.room_id; assignment_epoch = y.assignment_epoch })
  unfolding sync_room
  payload-sync_room y payload h = ground arith

  -- Where a worker carries out a command of the authority for one of its rooms, the payload of its
  -- answer is decoded to the answer that agrees to this very command: the same room, client, lifecycle
  -- and epoch.
  pub decode_payload-dispatch :
      (user : ℕ) (kind : CommandKind) (payload : Payload)
      → IsRoom x.is_room_uuid (kind_room kind)
      → (dispatch x request_id (some (encode_command user kind)) s).1 ≡ ok payload
      → decode_payload x.is_room_uuid (some payload) ≡ ok (agreed kind)
  unfolding dispatch encode_command decode_payload
  decode_payload-dispatch user (Stream.CommandKind.sync_room room epoch members) payload r h =
      rw
        (payload-sync_room
          (record { room_id = room_id_to_bytes room; assignment_epoch = epoch; members = members })
          payload h)
        (rw (room_id_from_bytes-IsRoom x.is_room_uuid room r, decode_payload) refl)
  decode_payload-dispatch user (Stream.CommandKind.join m) payload r h =
      rw (payload-join _ payload h)
        (rw (room_id_from_bytes-IsRoom x.is_room_uuid m.room_id r, decode_payload) refl)
  decode_payload-dispatch user (Stream.CommandKind.leave m) payload r h =
      rw (payload-leave _ payload h)
        (rw (room_id_from_bytes-IsRoom x.is_room_uuid m.room_id r, decode_payload) refl)
  decode_payload-dispatch user (Stream.CommandKind.signal g) payload r h =
      rw (payload-signal _ payload h) refl

-- A signal is decoded exactly where it is the encoding of what comes out, which has a message that is
-- not empty and a room id that is one: nothing is lost or altered on the way either way.
pub decode_signal_iff :
    (is_room_uuid : RoomId → Bool) (p : SfuSignal) (g : Signal)
    → (decode_signal is_room_uuid p ≡ ok g)
      ↔ ((encode_signal g ≡ p) × (g.message_json ≢ "") × IsRoom is_room_uuid g.room_id)
unfolding decode_signal encode_signal
decode_signal_iff is_room_uuid p g =
    let named = eq_iff p.message_json "" in (λ h. ground (arith, named), λ h. ground (arith, named))

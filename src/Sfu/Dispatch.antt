-- ===== src/Sfu/Dispatch.antt =====
-- `dispatch_command` of sfu_server.rs: a command goes to the media shard of its room.
use apprtc.Prelude.{
  ℕ, ◌+◌, ◌*◌, ◌%◌, ◌<◌, ◌≡◌, refl, ap, Bool, Option, some, none, List, [], ◌∷◌, get_elem?,
  get_elem?_of_lt, length, arith,
}
use Prim.Native.Nat.{max}
use apprtc.Proto.{SfuCommand, SfuCommandResult, Command, invalid_request, worker_unavailable}
use apprtc.RoomId.{RoomId, room_id_from_bytes}
use apprtc.Sfu.Shard.{command_error}

-- What becomes of a command at a shard: its queue is closed, its answer is dropped, or it answers.
pub data Delivery : Type 0 where
  unsent dropped : Delivery
  answered : SfuCommandResult → Delivery

-- `Uuid::as_u128`: the bytes, most significant first.
unfoldable pub as_u128 : List ℕ → ℕ → ℕ
as_u128 [] n = n
as_u128 (b ∷ bs) n = as_u128 bs (n * 256 + b)

module _ (is_room_uuid : RoomId → Bool) where
  -- The room that a command names; a Drain names none.
  unfoldable pub room_of : Option Command → Option RoomId
  unfolding room_id_from_bytes
  room_of none = none
  room_of (some (Command.sync_room y)) = room_id_from_bytes is_room_uuid y.room_id
  room_of (some (Command.join j)) = room_id_from_bytes is_room_uuid j.room_id
  room_of (some (Command.leave l)) = room_id_from_bytes is_room_uuid l.room_id
  room_of (some (Command.signal g)) = room_id_from_bytes is_room_uuid g.room_id
  room_of (some Command.drain) = none

  abbrev pub command_room_id : SfuCommand → Option RoomId
  command_room_id c = room_of c.command

  module _ (media : List (SfuCommand → Delivery)) where
    unfoldable pub shard_index : RoomId → ℕ
    unfolding as_u128
    shard_index room = as_u128 room.bytes 0 % max (length media) 1

    -- The answer of a shard, once its index is known.
    unfoldable pub deliver : SfuCommand → Option (SfuCommand → Delivery) → SfuCommandResult
    unfolding command_error
    deliver c none = command_error c.request_id (worker_unavailable, "media shard unavailable")
    deliver c (some shard) = elim (shard c) [
      | unsent ↦ command_error c.request_id (worker_unavailable, "media shard stopped")
      | dropped ↦ command_error c.request_id (worker_unavailable, "media shard stopped")
      | answered result ↦ result
    ]

    unfoldable pub dispatch_command : SfuCommand → SfuCommandResult
    unfolding deliver room_of
    dispatch_command c = elim (command_room_id c) [
      | none ↦ command_error c.request_id (invalid_request, "unsupported command")
      | some room ↦ deliver c (get_elem? media (shard_index room))
    ]

    shard_index_lt : (room : RoomId) → 0 < length media → shard_index room < length media
    unfolding shard_index
    shard_index_lt room h = omega arith

    -- With at least one shard every room has one, so a command with a room id is never refused for
    -- want of a shard: it is answered by the shard of its room, or refused since that shard stopped.
    pub dispatch_command-shard :
        (c : SfuCommand) (room : RoomId)
        → 0 < length media
        → command_room_id c ≡ some room
        → (shard : SfuCommand → Delivery) × (get_elem? media (shard_index room) ≡ some shard)
          × (dispatch_command c ≡ deliver c (some shard))
    unfolding dispatch_command
    dispatch_command-shard c room h e =
        let (shard, found) = get_elem?_of_lt media (shard_index room) (shard_index_lt room h) in
        (shard, found, rw (e, dispatch_command) (ap (deliver c) found))

    -- A Drain is refused as an unsupported command and reaches no shard, although `apply_command`
    -- would acknowledge it.
    pub dispatch_command-drain :
        (request_id : ℕ)
        → dispatch_command (record { request_id = request_id; command = some Command.drain })
          ≡ command_error request_id (invalid_request, "unsupported command")
    unfolding dispatch_command
    dispatch_command-drain request_id = refl

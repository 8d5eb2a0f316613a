-- ===== src/Sfu/Commands.antt =====
-- `apply_command` of sfu_server.rs: one command of the signaling session against a shard.
use apprtc.Prelude.{
  ℕ, String, Option, some, none, Result, ok, err, Bool, true, false, ite, ℕ_discrete, eqb,
  if◌then◌else◌,
}
use apprtc.Prelude.HashMap
use apprtc.Proto.{
  ErrorCode, internal, stale_lifecycle, stale_assignment_epoch, invalid_request, Member,
  LeaveMember, SfuSignal, Command, SfuCommand, Payload, member_joined, member_left, acknowledged,
  SfuCommandResult,
}
use apprtc.RoomId.{RoomId, room_id_from_bytes}
use apprtc.Sfu.Engine.{External, Key, Key-discrete, join, leave}
use apprtc.Sfu.Shard.{
  Shard, Stamp, Stamp-discrete, Failure, invalid_room_id, command_error, command_result,
}
use apprtc.Sfu.Signal.{apply_signal}
use apprtc.Sfu.Sync.{sync_room}
pub mod Members
pub mod Fencing
pub mod Refines

abbrev pub left_member : LeaveMember → Member
left_member l = record {
  room_id = l.room_id;
  client_id = l.client_id;
  lifecycle_id = l.lifecycle_id;
  assignment_epoch = l.assignment_epoch;
}

module _ {E V S : Type 0} (x : External E V S) where
  -- `match projection.get(&key)` of a Join.
  unfoldable pub join_member :
      ℕ → RoomId → Member → Shard E → Option Stamp → Shard E × Result Payload Failure
  unfolding Stamp-discrete Key-discrete HashMap.insert
  join_member request_id room j s (some current) =
      ite (Stamp-discrete current (j.lifecycle_id, j.assignment_epoch)) (s, ok (member_joined j))
        (s, err (stale_lifecycle, "conflicting member lifecycle"))
  join_member request_id room j s none =
      let (e, accepted) = x.handle_event s.engine (join request_id room j.client_id) in
      if accepted
      then (
        record {
          engine = e;
          projection =
              HashMap.insert Key-discrete s.projection (room, j.client_id)
                (j.lifecycle_id, j.assignment_epoch);
        },
        ok (member_joined j),
      )
      else (record s { engine = e }, err (internal, "SFU join failed"))

  unfoldable pub apply_join : ℕ → Member → Shard E → Shard E × Result Payload Failure
  unfolding join_member room_id_from_bytes HashMap.get
  apply_join request_id j s = elim (room_id_from_bytes x.is_room_uuid j.room_id) [
    | none ↦ (s, err invalid_room_id)
    | some room ↦
        join_member request_id room j s (HashMap.get Key-discrete s.projection (room, j.client_id))
  ]

  -- `match projection.get(&key)` of a Leave: the epoch is compared before the lifecycle.
  unfoldable pub leave_member :
      ℕ → RoomId → LeaveMember → Shard E → Option Stamp → Shard E × Result Payload Failure
  unfolding Key-discrete HashMap.remove
  leave_member request_id room l s none = (s, ok (member_left (left_member l)))
  leave_member request_id room l s (some (lifecycle_id, assignment_epoch)) =
      ite (ℕ_discrete assignment_epoch l.assignment_epoch)
        (ite (ℕ_discrete lifecycle_id l.lifecycle_id)
          (let (e, accepted) =
              x.handle_event s.engine
                (leave request_id room l.client_id (x.reason_name l.reason)) in
            if accepted
            then (
              record {
                engine = e;
                projection = HashMap.remove Key-discrete s.projection (room, l.client_id);
              },
              ok (member_left (left_member l)),
            )
            else (record s { engine = e }, err (internal, "SFU leave failed")))
          (s, err (stale_lifecycle, "stale member lifecycle")))
        (s, err (stale_assignment_epoch, "stale assignment epoch"))

  unfoldable pub apply_leave : ℕ → LeaveMember → Shard E → Shard E × Result Payload Failure
  unfolding leave_member room_id_from_bytes HashMap.get
  apply_leave request_id l s = elim (room_id_from_bytes x.is_room_uuid l.room_id) [
    | none ↦ (s, err invalid_room_id)
    | some room ↦
        leave_member request_id room l s (HashMap.get Key-discrete s.projection (room, l.client_id))
  ]

  -- The member that a Signal speaks for must be there under the same lifecycle and epoch.
  unfoldable pub is_current : SfuSignal → Option Stamp → Bool
  unfolding Stamp-discrete
  is_current g none = false
  is_current g (some current) =
      ite (Stamp-discrete current (g.lifecycle_id, g.assignment_epoch)) true false

  unfoldable pub signal_member : ℕ → RoomId → SfuSignal → Shard E → Shard E × Result Payload Failure
  unfolding apply_signal
  signal_member request_id room g s =
      let (e, handled) = apply_signal x s.engine request_id room g in
      (record s { engine = e }, elim handled [ ok _ ↦ ok acknowledged | err failure ↦ err failure ])

  unfoldable pub apply_member_signal : ℕ → SfuSignal → Shard E → Shard E × Result Payload Failure
  unfolding is_current signal_member room_id_from_bytes HashMap.get
  apply_member_signal request_id g s = elim (room_id_from_bytes x.is_room_uuid g.room_id) [
    | none ↦ (s, err invalid_room_id)
    | some room ↦
        if is_current g (HashMap.get Key-discrete s.projection (room, g.client_id))
        then signal_member request_id room g s
        else (s, err (stale_lifecycle, "stale signal lifecycle"))
  ]

  -- The first `match` of `apply_command`.
  unfoldable pub dispatch : ℕ → Option Command → Shard E → Shard E × Result Payload Failure
  unfolding apply_join apply_leave apply_member_signal sync_room
  dispatch request_id (some (Command.join j)) s = apply_join request_id j s
  dispatch request_id (some (Command.leave l)) s = apply_leave request_id l s
  dispatch request_id (some (Command.signal g)) s = apply_member_signal request_id g s
  dispatch request_id (some (Command.sync_room y)) s = sync_room x request_id y s
  dispatch request_id (some Command.drain) s = (s, ok acknowledged)
  dispatch request_id none s = (s, err (invalid_request, "missing SFU command"))

  unfoldable pub apply_command : SfuCommand → Shard E → Shard E × SfuCommandResult
  unfolding dispatch command_result
  apply_command c s =
      if eqb c.request_id 0
      then (s, command_error c.request_id (invalid_request, "request_id must be nonzero"))
      else (let (s', outcome) = dispatch c.request_id c.command s in
          (s', command_result c.request_id outcome))

-- ===== src/Sfu/Commands/Fencing.antt =====
-- What the commands of one member promise: stale ones change nothing, repeated ones change nothing
-- more, and a failure leaves the projection as it was.
use apprtc.Prelude.{
  ℕ, String, ◌≡◌, refl, ◌≢◌, ◌⊎◌, inl, inr, Option, some, none, List, Result, ok, err, arith,
  Option-cases, ℕ_discrete,
}
use apprtc.Prelude.HashMap
use apprtc.Prelude.HashMap.{get-insert, get-remove}
use apprtc.Proto.{
  stale_lifecycle, stale_assignment_epoch, Member, LeaveMember, Command, Payload, SyncRoom,
}
use apprtc.RoomId.{RoomId, room_id_from_bytes}
use apprtc.Sfu.Engine.{External, Key-discrete}
use apprtc.Sfu.Shard.{Shard, Stamp, Failure}
use apprtc.Sfu.Commands.{dispatch}

-- Whom a member command addresses, and the stamp it claims for that member.
abbrev pub addressed : Command → Option (List ℕ × ℕ × Stamp)
addressed (Command.join j) = some (j.room_id, j.client_id, (j.lifecycle_id, j.assignment_epoch))
addressed (Command.leave l) = some (l.room_id, l.client_id, (l.lifecycle_id, l.assignment_epoch))
addressed (Command.signal g) = some (g.room_id, g.client_id, (g.lifecycle_id, g.assignment_epoch))
addressed (Command.sync_room y) = none
addressed Command.drain = none

abbrev pub IsStale : Result Payload Failure → Type 0
IsStale outcome =
    ((reason : String) × (outcome ≡ err (stale_lifecycle, reason)))
    ⊎ ((reason : String) × (outcome ≡ err (stale_assignment_epoch, reason)))

module _ {E V S : Type 0} (x : External E V S) where
  module _ (request_id : ℕ) where
    -- A Join, Leave or Signal whose lifecycle and epoch are not the ones under which its member is
    -- placed reaches neither the engine nor the projection, and is refused as stale.
    pub dispatch-IsStale :
        (c : Command) (s : Shard E) (bytes : List ℕ) (client : ℕ) (claimed current : Stamp)
        (room : RoomId)
        → addressed c ≡ some (bytes, client, claimed)
        → room_id_from_bytes x.is_room_uuid bytes ≡ some room
        → HashMap.get Key-discrete s.projection (room, client) ≡ some current
        → current ≢ claimed
        → ((dispatch x request_id (some c) s).0 ≡ s) × IsStale (dispatch x request_id (some c) s).1
    unfolding dispatch
    dispatch-IsStale (Command.join j) s bytes client claimed current room a read placed differs =
        (ground arith, inl ("conflicting member lifecycle", ground arith))
    dispatch-IsStale (Command.leave l) s bytes client claimed current room a read placed differs = (
      ground arith,
      elim (ℕ_discrete current.1 l.assignment_epoch) [
        | yes same ↦ inl ("stale member lifecycle", ground arith)
        | no other ↦ inr ("stale assignment epoch", ground arith)
      ],
    )
    dispatch-IsStale (Command.signal g) s bytes client claimed current room a read placed differs =
        (ground arith, inl ("stale signal lifecycle", ground arith))
    dispatch-IsStale (Command.sync_room y) s bytes client claimed current room a read placed
          differs =
        cc
    dispatch-IsStale Command.drain s bytes client claimed current room a read placed differs = cc

    -- A command that fails leaves the projection as it was, unless it synchronizes a room.
    pub projection-dispatch-err :
        (c : Option Command) (s : Shard E) (failure : Failure)
        → ((y : SyncRoom) → c ≢ some (Command.sync_room y))
        → (dispatch x request_id c s).1 ≡ err failure
        → (dispatch x request_id c s).0.projection ≡ s.projection
    unfolding dispatch
    projection-dispatch-err none s failure n h = refl
    projection-dispatch-err (some (Command.join j)) s failure n h = ground arith
    projection-dispatch-err (some (Command.leave l)) s failure n h = ground arith
    projection-dispatch-err (some (Command.signal g)) s failure n h = ground arith
    projection-dispatch-err (some (Command.sync_room y)) s failure n h = absurd (n y refl)
    projection-dispatch-err (some Command.drain) s failure n h = refl

  -- A Join that succeeded succeeds again with the same answer, under any request id, and the second
  -- time neither the engine nor the projection changes.
  pub dispatch-join_twice :
      (request_id again : ℕ) (j : Member) (s : Shard E) (payload : Payload)
      → (dispatch x request_id (some (Command.join j)) s).1 ≡ ok payload
      → dispatch x again (some (Command.join j)) (dispatch x request_id (some (Command.join j)) s).0
        ≡ ((dispatch x request_id (some (Command.join j)) s).0, ok payload)
  unfolding dispatch
  dispatch-join_twice request_id again j s payload h =
      elim (Option-cases (room_id_from_bytes x.is_room_uuid j.room_id)) [
        | inl e ↦ absurd (ground arith)
        | inr (room, e) ↦ ground (
          arith,
          get-insert Key-discrete s.projection (room, j.client_id) (room, j.client_id)
              (j.lifecycle_id, j.assignment_epoch),
        )
      ]

  -- So does a Leave.
  pub dispatch-leave_twice :
      (request_id again : ℕ) (l : LeaveMember) (s : Shard E) (payload : Payload)
      → (dispatch x request_id (some (Command.leave l)) s).1 ≡ ok payload
      → dispatch x again
          (some (Command.leave l))
          (dispatch x request_id (some (Command.leave l)) s).0
        ≡ ((dispatch x request_id (some (Command.leave l)) s).0, ok payload)
  unfolding dispatch
  dispatch-leave_twice request_id again l s payload h =
      elim (Option-cases (room_id_from_bytes x.is_room_uuid l.room_id)) [
        | inl e ↦ absurd (ground arith)
        | inr (room, e) ↦
            ground
              (arith, get-remove Key-discrete s.projection (room, l.client_id) (room, l.client_id))
      ]

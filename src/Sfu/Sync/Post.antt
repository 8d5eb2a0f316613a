-- ===== src/Sfu/Sync/Post.antt =====
-- What a room synchronization promises once it succeeds.
use apprtc.Prelude.{ℕ, ◌≡◌, some, ok, ite, arith, []}
use apprtc.Prelude.HashMap
use apprtc.Proto.{SyncRoom, Payload}
use apprtc.RoomId.{RoomId, RoomId-discrete, room_id_from_bytes}
use apprtc.Sfu.Engine.{External, Key-discrete}
use apprtc.Sfu.Shard.{Shard}
use apprtc.Sfu.Sync.{contains_key, collect, stale, leave_stale, sync_members, sync_room}
use apprtc.Sfu.Sync.Lookup.{
  last_lifecycle, stamped, get-collect, listed-stale, get-leave_stale, get-place_members,
}

module _ {E V S : Type 0} (x : External E V S) (request_id : ℕ) (sync : SyncRoom)
    (s : Shard E) where
  get-sync_members :
      (room r : RoomId) (c : ℕ) (payload : Payload)
      → (sync_members x request_id room sync s).1 ≡ ok payload
      → HashMap.get Key-discrete (sync_members x request_id room sync s).0.projection (r, c)
        ≡ ite
            (RoomId-discrete room r)
            (stamped sync.assignment_epoch (last_lifecycle sync.members c))
            (HashMap.get Key-discrete s.projection (r, c))
  unfolding sync_members contains_key
  get-sync_members room r c payload h = ground (
    arith,
    get-collect [] sync.members c,
    listed-stale room (collect [] sync.members) s.projection c,
    get-leave_stale x request_id room (stale room (collect [] sync.members) s.projection) s r c,
    get-place_members x request_id room sync.assignment_epoch sync.members
        (leave_stale x request_id room (stale room (collect [] sync.members) s.projection) s).0 r c,
  )

  -- After a synchronization that succeeds, the projection has in its room exactly the clients of the
  -- list, each under its last lifecycle there and the assignment's epoch, and every other room is as
  -- it was.
  pub get-sync_room :
      (room r : RoomId) (c : ℕ) (payload : Payload)
      → room_id_from_bytes x.is_room_uuid sync.room_id ≡ some room
      → (sync_room x request_id sync s).1 ≡ ok payload
      → HashMap.get Key-discrete (sync_room x request_id sync s).0.projection (r, c)
        ≡ ite
            (RoomId-discrete room r)
            (stamped sync.assignment_epoch (last_lifecycle sync.members c))
            (HashMap.get Key-discrete s.projection (r, c))
  unfolding sync_room
  get-sync_room room r c payload e h = ground (arith, get-sync_members room r c payload)

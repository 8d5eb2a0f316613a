-- ===== src/Sfu/Sync.antt =====
-- `sync_room` of sfu_server.rs: bring one room's members to the list that signaling sends. Members
-- that are not wanted leave in the order in which the projection is walked, which for the code's
-- `HashMap` is any order.
use apprtc.Prelude.{
  ℕ, String, Option, some, none, List, [], ◌∷◌, Result, ok, err, Bool, true, false, ite, ℕ_discrete,
  if◌then◌else◌,
}
use apprtc.Prelude.HashMap.{HashMap}
use apprtc.Prelude.HashMap
use apprtc.Proto.{ErrorCode, internal, MemberProjection, SyncRoom, Payload, room_synced}
use apprtc.RoomId.{RoomId, RoomId-discrete, room_id_from_bytes}
use apprtc.Sfu.Engine.{External, Key, Key-discrete, join, leave}
use apprtc.Sfu.Shard.{Shard, Stamp, Projection, Failure, invalid_room_id}
pub mod Lookup
pub mod Post

unfoldable pub contains_key {ℓ} : {K V : Type ℓ} → Discrete K → HashMap K V → K → Bool
unfolding HashMap.get
contains_key dec m k = elim (HashMap.get dec m k) [ none ↦ false | some _ ↦ true ]

-- `collect` into a map: a later entry of a client replaces an earlier one.
unfoldable pub collect : HashMap ℕ ℕ → List MemberProjection → HashMap ℕ ℕ
unfolding HashMap.insert
collect m [] = m
collect m (member ∷ rest) =
    collect (HashMap.insert ℕ_discrete m member.client_id member.lifecycle_id) rest

unfoldable pub stale : RoomId → HashMap ℕ ℕ → Projection → List ℕ
unfolding contains_key RoomId-discrete
stale room wanted [] = []
stale room wanted (((candidate, client), _) ∷ p) =
    let rest = stale room wanted p in
    ite (RoomId-discrete candidate room)
      (if contains_key ℕ_discrete wanted client then rest else client ∷ rest) rest

module _ {E V S : Type 0} (x : External E V S) (request_id : ℕ) (room : RoomId) where
  -- The first loop: the projection forgets a client once the engine has let it go.
  unfoldable pub leave_stale : List ℕ → Shard E → Shard E × Result (Unit {0}) Failure
  unfolding HashMap.remove Key-discrete
  leave_stale [] s = (s, ok tt)
  leave_stale (client ∷ rest) s =
      let (e, accepted) =
        x.handle_event s.engine (leave request_id room client "room synchronization") in
      if accepted
      then leave_stale rest (record {
        engine = e;
        projection = HashMap.remove Key-discrete s.projection (room, client);
      })
      else (record s { engine = e }, err (internal, "SFU room sync leave failed"))

  -- One round of the second loop: the engine joins a client that is new to the projection.
  unfoldable pub place_member : ℕ → MemberProjection → Shard E → Shard E × Result (Unit {0}) Failure
  unfolding HashMap.insert contains_key Key-discrete
  place_member epoch member s =
      let key : Key = (room, member.client_id) in
      let stamp : Stamp = (member.lifecycle_id, epoch) in
      if contains_key Key-discrete s.projection key
      then (record s { projection = HashMap.insert Key-discrete s.projection key stamp }, ok tt)
      else let (e, accepted) = x.handle_event s.engine (join request_id room member.client_id) in
        if accepted
        then (
          record { engine = e; projection = HashMap.insert Key-discrete s.projection key stamp },
          ok tt,
        )
        else (record s { engine = e }, err (internal, "SFU room sync join failed"))

  unfoldable pub place_members :
      ℕ → List MemberProjection → Shard E → Shard E × Result (Unit {0}) Failure
  unfolding place_member
  place_members epoch [] s = (s, ok tt)
  place_members epoch (member ∷ rest) s =
      let (s', placed) = place_member epoch member s in
      elim placed [ ok _ ↦ place_members epoch rest s' | err failure ↦ (s', err failure) ]

module _ {E V S : Type 0} (x : External E V S) where
  -- The body of `sync_room` once the room id is read.
  unfoldable pub sync_members : ℕ → RoomId → SyncRoom → Shard E → Shard E × Result Payload Failure
  unfolding collect stale leave_stale place_members
  sync_members request_id room sync s =
      let (s', gone) =
        leave_stale x request_id room (stale room (collect [] sync.members) s.projection) s in
      elim gone [
        | err failure ↦ (s', err failure)
        | ok _ ↦
            let (s'', placed) =
              place_members x request_id room sync.assignment_epoch sync.members s' in
            elim placed [
              | err failure ↦ (s'', err failure)
              | ok _ ↦ (
                s'',
                ok (
                    room_synced (record {
                      room_id = sync.room_id;
                      assignment_epoch = sync.assignment_epoch;
                    })),
              )
            ]
      ]

  unfoldable pub sync_room : ℕ → SyncRoom → Shard E → Shard E × Result Payload Failure
  unfolding sync_members room_id_from_bytes
  sync_room request_id sync s = elim (room_id_from_bytes x.is_room_uuid sync.room_id) [
    | none ↦ (s, err invalid_room_id)
    | some room ↦ sync_members request_id room sync s
  ]

-- ===== src/Sfu/Commands/Members.antt =====
-- The projection and the engine agree on who is in which room, whatever the commands do.
use apprtc.Prelude.{
  ◌∙◌, Bool-cases, Option-cases, Result-cases, inl, inr, ℕ, String, ◌≡◌, Option, some, none, List,
  [], ◌∷◌, Bool, true, false, arith,
}
use apprtc.Prelude.HashMap
use apprtc.Prelude.HashMap.{get-insert, get-remove}
use apprtc.Proto.{Member, MemberProjection, LeaveMember, SfuSignal, Command, SyncRoom}
use apprtc.RoomId.{RoomId, room_id_from_bytes}
use apprtc.Sfu.Engine.{External, KeepsMembers, AppSignal, Key, Key-discrete, SfuEvent, join, leave}
use apprtc.Sfu.Shard.{Shard, Stamp}
use apprtc.Sfu.Signal.{apply_signal, apply_description, description_request_id, end_of_candidates}
use apprtc.Sfu.Sync.{
  contains_key, leave_stale, place_member, place_members, sync_room, stale, collect,
}
use apprtc.Sfu.Commands.{apply_join, apply_leave, apply_member_signal, dispatch}

module _ {E V S : Type 0} (x : External E V S) (member : E → Key → Bool) where
  -- Whoever the projection places is in the room for the engine, and nobody else is.
  abbrev pub Agrees : Shard E → Type 0
  Agrees s = (k : Key) → member s.engine k ≡ contains_key Key-discrete s.projection k

  module _ (laws : KeepsMembers x member) (request_id : ℕ) where
    -- The three moves of which every command consists.
    Agrees-refused :
        (s : Shard E) (event : SfuEvent S)
        → (x.handle_event s.engine event).1 ≡ false
        → Agrees s
        → Agrees (record s { engine = (x.handle_event s.engine event).0 })
    Agrees-refused s event r h k = laws.refused s.engine event k r ∙ h k

    Agrees-joined :
        (s : Shard E) (room : RoomId) (client : ℕ) (stamp : Stamp)
        → (x.handle_event s.engine (join request_id room client)).1 ≡ true
        → Agrees s
        → Agrees (record {
          engine = (x.handle_event s.engine (join request_id room client)).0;
          projection = HashMap.insert Key-discrete s.projection (room, client) stamp;
        })
    unfolding contains_key
    Agrees-joined s room client stamp a h k = ground (
      arith,
      laws.joined s.engine request_id room client k a,
      h k,
      get-insert Key-discrete s.projection (room, client) k stamp,
    )

    Agrees-left :
        (s : Shard E) (room : RoomId) (client : ℕ) (reason : String)
        → (x.handle_event s.engine (leave request_id room client reason)).1 ≡ true
        → Agrees s
        → Agrees (record {
          engine = (x.handle_event s.engine (leave request_id room client reason)).0;
          projection = HashMap.remove Key-discrete s.projection (room, client);
        })
    unfolding contains_key
    Agrees-left s room client reason a h k = ground (
      arith,
      laws.left s.engine request_id room client reason k a,
      h k,
      get-remove Key-discrete s.projection (room, client) k,
    )

    -- A member that is there is stamped anew.
    Agrees-restamped :
        (s : Shard E) (key : Key) (stamp : Stamp)
        → contains_key Key-discrete s.projection key ≡ true
        → Agrees s
        → Agrees (record s { projection = HashMap.insert Key-discrete s.projection key stamp })
    unfolding contains_key
    Agrees-restamped s key stamp c h k =
        ground (arith, h k, get-insert Key-discrete s.projection key k stamp)

    Agrees-leave_stale :
        (room : RoomId) (cs : List ℕ) (s : Shard E)
        → Agrees s
        → Agrees (leave_stale x request_id room cs s).0
    unfolding leave_stale
    Agrees-leave_stale room [] s h = h
    Agrees-leave_stale room (c ∷ cs) s h =
        elim (Bool-cases
          (x.handle_event s.engine (leave request_id room c "room synchronization")).1) [
            | inl a ↦ rw a (Agrees-leave_stale room cs _ (Agrees-left s room c _ a h))
            | inr r ↦ rw r (Agrees-refused s _ r h)
          ]

    Agrees-place_member :
        (room : RoomId) (epoch : ℕ) (m : MemberProjection) (s : Shard E)
        → Agrees s
        → Agrees (place_member x request_id room epoch m s).0
    unfolding place_member
    Agrees-place_member room epoch m s h =
        elim (Bool-cases (contains_key Key-discrete s.projection (room, m.client_id))) [
          | inl c ↦ rw c (Agrees-restamped s (room, m.client_id) (m.lifecycle_id, epoch) c h)
          | inr n ↦
              rw n
                (elim (Bool-cases (x.handle_event s.engine (join request_id room m.client_id)).1) [
                  | inl a ↦ rw a (Agrees-joined s room m.client_id (m.lifecycle_id, epoch) a h)
                  | inr r ↦ rw r (Agrees-refused s _ r h)
                ])
        ]

    Agrees-place_members :
        (room : RoomId) (epoch : ℕ) (members : List MemberProjection) (s : Shard E)
        → Agrees s
        → Agrees (place_members x request_id room epoch members s).0
    unfolding place_members
    Agrees-place_members room epoch [] s h k = h k
    Agrees-place_members room epoch (m ∷ rest) s h k =
        let first = Agrees-place_member room epoch m s h in
        ground (
          arith,
          first k,
          Agrees-place_members room epoch rest (place_member x request_id room epoch m s).0 first k,
        )

    Agrees-sync_room :
        (sync : SyncRoom) (s : Shard E) → Agrees s → Agrees (sync_room x request_id sync s).0
    unfolding sync_room
    Agrees-sync_room sync s h k =
        elim (Option-cases (room_id_from_bytes x.is_room_uuid sync.room_id)) [
          | inl e ↦ rw (e, sync_room) (h k)
          | inr (room, e) ↦
              let gone =
                Agrees-leave_stale room (stale room (collect [] sync.members) s.projection) s h in
              ground (
                arith,
                gone k,
                Agrees-place_members room sync.assignment_epoch sync.members
                    (leave_stale x request_id room
                      (stale room (collect [] sync.members) s.projection) s).0
                    gone k,
              )
        ]

    member-apply_description :
        (e : E) (room : RoomId) (g : SfuSignal) (envelope : AppSignal) (value : V) (k : Key)
        → member (apply_description x e request_id room g envelope value).0 k ≡ member e k
    unfolding apply_description
    member-apply_description e room g envelope value k = elim (Option-cases (x.description value)) [
      | inl n ↦ ground arith
      | inr (sdp, d) ↦
          elim (Result-cases (
            description_request_id (x.is_answer sdp) envelope.requestid g.sdp_request_id
              request_id)) [
                | inl (rid, r) ↦ ground (arith, laws.described e rid room g.client_id sdp k)
                | inr (failure, r) ↦ ground arith
              ]
    ]

    -- Whatever a message does to the engine, nobody joins or leaves by it.
    member-apply_signal :
        (e : E) (room : RoomId) (g : SfuSignal) (k : Key)
        → member (apply_signal x e request_id room g).0 k ≡ member e k
    unfolding apply_signal
    member-apply_signal e room g k = elim (Option-cases (x.from_str g.message_json)) [
      | inl n ↦ ground arith
      | inr (value, v) ↦ elim (Option-cases (x.app_signal value)) [
        | inl n ↦ ground arith
        | inr (envelope, w) ↦ ground (
          arith,
          member-apply_description e room g envelope value k,
          laws.trickled e request_id room g.client_id
              (record {
                candidate = envelope.candidate;
                sdp_mid = envelope.id;
                sdp_mline_index = envelope.label;
              })
              k,
          laws.trickled e request_id room g.client_id end_of_candidates k,
        )
      ]
    ]

    Agrees-join : (j : Member) (s : Shard E) → Agrees s → Agrees (apply_join x request_id j s).0
    unfolding apply_join contains_key
    Agrees-join j s h k = elim (Option-cases (room_id_from_bytes x.is_room_uuid j.room_id)) [
      | inl e ↦ ground (arith, h k)
      | inr (room, e) ↦ ground (
        arith,
        h k,
        laws.joined s.engine request_id room j.client_id k,
        laws.refused s.engine (join request_id room j.client_id) k,
        get-insert Key-discrete s.projection (room, j.client_id) k
            (j.lifecycle_id, j.assignment_epoch),
      )
    ]

    Agrees-leave :
        (l : LeaveMember) (s : Shard E) → Agrees s → Agrees (apply_leave x request_id l s).0
    unfolding apply_leave contains_key
    Agrees-leave l s h k = elim (Option-cases (room_id_from_bytes x.is_room_uuid l.room_id)) [
      | inl e ↦ ground (arith, h k)
      | inr (room, e) ↦ ground (
        arith,
        h k,
        laws.left s.engine request_id room l.client_id (x.reason_name l.reason) k,
        laws.refused s.engine (leave request_id room l.client_id (x.reason_name l.reason)) k,
        get-remove Key-discrete s.projection (room, l.client_id) k,
      )
    ]

    Agrees-signal :
        (g : SfuSignal) (s : Shard E) → Agrees s → Agrees (apply_member_signal x request_id g s).0
    unfolding apply_member_signal
    Agrees-signal g s h k = elim (Option-cases (room_id_from_bytes x.is_room_uuid g.room_id)) [
      | inl e ↦ ground (arith, h k)
      | inr (room, e) ↦ ground (arith, h k, member-apply_signal s.engine room g k)
    ]

    -- With an engine that joins and leaves whom it is told to where it accepts, and changes no
    -- membership where it refuses or is given a signal, every command, refused or carried out,
    -- keeps the projection and the engine in agreement on the members of every room; a
    -- synchronization that breaks off half way does too.
    pub Agrees-dispatch :
        (c : Option Command) (s : Shard E) → Agrees s → Agrees (dispatch x request_id c s).0
    unfolding dispatch
    Agrees-dispatch none s h = h
    Agrees-dispatch (some (Command.join j)) s h = Agrees-join j s h
    Agrees-dispatch (some (Command.leave l)) s h = Agrees-leave l s h
    Agrees-dispatch (some (Command.signal g)) s h = Agrees-signal g s h
    Agrees-dispatch (some (Command.sync_room y)) s h = Agrees-sync_room y s h
    Agrees-dispatch (some Command.drain) s h = h

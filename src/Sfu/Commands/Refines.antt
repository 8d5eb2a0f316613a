-- ===== src/Sfu/Commands/Refines.antt =====
-- The projection that apply_command of sfu_server.rs keeps, against an abstract placement: a function
-- from members to their stamps, in which neither the engine nor a map occurs.
use apprtc.Prelude.{
  ℕ, ◌≡◌, ◌≢◌, sym, ◌∙◌, ap, subst, fun_ext, Option, some, none, List, [], ◌∷◌, Result, ok, err,
  ite, arith, Option-cases, Result-cases, inl, inr,
}
use apprtc.Prelude.HashMap
use apprtc.Prelude.HashMap.{get-insert, get-remove}
use apprtc.Proto.{Command, Payload, SyncRoom}
use apprtc.RoomId.{RoomId, RoomId-discrete, room_id_from_bytes}
use apprtc.Sfu.Engine.{External, Key, Key-discrete}
use apprtc.Sfu.Shard.{Shard, Stamp, Failure}
use apprtc.Sfu.Sync.Lookup.{last_lifecycle, stamped}
use apprtc.Sfu.Sync.Post.{get-sync_room}
use apprtc.Sfu.Commands.{dispatch}
use apprtc.Sfu.Commands.Fencing.{projection-dispatch-err}

-- Where each member is placed, if it is.
abbrev pub Placement : Type 0
Placement = Key → Option Stamp

-- What a command is to do to a placement, once its room is read.
abbrev pub meant : RoomId → Command → Placement → Placement
meant room (Command.join j) p k =
    ite (Key-discrete (room, j.client_id) k) (some (j.lifecycle_id, j.assignment_epoch)) (p k)
meant room (Command.leave l) p k = ite (Key-discrete (room, l.client_id) k) none (p k)
meant room (Command.signal g) p k = p k
meant room (Command.sync_room y) p (r, c) =
    ite (RoomId-discrete room r) (stamped y.assignment_epoch (last_lifecycle y.members c))
      (p (r, c))
meant room Command.drain p k = p k

abbrev room_bytes : Command → List ℕ
room_bytes (Command.join j) = j.room_id
room_bytes (Command.leave l) = l.room_id
room_bytes (Command.signal g) = g.room_id
room_bytes (Command.sync_room y) = y.room_id
room_bytes Command.drain = []

module _ {E V S : Type 0} (x : External E V S) where
  -- A command that succeeds does what is meant, and one that fails does nothing.
  abbrev pub intended : Command → Result Payload Failure → Placement → Placement
  intended c (err _) p = p
  intended c (ok _) p = elim (room_id_from_bytes x.is_room_uuid (room_bytes c)) [
    | none ↦ p
    | some room ↦ meant room c p
  ]

  abbrev pub placement : Shard E → Placement
  placement s k = HashMap.get Key-discrete s.projection k

  placement-dispatch :
      (request_id : ℕ) (c : Command) (s : Shard E) (payload : Payload) (k : Key)
      → (dispatch x request_id (some c) s).1 ≡ ok payload
      → placement (dispatch x request_id (some c) s).0 k ≡ intended c (ok payload) (placement s) k
  unfolding dispatch
  placement-dispatch request_id (Command.join j) s payload k h =
      elim (Option-cases (room_id_from_bytes x.is_room_uuid j.room_id)) [
        | inl e ↦ ground (arith, h, e)
        | inr (room, e) ↦ ground (
          arith,
          h,
          e,
          get-insert Key-discrete s.projection (room, j.client_id) k
              (j.lifecycle_id, j.assignment_epoch),
        )
      ]
  placement-dispatch request_id (Command.leave l) s payload k h =
      elim (Option-cases (room_id_from_bytes x.is_room_uuid l.room_id)) [
        | inl e ↦ ground (arith, h, e)
        | inr (room, e) ↦
            ground (arith, h, e, get-remove Key-discrete s.projection (room, l.client_id) k)
      ]
  placement-dispatch request_id (Command.signal g) s payload k h = ground (arith, h)
  placement-dispatch request_id Command.drain s payload k h = ground (arith, h)
  placement-dispatch request_id (Command.sync_room y) s payload (r, c) h =
      elim (Option-cases (room_id_from_bytes x.is_room_uuid y.room_id)) [
        | inl e ↦ ground (arith, h, e)
        | inr (room, e) ↦ ground (arith, e, get-sync_room x request_id y s room r c payload e h)
      ]

  -- Commands in the order in which the shard gets them, with their request ids.
  abbrev pub dispatch_all : List (ℕ × Command) → Shard E → Shard E
  dispatch_all [] s = s
  dispatch_all ((request_id, c) ∷ cs) s = dispatch_all cs (dispatch x request_id (some c) s).0

  -- What is meant of the same commands, by the answers that the shard gives.
  abbrev pub intended_all : List (ℕ × Command) → Shard E → Placement → Placement
  intended_all [] s p = p
  intended_all ((request_id, c) ∷ cs) s p =
      intended_all cs (dispatch x request_id (some c) s).0
        (intended c (dispatch x request_id (some c) s).1 p)

  -- A synchronization that fails has done a part of its work.
  abbrev pub IsWhole : Command → Result Payload Failure → Type 0
  IsWhole (Command.sync_room _) (err _) = ⊥
  IsWhole _ _ = Unit

  abbrev pub AllWhole : List (ℕ × Command) → Shard E → Type 0
  AllWhole [] s = Unit
  AllWhole ((request_id, c) ∷ cs) s =
      IsWhole c (dispatch x request_id (some c) s).1
      × AllWhole cs (dispatch x request_id (some c) s).0

  not_sync :
      (c : Command) (failure : Failure)
      → IsWhole c (err failure)
      → (y : SyncRoom) → some c ≢ some (Command.sync_room y)
  not_sync (Command.join j) failure w y e = cc
  not_sync (Command.leave l) failure w y e = cc
  not_sync (Command.signal g) failure w y e = cc
  not_sync Command.drain failure w y e = cc
  not_sync (Command.sync_room z) failure w y e = w

  intended_same :
      (c : Command) (outcome : Result Payload Failure) (p q : Placement)
      → ((k : Key) → p k ≡ q k)
      → (k : Key) → intended c outcome p k ≡ intended c outcome q k
  intended_same c outcome p q h k = ap (λ f. intended c outcome f k) (fun_ext h)

  placement-step :
      (request_id : ℕ) (c : Command) (s : Shard E) (k : Key)
      → IsWhole c (dispatch x request_id (some c) s).1
      → placement (dispatch x request_id (some c) s).0 k
        ≡ intended c (dispatch x request_id (some c) s).1 (placement s) k
  placement-step request_id c s k w = elim (Result-cases (dispatch x request_id (some c) s).1) [
    | inl (payload, e) ↦
        placement-dispatch request_id c s payload k e
        ∙ ap (λ o. intended c o (placement s) k) (sym e)
    | inr (failure, e) ↦
        ap (λ p. HashMap.get Key-discrete p k)
          (projection-dispatch-err x request_id (some c) s failure
            (not_sync c failure (subst (IsWhole c) e w)) e)
        ∙ ap (λ o. intended c o (placement s) k) (sym e)
  ]

  -- Over any commands of which no synchronization fails, the projection of a shard places every member
  -- where the abstract placement does, if it did so at the start: a command that succeeds does to the
  -- placement what is meant and nothing else, one that fails does nothing, whatever the engine is and
  -- in whichever order the projection's map is walked.
  pub placement-dispatch_all :
      (cs : List (ℕ × Command)) (s : Shard E) (p : Placement)
      → AllWhole cs s
      → ((k : Key) → placement s k ≡ p k)
      → (k : Key) → placement (dispatch_all cs s) k ≡ intended_all cs s p k
  placement-dispatch_all [] s p w h k = h k
  placement-dispatch_all ((request_id, c) ∷ cs) s p w h k =
      placement-dispatch_all cs (dispatch x request_id (some c) s).0
        (intended c (dispatch x request_id (some c) s).1 p) w.1
        (λ j.
          placement-step request_id c s j w.0
          ∙ intended_same c (dispatch x request_id (some c) s).1 (placement s) p h j)
        k

-- ===== src/Sfu/PlacementTests.antt =====
-- The abstract placement over a Join, a synchronization, a stale Leave and another Leave.
use apprtc.Prelude.{ℕ, ◌≡◌, refl, none, List, [], ◌∷◌, true, ℕ_discrete}
use apprtc.Proto.{Command}
use apprtc.Prelude.HashMap
use apprtc.Sfu.Engine.{External, Key}
use apprtc.Sfu.Shard.{Shard}
use apprtc.Sfu.Commands.{dispatch}
use apprtc.Sfu.Commands.Refines.{
  Placement, placement, dispatch_all, intended_all, AllWhole, placement-dispatch_all,
}

-- An engine that agrees to everything.
abbrev willing : External Unit Unit Unit
willing = record {
  is_room_uuid = λ r. true;
  handle_event = λ e event. (e, true);
  from_str = λ s. none;
  app_signal = λ v. none;
  description = λ v. none;
  is_answer = λ s. true;
  reason_name = λ n. "User";
}

abbrev bytes : List ℕ
bytes = 1 ∷ 2 ∷ 3 ∷ 4 ∷ 5 ∷ 6 ∷ 7 ∷ 8 ∷ 9 ∷ 10 ∷ 11 ∷ 12 ∷ 13 ∷ 14 ∷ 15 ∷ 16 ∷ []

abbrev alice : Key
alice = (record { bytes = bytes }, 11)

abbrev leave_at : ℕ → Command
leave_at lifecycle = Command.leave (record {
  room_id = bytes;
  client_id = 11;
  lifecycle_id = lifecycle;
  assignment_epoch = 3;
  reason = 1;
})

abbrev commands : List (ℕ × Command)
commands =
    (
      1,
      Command.join
          (record { room_id = bytes; client_id = 11; lifecycle_id = 4; assignment_epoch = 2 }),
    )
    ∷ (
      2,
      Command.sync_room (record {
        room_id = bytes;
        assignment_epoch = 3;
        members = record { client_id = 11; lifecycle_id = 6 } ∷ [];
      }),
    )
    ∷ (3, leave_at 5)
    ∷ (4, leave_at 6)
    ∷ []

abbrev empty : Shard Unit
empty = record { engine = tt; projection = [] }

abbrev nobody : Placement
nobody k = none

commands-AllWhole : AllWhole willing commands empty
unfolding dispatch ℕ_discrete
commands-AllWhole = (tt, (tt, (tt, (tt, tt))))

placement-dispatch_all_example :
    placement willing (dispatch_all willing commands empty) alice
    ≡ intended_all willing commands empty nobody alice
unfolding HashMap.get
placement-dispatch_all_example =
    placement-dispatch_all willing commands empty nobody commands-AllWhole (λ k. refl) alice

-- ===== src/Sfu/Events.antt =====
-- `drain_engine` of sfu_server.rs: what the engine reports goes to signaling, stamped with its
-- member's lifecycle and epoch. The events are the ones that polling the engine yields, in order;
-- reading and writing packets has no part in it.
use apprtc.Prelude.{
  ℕ, String, Option, some, none, List, [], ◌∷◌, Bool, true, false, str_eq, and_then, if◌then◌else◌,
}
use apprtc.Prelude.HashMap
use apprtc.Proto.{
  EventMessage, EventKind, signal, failure, internal, SfuSignal, SfuFailure, ProtoError,
}
use apprtc.RoomId.{RoomId, room_id_to_bytes}
use apprtc.Sfu.Engine.{
  SfuEvent, join, leave, session_description, ice_candidate, err, ok, IceCandidate, Key,
  Key-discrete,
}
use apprtc.Sfu.Shard.{Stamp, Projection}
use apprtc.Sfu.Metrics.{next_nonzero}
pub mod Stamps

-- The texts that `serde_json` prints. A description is printed with the member "requestid" if an id
-- is given; a candidate from its type, label, id and candidate.
pub record Printer (S : Type 0) : Type 0 where
  pub is_offer : S → Bool
  pub description_json : S → Option ℕ → String
  pub candidate_json : String → Option ℕ → Option String → String → String

module _ {S : Type 0} where
  -- `event.room_id().zip(event.client_id())`
  unfoldable pub subject : SfuEvent S → Option Key
  subject (join request_id room client) = some (room, client)
  subject (leave request_id room client reason) = some (room, client)
  subject (session_description request_id room client sdp) = some (room, client)
  subject (ice_candidate request_id room client candidate) = some (room, client)
  subject (err request_id (some room) (some client) reason) = some (room, client)
  subject (err request_id none client reason) = none
  subject (err request_id (some room) none reason) = none
  subject ok = none

  module _ (p : Printer S) where
    -- The `match` on the event; `none` is `continue`.
    unfoldable pub event_kind : Key → Stamp → SfuEvent S → Option EventKind
    unfolding room_id_to_bytes
    event_kind (room, client) (lifecycle, epoch) (session_description request_id _ _ sdp) = some (
        signal (record {
          room_id = room_id_to_bytes room;
          client_id = client;
          lifecycle_id = lifecycle;
          assignment_epoch = epoch;
          message_json = p.description_json sdp (if p.is_offer sdp then some request_id else none);
          sdp_request_id = some request_id;
        }))
    event_kind (room, client) (lifecycle, epoch) (ice_candidate _ _ _ candidate) = some (
        signal (record {
          room_id = room_id_to_bytes room;
          client_id = client;
          lifecycle_id = lifecycle;
          assignment_epoch = epoch;
          message_json =
              p.candidate_json
                (if str_eq candidate.candidate "" then "end-of-candidates" else "candidate")
                candidate.sdp_mline_index candidate.sdp_mid candidate.candidate;
          sdp_request_id = none;
        }))
    event_kind (room, client) (lifecycle, epoch) (err request_id _ _ reason) = some (
        failure (record {
          error = some (record {
            code = internal;
            reason = reason;
            retryable = false;
            retry_after_ms = none;
          });
          room_id = some (room_id_to_bytes room);
          client_id = some client;
          lifecycle_id = some lifecycle;
          sdp_request_id = some request_id;
        }))
    event_kind key stamp ok = none
    event_kind key stamp (join _ _ _) = none
    event_kind key stamp (leave _ _ _ _) = none

    -- The event that is reported for one of the engine's, if any.
    unfoldable pub report : Projection → SfuEvent S → Option EventKind
    unfolding subject event_kind HashMap.get Key-discrete
    report projection event = elim (subject event) [
      | none ↦ none
      | some key ↦ elim (HashMap.get Key-discrete projection key) [
        | none ↦ none
        | some stamp ↦ event_kind key stamp event
      ]
    ]

    -- The loop over the engine's events: what is sent, and the event counter afterwards. `takes` says
    -- whether the channel takes a message; once it does not, the loop returns.
    unfoldable pub drain_engine :
        (EventMessage → Bool) → Projection → List (SfuEvent S) → ℕ → List EventMessage × ℕ
    drain_engine takes projection [] counter = ([], counter)
    drain_engine takes projection (event ∷ events) counter = elim (report projection event) [
      | none ↦ drain_engine takes projection events counter
      | some kind ↦
          let (request_id, counter') = next_nonzero counter in
          let message : EventMessage = record { request_id = request_id; event = some kind } in
          let (sent, last) = drain_engine takes projection events counter' in
          if takes message then (message ∷ sent, last) else ([], counter')
    ]

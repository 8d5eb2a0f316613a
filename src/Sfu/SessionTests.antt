-- ===== src/Sfu/SessionTests.antt =====
-- The theorems about the session and the events of sfu_server.rs at concrete inputs.
use apprtc.Prelude.{ℕ, ◌≡◌, refl, some, none, List, [], ◌∷◌, true, false, ℕ_discrete}
use apprtc.Prelude.HashMap
use apprtc.Proto.{
  EventMessage, SfuToSignaling, SignalingToSfu, SfuCommand, SfuCommandResult, Command, event,
}
use apprtc.Proto
use apprtc.RoomId.{RoomId}
use apprtc.Sfu.Engine.{SfuEvent}
use apprtc.Sfu.Shard.{Projection, command_error}
use apprtc.Sfu.Metrics.{Metrics, fetch_add, next_nonzero}
use apprtc.Sfu.Events.{Printer, drain_engine}
use apprtc.Sfu.Events.Stamps.{Reports, drain_engine-Reports}
use apprtc.Sfu.Session.{
  Worker, Session, Meanwhile, Input, message, open_session, running, registration, health_event,
  queue_health, decode_registration, resend,
}
use apprtc.Sfu.Reconnect.{Attempt, reconnect}
use apprtc.Sfu.Session.Pending.{open_session-resends}

abbrev room_bytes : List ℕ
room_bytes = 0 ∷ 1 ∷ 2 ∷ 3 ∷ 4 ∷ 5 ∷ 0x80 ∷ 7 ∷ 0x80 ∷ 9 ∷ 10 ∷ 11 ∷ 12 ∷ 13 ∷ 14 ∷ 15 ∷ []

abbrev room : RoomId
room = record { bytes = room_bytes }

abbrev printer : Printer (Unit {0})
printer = record {
  is_offer = λ _. true;
  description_json = λ _ _. "{}";
  candidate_json = λ kind _ _ _. kind;
}

abbrev projection : Projection
projection = ((room, 1), (10, 3)) ∷ []

-- An offer for a member, and an event for somebody who has left.
abbrev polled : List (SfuEvent (Unit {0}))
polled = SfuEvent.session_description 5 room 1 tt ∷ SfuEvent.join 6 room 2 ∷ []

drain_engine-Reports_example :
    Reports printer projection
      (λ _. true)
      polled
      (drain_engine printer (λ _. true) projection polled 41).0
drain_engine-Reports_example = drain_engine-Reports printer projection (λ _. true) polled 41

abbrev worker : Worker
worker = record { instance_id = "sfu-1"; capacity = record { max_rooms = 8; max_clients = 80 } }

abbrev first_event : EventMessage
first_event = record { request_id = 41; event = none }

abbrev waiting : Session
waiting = record { pending_events = (41, first_event) ∷ []; next_event_id = 42; sent = [] }

abbrev idle : Metrics
idle = record { rooms = 0; clients = 0 }

-- The shards have drawn nothing, or two ids.
abbrev quiet : Meanwhile
quiet = record { metrics = idle; drawn = 0 }

abbrev busy : Meanwhile
busy = record { metrics = idle; drawn = 2 }

-- One attempt does not connect, the next registers and breaks off after an acknowledgement of another
-- event.
abbrev offline : Attempt
offline = record {
  connects = false;
  takes = λ _. true;
  dispatch = λ c. command_error c.request_id (Proto.internal, "");
  reply = none;
  drawn = 3;
  opening = quiet;
  inputs = [];
  stopped_waiting = false;
}

abbrev registering : Attempt
registering = record offline {
  connects = true;
  reply = some (
      SignalingToSfu.registered (record {
        context = some (record { request_id = 45 });
        result = some (Proto.RegisterResult.registered 30000 true);
      }));
  inputs =
      (message (SignalingToSfu.event_ack 40), quiet)
      ∷ (Input.health_tick, busy)
      ∷ (Input.stream_closed, quiet)
      ∷ [];
}

abbrev attempts : List Attempt
attempts = offline ∷ registering ∷ []

abbrev queued : Session
queued = (queue_health worker (λ _. true) idle waiting).0

twice_delayed : (reconnect worker (offline ∷ registering ∷ []) 250 waiting).1 ≡ 1000
unfolding reconnect HashMap.get HashMap.insert HashMap.remove ℕ_discrete decode_registration resend
twice_delayed = refl

abbrev accepted : SignalingToSfu
accepted = SignalingToSfu.registered (record {
  context = some (record { request_id = 42 });
  result = some (Proto.RegisterResult.registered 30000 true);
})

open_session-resends_example :
    let (request_id, counter) = next_nonzero (fetch_add 42 0) in
    let (health_id, counter') = next_nonzero (fetch_add counter 2) in
    open_session worker (λ _. true) 0 (some accepted) busy waiting ≡ (
      record {
        pending_events =
            HashMap.insert ℕ_discrete waiting.pending_events health_id
              (health_event worker idle health_id);
        next_event_id = counter';
        sent =
            registration worker request_id
            ∷ (event first_event ∷ event (health_event worker idle health_id) ∷ []);
      },
      running,
    )
unfolding decode_registration next_nonzero fetch_add
open_session-resends_example =
    open_session-resends worker (λ _. true) 0 accepted busy waiting (30000, true) (λ _. refl) refl

-- ===== src/Sfu/Session.antt =====
-- `run_session` of sfu_server.rs and what it calls. A session draws on the events that signaling has
-- not acknowledged, which outlive it. `select!` may take any ready branch: a run is a sequence of
-- inputs. The stream and the shards' answers are parameters.
use apprtc.Prelude.{
  ℕ, String, Option, some, none, List, [], ◌∷◌, ◌++◌, Result, ok, err, Bool, true, false,
  ℕ_discrete, eqb, if◌then◌else◌,
}
use Prim.Native.Nat.{max}
use Prim.Native.String.{◌++◌ as str_append}
use apprtc.Prelude.HashMap.{HashMap}
use apprtc.Prelude.HashMap
use apprtc.Proto.{
  EventMessage, health, ready, SfuCapacity, SfuToSignaling, register, command_result, event,
  SignalingToSfu, RegisterResult, RegisterSfuResponse, ResponseContext, SfuCommand,
  SfuCommandResult, app_id_sfu,
}
use apprtc.Proto
use apprtc.Sfu.Metrics.{Metrics, fetch_add, next_nonzero}
pub mod Pending

-- What the configuration says of this worker.
pub record Worker : Type 0 where
  pub instance_id : String
  pub capacity : SfuCapacity

pub record Session : Type 0 where
  pub pending_events : HashMap ℕ EventMessage
  -- the counter that the session and the shards draw from
  pub next_event_id : ℕ
  -- what went out on this session's stream, oldest first
  pub sent : List SfuToSignaling

-- `running`, or the result of `run_session`: `ok true` stops the worker, `ok false` and an error make
-- it connect again.
pub data Outcome : Type 0 where
  running : Outcome
  ended : Result Bool String → Outcome

-- `Duration::from_millis(health_interval_ms.max(1))` and `resumed`. The text of a rejection names the
-- reason that signaling gives.
unfoldable pub decode_result : Option RegisterResult → Result (ℕ × Bool) String
decode_result none = err "empty SFU registration response"
decode_result (some (RegisterResult.registered health_interval_ms resumed)) =
    ok (max health_interval_ms 1, resumed)
decode_result (some (RegisterResult.error e)) =
    err (str_append "SFU registration rejected: " e.reason)

unfoldable pub answers : Option ResponseContext → ℕ → Bool
answers none expected = false
answers (some context) expected = eqb context.request_id expected

unfoldable pub decode_registration : SignalingToSfu → ℕ → Result (ℕ × Bool) String
unfolding decode_result answers
decode_registration (SignalingToSfu.command c) expected = err "expected RegisterSfuResponse"
decode_registration (SignalingToSfu.event_ack request_id) expected =
    err "expected RegisterSfuResponse"
decode_registration (SignalingToSfu.registered response) expected =
    if answers response.context expected
    then decode_result response.result
    else err "registration response request_id mismatch"

-- What the shards have done to what they share with the session: the totals are now these, and so many
-- ids have been drawn of the counter of events since the session last looked.
pub record Meanwhile : Type 0 where
  pub metrics : Metrics
  pub drawn : ℕ

unfoldable pub advance : ℕ → Session → Session
unfolding fetch_add
advance drawn s = record s { next_event_id = fetch_add s.next_event_id drawn }

-- What the loop of `run_session` waits for.
pub data Input : Type 0 where
  stop health_tick events_closed stream_closed empty_message : Input
  reported : EventMessage → Input
  message : SignalingToSfu → Input
  stream_failed : String → Input

-- The registration of a worker, and its health report.
abbrev pub registration : Worker → ℕ → SfuToSignaling
registration w request_id = register (record {
  context =
      some (record { app_id = app_id_sfu; instance_id = w.instance_id; request_id = request_id });
  capacity = some w.capacity;
})

abbrev pub health_event : Worker → Metrics → ℕ → EventMessage
health_event w metrics request_id = record {
  request_id = request_id;
  event = some (
      health (record {
        state = ready;
        capacity = some w.capacity;
        current_rooms = metrics.rooms;
        current_clients = metrics.clients;
      }));
}

module _ (w : Worker) (takes : SfuToSignaling → Bool) where
  -- `outgoing_tx.send(..).await?`
  unfoldable pub send : SfuToSignaling → Session → Session × Outcome
  send m s =
      if takes m
      then (record s { sent = s.sent ++ m ∷ [] }, running)
      else (s, ended (err "channel closed"))

  -- The loop over `pending_events.values()`; it ends with the first message that is not taken.
  unfoldable pub resend : HashMap ℕ EventMessage → Session → Session × Outcome
  unfolding send
  resend [] s = (s, running)
  resend ((_, e) ∷ rest) s =
      let (s', outcome) = send (event e) s in
      elim outcome [ running ↦ resend rest s' | ended r ↦ (s', ended r) ]

  unfoldable pub queue_health : Metrics → Session → Session × Outcome
  unfolding send next_nonzero HashMap.insert
  queue_health metrics s =
      let (request_id, counter) = next_nonzero s.next_event_id in
      send (event (health_event w metrics request_id)) (record s {
        pending_events =
            HashMap.insert ℕ_discrete s.pending_events request_id
              (health_event w metrics request_id);
        next_event_id = counter;
      })

  -- Registration on a fresh stream, whose reply is `reply`: none if the stream fails or closes first.
  -- Then every unacknowledged event goes out again, and a health report. Shards draw ids before the
  -- registration, and until the report.
  unfoldable pub open_session : ℕ → Option SignalingToSfu → Meanwhile → Session → Session × Outcome
  unfolding advance
  open_session drawn reply meanwhile s =
      let (request_id, counter) = next_nonzero (fetch_add s.next_event_id drawn) in
      let fresh : Session = record s {
        next_event_id = counter;
        sent = registration w request_id ∷ [];
      } in
      elim reply [
        | none ↦ (fresh, ended (err "SFU session closed before registration response"))
        | some response ↦ elim (decode_registration response request_id) [
          | err reason ↦ (fresh, ended (err reason))
          | ok _ ↦
              let (s', outcome) = resend s.pending_events fresh in
              elim outcome [
                | ended r ↦ (s', ended r)
                | running ↦ queue_health meanwhile.metrics (advance meanwhile.drawn s')
              ]
        ]
      ]

  -- One round of the loop; `dispatch` is `dispatch_command` over this worker's shards.
  unfoldable pub step :
      (SfuCommand → SfuCommandResult) → Metrics → Input → Session → Session × Outcome
  unfolding send queue_health HashMap.insert HashMap.remove
  step dispatch metrics stop s = (s, ended (ok true))
  step dispatch metrics health_tick s = queue_health metrics s
  step dispatch metrics events_closed s = (s, ended (ok true))
  step dispatch metrics (reported e) s =
      send (event e)
        (record s { pending_events = HashMap.insert ℕ_discrete s.pending_events e.request_id e })
  step dispatch metrics stream_closed s = (s, ended (ok false))
  step dispatch metrics (stream_failed reason) s = (s, ended (err reason))
  step dispatch metrics empty_message s = (s, ended (err "empty signaling-to-SFU message"))
  step dispatch metrics (message (SignalingToSfu.command c)) s =
      send (command_result (dispatch c)) s
  step dispatch metrics (message (SignalingToSfu.event_ack request_id)) s =
      (record s { pending_events = HashMap.remove ℕ_discrete s.pending_events request_id }, running)
  step dispatch metrics (message (SignalingToSfu.registered r)) s =
      (s, ended (err "duplicate SFU registration response"))

  -- The loop over a sequence of inputs, each with what the shards have done in the meantime.
  unfoldable pub run_loop :
      (SfuCommand → SfuCommandResult) → List (Input × Meanwhile) → Session → Session × Outcome
  unfolding step advance
  run_loop dispatch [] s = (s, running)
  run_loop dispatch ((input, meanwhile) ∷ rest) s =
      let (s', outcome) = step dispatch meanwhile.metrics input (advance meanwhile.drawn s) in
      elim outcome [ running ↦ run_loop dispatch rest s' | ended r ↦ (s', ended r) ]

-- ===== src/Sfu/MediaLoop/Run.antt =====
-- `media_loop` of sfu_server.rs over the inputs of its `select!`, in the order in which they are taken.
-- The engine's part in them is a parameter: what a packet, a deadline and the close do to it, and the
-- events that are polled from it in a round. Other shards and the session use the same totals and the same
-- counter of events: `elsewhere` is what they have added to the totals, modulo 2 ^ 64, and `drawn` how many
-- ids they have drawn, before the shard takes the input.
use apprtc.Prelude.{
  ℕ, Option, some, none, List, [], ◌∷◌, ◌++◌, map, Bool, true, false, if◌then◌else◌,
}
use apprtc.Proto.{SfuCommand, SfuCommandResult, EventMessage}
use apprtc.Sfu.Engine.{External, SfuEvent}
use apprtc.Sfu.Shard.{Projection}
use apprtc.Sfu.Metrics.{Metrics, fetch_add, fetch_sub, next_nonzero}
use apprtc.Sfu.Events.{Printer, report, drain_engine}
use apprtc.Sfu.MediaLoop.{MediaLoop, handle_media_command}

pub record Io (E S : Type 0) : Type 0 where
  pub handle_read : E → List ℕ → E
  pub handle_timeout : E → E
  -- the packets read and written, and then the events that can be polled, each with what is left of the
  -- engine once it is
  pub pumped : E → E
  pub polled : E → List (SfuEvent S × E)
  pub close : E → E

-- A branch of the `select!`: the stop signal, a command or the end of the channel, what the socket
-- receives or its error, and the engine's deadline.
pub data Input : Type 0 where
  stop deadline : Input
  command : Option SfuCommand → Input
  received : Option (List ℕ) → Input

pub record Taken : Type 0 where
  pub elsewhere : Metrics
  pub drawn : ℕ
  pub input : Input

pub record Running (E : Type 0) : Type 0 where
  pub loop : MediaLoop E
  pub metrics : Metrics
  pub next_event_id : ℕ
  pub events : List EventMessage
  pub responses : List SfuCommandResult

unfoldable pub add_elsewhere : Metrics → Metrics → Metrics
unfolding fetch_add
add_elsewhere n m = record {
  rooms = fetch_add m.rooms n.rooms;
  clients = fetch_add m.clients n.clients;
}

module _ {E V S : Type 0} (x : External E V S) (io : Io E S) (p : Printer S)
    (takes : EventMessage → Bool) where
  abbrev pub with_engine : E → Running E → Running E
  with_engine e r = record r { loop = record r.loop { shard = record r.loop.shard { engine = e } } }

  -- The engine after `drain_engine`: an event that the channel does not take is the last that is polled.
  unfoldable pub engine_after : Projection → List (SfuEvent S × E) → ℕ → E → E
  unfolding report next_nonzero
  engine_after projection [] counter e = e
  engine_after projection ((event, e') ∷ polls) counter e = elim (report p projection event) [
    | none ↦ engine_after projection polls counter e'
    | some kind ↦
        let (request_id, counter') = next_nonzero counter in
        let last = engine_after projection polls counter' e' in
        if takes (record { request_id = request_id; event = some kind }) then last else e'
  ]

  -- What the engine reports goes to signaling.
  unfoldable pub drain_round : Running E → Running E
  unfolding drain_engine engine_after
  drain_round r =
      let e = io.pumped r.loop.shard.engine in
      let polls = io.polled e in
      let projection = r.loop.shard.projection in
      let (sent, next) =
        drain_engine p takes projection (map (λ poll. poll.0) polls) r.next_event_id in
      record (with_engine (engine_after projection polls r.next_event_id e) r) {
        next_event_id = next;
        events = r.events ++ sent;
      }

  unfoldable pub run_media_command : SfuCommand → Running E → Running E
  unfolding handle_media_command
  run_media_command c r =
      let ((l, metrics), result) = handle_media_command x c r.loop r.metrics in
      record r { loop = l; metrics = metrics; responses = r.responses ++ result ∷ [] }

  -- A round, and whether the loop goes on.
  unfoldable pub round : Input → Running E → Running E × Bool
  unfolding drain_round run_media_command
  round stop r = (r, false)
  round (command none) r = (r, false)
  round (command (some c)) r = (drain_round (run_media_command c r), true)
  round (received (some packet)) r =
      (drain_round (with_engine (io.handle_read r.loop.shard.engine packet) r), true)
  round (received none) r = (drain_round r, true)
  round deadline r = (drain_round (with_engine (io.handle_timeout r.loop.shard.engine) r), true)

  -- After the loop.
  unfoldable pub finish : Running E → Running E
  unfolding fetch_sub
  finish r = record (with_engine (io.close r.loop.shard.engine) r) {
    metrics = record {
      rooms = fetch_sub r.metrics.rooms r.loop.contribution.metric_rooms;
      clients = fetch_sub r.metrics.clients r.loop.contribution.metric_clients;
    };
  }

  -- What the others have done before an input is taken.
  abbrev pub met : Taken → Running E → Running E
  met t r = record r {
    metrics = add_elsewhere t.elsewhere r.metrics;
    next_event_id = fetch_add r.next_event_id t.drawn;
  }

  -- `none` is a loop that waits for another input.
  unfoldable pub media_loop : List Taken → Running E → Option (Running E)
  unfolding add_elsewhere round finish
  media_loop [] r = none
  media_loop (t ∷ rest) r =
      let (r', more) = round t.input (met t r) in
      let after = media_loop rest r' in if more then after else some (finish r')

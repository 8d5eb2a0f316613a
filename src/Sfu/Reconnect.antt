-- ===== src/Sfu/Reconnect.antt =====
-- `run` of sfu_server.rs: what it checks before it starts, and its sessions one after another, with the
-- delay between them. Sockets, shards and the connection itself are left out: an attempt says what the
-- stream gives.
use apprtc.Prelude.{
  ℕ, zero, suc, String, ◌+◌, ◌-◌, ◌*◌, ◌<◌, ◌≤◌, ◌≡◌, Option, some, none, List, [], ◌∷◌, Result, ok,
  err, Bool, true, false, ◌&&◌, ltb, leb, if◌then◌else◌,
}
use Prim.Native.Nat.{min}
use apprtc.Proto.{SfuCommand, SfuCommandResult, SfuToSignaling, SignalingToSfu}
use apprtc.Sfu.Session.{
  Worker, Session, Meanwhile, Outcome, running, ended, Input, open_session, run_loop,
}
pub mod Kept

-- The ports of the configured range, from the lowest on.
unfoldable pub ports_from : ℕ → ℕ → List ℕ
ports_from port zero = []
ports_from port (suc n) = port ∷ ports_from (port + 1) n

-- The `ensure!`s, and the ports to which a shard each is bound.
unfoldable pub start : Worker → ℕ → ℕ → Result (List ℕ) String
unfolding ports_from
start w port_min port_max =
    if leb port_min port_max
    then if ltb 0 w.capacity.max_rooms && ltb 0 w.capacity.max_clients
      then ok (ports_from port_min (port_max + 1 - port_min))
      else err "SFU capacity must be nonzero"
    else err "media port range is empty"

-- In milliseconds.
abbrev pub initial_reconnect_delay : ℕ
initial_reconnect_delay = 250

abbrev pub max_reconnect_delay : ℕ
max_reconnect_delay = 10000

-- One attempt: whether the connection comes about, what its stream takes and gives, and whether the
-- worker is stopped during the delay after it.
pub record Attempt : Type 0 where
  pub connects : Bool
  pub takes : SfuToSignaling → Bool
  pub dispatch : SfuCommand → SfuCommandResult
  pub reply : Option SignalingToSfu
  -- the ids that shards draw before the registration, and what they do until the health report
  pub drawn : ℕ
  pub opening : Meanwhile
  pub inputs : List (Input × Meanwhile)
  pub stopped_waiting : Bool

-- `run_session`, its loop included.
unfoldable pub run_session : Worker → Attempt → Session → Session × Outcome
unfolding open_session run_loop
run_session w a s =
    if a.connects
    then (let (s', outcome) = open_session w a.takes a.drawn a.reply a.opening s in
        elim outcome [
          | running ↦ run_loop w a.takes a.dispatch a.inputs s'
          | ended r ↦ (s', ended r)
        ])
    else (s, ended (err "transport error"))

-- How the worker stands: in a session, about to connect, or stopped.
pub data Stage : Type 0 where
  in_session connecting stopped : Stage

unfoldable pub next_delay : ℕ → ℕ
next_delay delay = min (delay * 2) max_reconnect_delay

-- The loop over the sessions.
unfoldable pub reconnect : Worker → List Attempt → ℕ → Session → Session × ℕ × Stage
unfolding run_session next_delay
reconnect w [] delay s = (s, delay, connecting)
reconnect w (a ∷ rest) delay s =
    let (s', outcome) = run_session w a s in
    let further = reconnect w rest (next_delay delay) s' in
    elim outcome [
      | running ↦ (s', delay, in_session)
      | ended (ok true) ↦ (s', delay, stopped)
      | ended _ ↦ if a.stopped_waiting then (s', delay, stopped) else further
    ]

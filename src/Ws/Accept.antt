-- ===== src/Ws/Accept.antt =====
-- `run` and `handle_connection` of ws_server.rs: the connections that are accepted, under which numbers,
-- and what each comes to. What a connection meets is data: how its handshake ends, whether the upgrade
-- is written, and the inputs of its session, with the number of its channel and the moment at which it
-- starts. `from_utf8_lossy` and `derive_accept_key` belong to libraries.
use apprtc.Prelude.{
  ℕ, Text, ◌+◌, ◌%◌, Option, some, none, List, [], ◌∷◌, Bool, ok, err, unwrap_or, if◌then◌else◌,
}
use apprtc.Std.Parse.{u64_mod}
use apprtc.Driver.{DriverCommand}
use apprtc.Ws.Http.{refused, upgraded, panicked, parse, answer_request, read_http_head}
use apprtc.Ws.Session.{Input, Session, ws_session}
pub mod Numbers
pub mod Sockets

-- How the TLS and HTTP handshake ends: with the stop signal, at its time limit, with an error of TLS,
-- or with what is read from the browser.
pub data Handshake : Type 0 where
  stopped timed_out tls_failed : Handshake
  received : List (Option (List ℕ)) → Handshake

pub record Connection : Type 0 where
  pub handshake : Handshake
  pub response_written : Bool
  pub socket : ℕ
  pub now : ℕ
  pub inputs : List (ℕ × Input)

-- What the accept loop takes from its `select!`.
pub data Accepting : Type 0 where
  stop joined accept_error : Accepting
  accepted : Connection → Accepting

-- The connections that are spawned, from one number on.
unfoldable pub run : ℕ → List Accepting → List (ℕ × Connection)
run next_connection_id [] = []
run next_connection_id (stop ∷ events) = []
run next_connection_id (joined ∷ events) = run next_connection_id events
run next_connection_id (accept_error ∷ events) = run next_connection_id events
run next_connection_id (accepted c ∷ events) =
    (next_connection_id, c) ∷ run ((next_connection_id + 1) % u64_mod) events

module _ {I : Type 0} (accepts : List (DriverCommand I) → DriverCommand I → Bool)
    (from_utf8_lossy : List ℕ → Text) (derive_accept_key : Text → Text) where
  -- The commands of a session that is over.
  abbrev pub commands_of : Option (Session I) → Option (List (DriverCommand I))
  commands_of none = none
  commands_of (some s) = some s.commands

  -- A request whose head is read.
  unfoldable pub handle_request : ℕ → Connection → List ℕ → Option (List (DriverCommand I))
  unfolding answer_request parse ws_session
  handle_request connection_id c head =
      elim (answer_request derive_accept_key (parse from_utf8_lossy head)) [
        | refused response ↦ some []
        | panicked ↦ some []
        | upgraded response ↦
            let commands = commands_of (ws_session accepts connection_id c.socket c.now c.inputs) in
            if c.response_written then commands else some []
      ]

  -- The commands that the driver gets from a connection; `none` means that it is not over.
  unfoldable pub handle_connection : ℕ → Connection → Option (List (DriverCommand I))
  unfolding read_http_head handle_request
  handle_connection connection_id c = elim c.handshake [
    | stopped ↦ some []
    | timed_out ↦ some []
    | tls_failed ↦ some []
    | received chunks ↦ elim (read_http_head chunks []) [
      | none ↦ none
      | some (err e) ↦ some []
      | some (ok head) ↦ handle_request connection_id c head
    ]
  ]

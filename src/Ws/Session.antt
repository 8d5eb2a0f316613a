-- ===== src/Ws/Session.antt =====
-- `ws_session` of ws_server.rs: one browser's WebSocket over the inputs of its `select!`, in the order
-- in which they are taken. Each input has the moment at which it is taken, in seconds.
use apprtc.Prelude.{
  ℕ, String, ◌+◌, ◌*◌, Option, some, none, List, [], ◌∷◌, ◌++◌, Bool, true, false, if◌then◌else◌,
}
use apprtc.Driver.{SocketOutput, DriverCommand}
pub mod Trace

-- What the reader yields: a message, an error, or the end.
pub data Incoming : Type 0 where
  text : String → Incoming
  binary ping pong frame close failed ended : Incoming

-- `stop` is the stop signal, and whether the close it leads to is written; `output` what the driver has put into the socket's channel, or its end;
-- the Boolean says whether the browser takes it. `idle` is the idle deadline.
pub data Input : Type 0 where
  stop : Bool → Input
  output : Option SocketOutput → Bool → Input
  incoming : Incoming → Input
  idle : Input

-- What is written to the browser.
pub data Message : Type 0 where
  text : String → Message
  close : Message

-- `commands` are those that the driver has got, `idle_deadline` is when the session is idle.
pub record Session (I : Type 0) : Type 0 where
  pub commands : List (DriverCommand I)
  pub written : List Message
  pub idle_deadline : ℕ

abbrev pub ws_idle_timeout : ℕ
ws_idle_timeout = 60 * 60 * 24

module _ {I : Type 0} (accepts : List (DriverCommand I) → DriverCommand I → Bool) where
  -- `commands.send`, which fails when the driver is gone.
  unfoldable pub send : DriverCommand I → Session I → Session I × Bool
  send c s =
      if accepts s.commands c
      then (record s { commands = s.commands ++ c ∷ [] }, true)
      else (s, false)

  abbrev pub write : Message → Session I → Session I
  write m s = record s { written = s.written ++ m ∷ [] }

  -- A message of the browser, and whether the loop goes on.
  unfoldable pub handle_incoming : ℕ → ℕ → Incoming → Session I → Session I × Bool
  unfolding send
  handle_incoming connection now (Incoming.text message) s =
      let (s', sent) = send (DriverCommand.text connection message) s in
      if sent then (record s' { idle_deadline = now + ws_idle_timeout }, true) else (s', false)
  handle_incoming connection now ping s = (record s { idle_deadline = now + ws_idle_timeout }, true)
  handle_incoming connection now pong s = (s, true)
  handle_incoming connection now frame s = (s, true)
  handle_incoming connection now _ s = (s, false)

  unfoldable pub handle_output : Option SocketOutput → Bool → Session I → Session I × Bool
  handle_output (some (SocketOutput.text message)) delivered s =
      if delivered then (write (Message.text message) s, true) else (s, false)
  handle_output (some SocketOutput.close) delivered s =
      (if delivered then write Message.close s else s, false)
  handle_output none delivered s = (if delivered then write Message.close s else s, false)

  -- A round of the loop.
  unfoldable pub step : ℕ → ℕ → Input → Session I → Session I × Bool
  unfolding handle_incoming handle_output
  step connection now (stop delivered) s = (if delivered then write Message.close s else s, false)
  step connection now (output o delivered) s = handle_output o delivered s
  step connection now (incoming m) s = handle_incoming connection now m s
  step connection now idle s = (s, false)

  -- The loop; `none` means that it waits for another input.
  unfoldable pub run_session : ℕ → List (ℕ × Input) → Session I → Option (Session I)
  unfolding step
  run_session connection [] s = none
  run_session connection ((now, i) ∷ rest) s =
      let (s', more) = step connection now i s in
      let after = run_session connection rest s' in if more then after else some s'

  unfoldable pub disconnect : ℕ → Option (Session I) → Option (Session I)
  unfolding send
  disconnect connection none = none
  disconnect connection (some s) = some (send (DriverCommand.disconnected connection) s).0

  -- The channel of the socket is the number `socket`.
  unfoldable pub ws_session : ℕ → ℕ → ℕ → List (ℕ × Input) → Option (Session I)
  unfolding run_session send disconnect
  ws_session connection socket now inputs =
      let s : Session I = record {
        commands = [];
        written = [];
        idle_deadline = now + ws_idle_timeout;
      } in
      let (s', sent) = send (DriverCommand.connected connection socket) s in
      if sent then disconnect connection (run_session connection inputs s') else some s'

-- ===== src/Driver.antt =====
-- signaling_server.rs: the event loop that owns the Collider of the `signaling` crate, which is a
-- parameter. A channel is a number; what has been put into channels is a list, newest last, and whether
-- `try_send` succeeds depends on that list.
use apprtc.Prelude.{
  ℕ, zero, suc, String, Option, some, none, List, [], ◌∷◌, ◌++◌, Bool, true, false, ℕ_discrete, ite,
  if◌then◌else◌,
}
use apprtc.Prelude.HashMap.{HashMap}
use apprtc.Prelude.HashMap
use apprtc.Grpc.Operations.{AuthorityOperation, AuthorityResult}
use apprtc.Grpc.Stream.{StreamOutput}
pub mod Loop
pub mod Ledger
pub mod Answered
pub mod Released
mod Tests

-- `SocketOutput` of ws_server.rs
pub data SocketOutput : Type 0 where
  text : String → SocketOutput
  close : SocketOutput

-- `BrowserInput` and `BrowserOutput` without their times; the number is the connection.
pub data BrowserInput : Type 0 where
  connected disconnected : ℕ → BrowserInput
  text : ℕ → String → BrowserInput

pub data BrowserOutput : Type 0 where
  text : ℕ → String → BrowserOutput
  close : ℕ → BrowserOutput
  sfu : ℕ → StreamOutput → BrowserOutput

pub record AuthorityCommand : Type 0 where
  pub request_id : ℕ
  pub operation : AuthorityOperation

pub record AuthorityResponse : Type 0 where
  pub request_id : ℕ
  pub result : AuthorityResult

-- The methods of the Collider over its state `C`; a Boolean is `is_ok()` of what a method returns. `I`
-- are the inputs of SFU sessions, of which a registration has a connection.
pub record Collider (C I : Type 0) : Type 0 where
  pub handle_read : C → BrowserInput → C × Bool
  pub handle_write : C → AuthorityCommand → C × Bool
  pub handle_sfu_input : C → I → C × Bool
  pub handle_timeout : C → C × Bool
  pub poll_write : C → Option (BrowserOutput × C)
  pub poll_event : C → Option (AuthorityResponse × C)
  pub close : C → C
  pub registering : I → Option ℕ

-- `DriverCommand`; the channel of an output or of a response is a number.
pub data DriverCommand (I : Type 0) : Type 0 where
  connected : ℕ → ℕ → DriverCommand I
  text : ℕ → String → DriverCommand I
  authority : AuthorityCommand → ℕ → DriverCommand I
  sfu_connected : I → ℕ → DriverCommand I
  sfu_input : I → DriverCommand I
  disconnected : ℕ → DriverCommand I

-- What is put into a channel: for a browser, for an SFU session, or as the answer of an operation.
pub data Sent : Type 0 where
  to_socket : ℕ → SocketOutput → Sent
  to_session : ℕ → StreamOutput → Sent
  answered : ℕ → AuthorityResponse → Sent

pub record Driver (C : Type 0) : Type 0 where
  pub collider : C
  pub sockets : HashMap ℕ ℕ
  pub sfu_sessions : HashMap ℕ ℕ
  pub pending_authority : HashMap ℕ ℕ
  pub sent : List Sent

abbrev pub internal : ℕ → AuthorityResponse
internal request_id = record { request_id = request_id; result = AuthorityResult.error "INTERNAL" }

module _ {C I : Type 0} (x : Collider C I) (takes : List Sent → Sent → Bool) where
  -- `try_send`: a message that is not taken is dropped.
  unfoldable pub try_send : Sent → Driver C → Driver C × Bool
  try_send m d = if takes d.sent m then (record d { sent = d.sent ++ m ∷ [] }, true) else (d, false)

  -- `send` of a oneshot channel, whose outcome is ignored.
  unfoldable pub answer : ℕ → AuthorityResponse → Driver C → Driver C
  answer sender response d = record d { sent = d.sent ++ answered sender response ∷ [] }

  -- Tell the browser of a connection that is taken out to close.
  unfoldable pub close_socket : Option ℕ → Driver C → Driver C
  unfolding try_send
  close_socket none d = d
  close_socket (some socket) d = (try_send (to_socket socket SocketOutput.close) d).0

  unfoldable pub refuse : AuthorityCommand → Driver C → Driver C
  unfolding answer HashMap.get HashMap.remove
  refuse c d = elim (HashMap.get ℕ_discrete d.pending_authority c.request_id) [
    | none ↦ d
    | some sender ↦ answer sender (internal c.request_id) (record d {
      pending_authority = HashMap.remove ℕ_discrete d.pending_authority c.request_id;
    })
  ]

  unfoldable pub handle_text : ℕ → String → Driver C → Driver C
  unfolding close_socket HashMap.get HashMap.remove
  handle_text connection message d =
      let (c, accepted) = x.handle_read d.collider (BrowserInput.text connection message) in
      let d' : Driver C = record d { collider = c } in
      if accepted
      then d'
      else close_socket (HashMap.get ℕ_discrete d.sockets connection)
          (record d' { sockets = HashMap.remove ℕ_discrete d.sockets connection })

  unfoldable pub handle_connected : ℕ → ℕ → Driver C → Driver C
  unfolding HashMap.insert HashMap.remove
  handle_connected connection output d =
      let sockets = HashMap.insert ℕ_discrete d.sockets connection output in
      let (c, accepted) = x.handle_read d.collider (BrowserInput.connected connection) in
      record d {
        collider = c;
        sockets = if accepted then sockets else HashMap.remove ℕ_discrete sockets connection;
      }

  unfoldable pub handle_authority : AuthorityCommand → ℕ → Driver C → Driver C
  unfolding refuse HashMap.insert
  handle_authority command sender d =
      let (c, accepted) = x.handle_write d.collider command in
      let d' : Driver C = record d {
        collider = c;
        pending_authority = HashMap.insert ℕ_discrete d.pending_authority command.request_id sender;
      } in
      if accepted then d' else refuse command d'

  unfoldable pub handle_sfu_connected : I → ℕ → Option ℕ → Driver C → Driver C
  unfolding HashMap.insert HashMap.remove
  handle_sfu_connected input output none d = d
  handle_sfu_connected input output (some connection) d =
      let sessions = HashMap.insert ℕ_discrete d.sfu_sessions connection output in
      let (c, accepted) = x.handle_sfu_input d.collider input in
      record d {
        collider = c;
        sfu_sessions = if accepted then sessions else HashMap.remove ℕ_discrete sessions connection;
      }

  unfoldable pub handle_command : DriverCommand I → Driver C → Driver C
  unfolding handle_connected handle_text handle_authority handle_sfu_connected HashMap.remove
  handle_command (DriverCommand.connected connection output) d =
      handle_connected connection output d
  handle_command (DriverCommand.text connection message) d = handle_text connection message d
  handle_command (DriverCommand.authority command sender) d = handle_authority command sender d
  handle_command (DriverCommand.sfu_connected input output) d =
      handle_sfu_connected input output (x.registering input) d
  handle_command (DriverCommand.sfu_input input) d = record d {
    collider = (x.handle_sfu_input d.collider input).0;
  }
  handle_command (DriverCommand.disconnected connection) d = record d {
    collider = (x.handle_read d.collider (BrowserInput.disconnected connection)).0;
    sockets = HashMap.remove ℕ_discrete d.sockets connection;
  }

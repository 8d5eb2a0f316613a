-- ===== src/Ws/AcceptTests.antt =====
-- The accept loop of ws_server.rs and the driver at two connections.
use apprtc.Prelude.{
  ℕ, Text, codes, ok, ◌*◌, ◌+◌, ◌≡◌, refl, some, none, List, [], ◌∷◌, Bool, true, arith, ℕ_discrete,
}
use apprtc.Prelude.HashMap
use apprtc.Driver.{Collider, DriverCommand, Sent, Driver}
use apprtc.Driver.Loop.{Wake, command, deadline, run_loop, commands}
use apprtc.Driver.Loop.Drains.{IsFinite}
use apprtc.Driver.Released.Traffic.{about}
use apprtc.Ws.Http.{read_http_head}
use apprtc.Ws.Http.Head.{IsHead, IsHead-read_http_head}
use apprtc.Ws.Session.{Incoming, incoming, ended}
use apprtc.Ws.Accept.{
  Connection, Accepting, stop, joined, accepted, timed_out, received, run, handle_request,
  handle_connection,
}
use apprtc.Ws.Accept.Sockets.{sent, sent_by, run_loop-run}

-- A Collider that takes everything and says nothing.
abbrev quiet : Collider ℕ ℕ
quiet = record {
  handle_read = λ c i. (c + 1, true);
  handle_write = λ c i. (c + 1, true);
  handle_sfu_input = λ c i. (c + 1, true);
  handle_timeout = λ c. (c, true);
  poll_write = λ c. none;
  poll_event = λ c. none;
  close = λ c. c;
  registering = λ i. none;
}

abbrev takes : List Sent → Sent → Bool
takes sent m = true

abbrev accepts : List (DriverCommand ℕ) → DriverCommand ℕ → Bool
accepts cs c = true

abbrev derive : Text → Text
derive key = key

abbrev lossy : List ℕ → Text
lossy bytes = bytes

-- One browser that says a word and leaves, and one whose handshake takes too long.
abbrev browser : Connection
browser = record {
  handshake =
      received (
        some (codes "GET /ws HTTP/1.1\r\nUpgrade: websocket\r\nSec-WebSocket-Key: k\r\n\r\n") ∷ []);
  response_written = true;
  socket = 70;
  now = 0;
  inputs = (1, incoming (Incoming.text "hi")) ∷ (2, incoming ended) ∷ [];
}

abbrev slow : Connection
slow = record browser { handshake = timed_out }

abbrev accepting : List Accepting
accepting = accepted slow ∷ joined ∷ accepted browser ∷ stop ∷ accepted browser ∷ []

said :
    sent accepts (λ cs c. refl) lossy derive 2 browser
    ≡ DriverCommand.connected 2 70 ∷ DriverCommand.text 2 "hi" ∷ DriverCommand.disconnected 2 ∷ []
unfolding handle_connection handle_request
said = refl

quiet-IsFinite : IsFinite quiet (λ c. 0) (λ c. 0)
quiet-IsFinite = record {
  write_taken = λ c c' o h. absurd (ground arith);
  event_taken = λ c c' r h. absurd (ground arith);
}

-- The commands of the browser come with a deadline among them.
abbrev wakes : List (Wake quiet takes)
wakes =
    command (DriverCommand.connected 2 70)
    ∷ deadline
    ∷ command (DriverCommand.text 2 "hi")
    ∷ command (DriverCommand.disconnected 2)
    ∷ []

abbrev idle_driver : Driver ℕ
idle_driver = record {
  collider = 0;
  sockets = [];
  sfu_sessions = [];
  pending_authority = [];
  sent = [];
}

mixed :
    (n : ℕ)
    → about n (commands quiet takes wakes)
      ≡ sent_by accepts (λ cs c. refl) lossy derive n (run 1 accepting)
unfolding run handle_connection
mixed n = ground (arith, said)

run_loop-run_example :
    (fuel : ℕ) × (r : Driver ℕ) × (run_loop quiet takes fuel wakes idle_driver ≡ some r)
    × ((n : ℕ) → HashMap.get ℕ_discrete r.sockets n ≡ none)
unfolding run HashMap.get
run_loop-run_example =
    run_loop-run accepts (λ cs c. refl) lossy derive quiet takes (λ c. 0) (λ c. 0) quiet-IsFinite
      accepting wakes idle_driver (λ c. refl) (omega arith) (refl, (refl, tt)) mixed (λ n. refl)

abbrev head : List ℕ
head = codes "GET /ws HTTP/1.1\r\n\r\n"

IsHead-read_http_head_example : IsHead (65 * 1024) (ok head)
unfolding read_http_head
IsHead-read_http_head_example =
    IsHead-read_http_head (some (codes "GET /ws") ∷ some (codes " HTTP/1.1\r\n\r\n") ∷ []) []
      (ok head) (omega arith, (omega arith, tt)) (omega arith) refl

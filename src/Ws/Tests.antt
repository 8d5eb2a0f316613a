-- ===== src/Ws/Tests.antt =====
-- The theorems about ws_server.rs at concrete sessions and requests.
use apprtc.Prelude.{ℕ, Text, codes, ◌≡◌, refl, some, List, [], ◌∷◌, ◌++◌, map, Bool, true, arith}
use apprtc.Std.Split.{is_whitespace, trim, trim_start, trim_end_matches}
use apprtc.Driver.{SocketOutput, DriverCommand}
use apprtc.Ws.Http.{parse}
use apprtc.Ws.Http.Parsed.{IsWord, IsField, request_text, parse-request_text}
use apprtc.Ws.Session.{Incoming, ping, Input, output, incoming, Session, ws_session}
use apprtc.Ws.Session.Trace.{spoken, commands-ws_session}

abbrev accepts : List (DriverCommand ℕ) → DriverCommand ℕ → Bool
accepts cs c = true

-- A ping and two texts, then the driver closes the socket, before a third text.
abbrev inputs : List (ℕ × Input)
inputs =
    (1, incoming ping)
    ∷ (2, incoming (Incoming.text "join"))
    ∷ (3, incoming (Incoming.text "offer"))
    ∷ (4, output (some SocketOutput.close) true)
    ∷ (5, incoming (Incoming.text "late"))
    ∷ []

commands-ws_session_example :
    (r : Session ℕ) × (ws_session accepts 7 70 0 inputs ≡ some r)
    × (r.commands
        ≡ (DriverCommand.connected 7 70 ∷ map (DriverCommand.text 7) (spoken inputs))
          ++ DriverCommand.disconnected 7 ∷ [])
commands-ws_session_example = commands-ws_session accepts (λ cs c. refl) 7 70 0 inputs refl

said : spoken inputs ≡ "join" ∷ "offer" ∷ []
said = refl

get-IsWord : IsWord (codes "GET")
unfolding is_whitespace
get-IsWord = record { nonempty = λ e. ground (arith, e); no_space = (refl, (refl, (refl, tt))) }

ws-IsWord : IsWord (codes "/ws")
unfolding is_whitespace
ws-IsWord = record { nonempty = λ e. ground (arith, e); no_space = (refl, (refl, (refl, tt))) }

host-IsField : IsField (codes "Up", codes "a b")
unfolding trim trim_start trim_end_matches is_whitespace
host-IsField = record {
  nonempty = λ e. ground (arith, e);
  one_line = ground arith;
  no_colon = ground arith;
  key_trimmed = refl;
  value_trimmed = refl;
}

abbrev fields : List (Text × Text)
fields = (codes "Up", codes "a b") ∷ []

parse-request_text_example :
    parse (λ b. b) (request_text (codes "GET") (codes "/ws") fields (codes "rest"))
    ≡ record { method = codes "GET"; path = codes "/ws"; headers = fields }
parse-request_text_example =
    parse-request_text (λ b. b) (request_text (codes "GET") (codes "/ws") fields (codes "rest"))
      (codes "GET") (codes "/ws") (codes "rest") fields get-IsWord ws-IsWord (host-IsField, tt) refl

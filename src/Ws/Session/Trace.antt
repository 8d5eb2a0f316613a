-- ===== src/Ws/Session/Trace.antt =====
-- What the driver gets from one WebSocket session.
use apprtc.Prelude.{
  ℕ, String, ◌+◌, ◌≡◌, refl, sym, ◌∙◌, ap, not, ◌||◌, inl, inr, Option, some, none, List, [], ◌∷◌,
  ◌++◌, map, Bool, true, false, arith, Bool-cases,
}
use mathlib.Core.List.{append_assoc, append-nil}
use apprtc.Driver.{SocketOutput, DriverCommand}
use apprtc.Ws.Session.{
  Incoming, binary, ping, pong, frame, failed, ended, Input, stop, output, incoming, idle, Session,
  ws_idle_timeout, send, handle_incoming, handle_output, step, run_session, disconnect, ws_session,
}

-- Whether a session is over with an input.
abbrev pub ends : Input → Bool
ends (stop _) = true
ends idle = true
ends (output (some (SocketOutput.text _)) true) = false
ends (output (some (SocketOutput.text _)) false) = true
ends (output (some SocketOutput.close) _) = true
ends (output none _) = true
ends (incoming (Incoming.text _)) = false
ends (incoming ping) = false
ends (incoming pong) = false
ends (incoming frame) = false
ends (incoming binary) = true
ends (incoming Incoming.close) = true
ends (incoming failed) = true
ends (incoming ended) = true

abbrev pub text_of : Input → List String
text_of (incoming (Incoming.text message)) = message ∷ []
text_of _ = []

-- What the browser says in a session: the texts up to the input that ends it.
abbrev pub spoken : List (ℕ × Input) → List String
spoken [] = []
spoken ((now, i) ∷ rest) =
    let after = spoken rest in text_of i ++ elim (ends i) [ Bool.true ↦ [] | Bool.false ↦ after ]

-- One of the inputs ends the session.
abbrev pub closes : List (ℕ × Input) → Bool
closes [] = false
closes ((now, i) ∷ rest) = ends i || closes rest

module _ {I : Type 0} (accepts : List (DriverCommand I) → DriverCommand I → Bool)
    (open_driver : (cs : List (DriverCommand I)) (c : DriverCommand I) → accepts cs c ≡ true) where
  commands-send :
      (c : DriverCommand I) (s : Session I)
      → ((send accepts c s).0.commands ≡ s.commands ++ c ∷ []) × ((send accepts c s).1 ≡ true)
  unfolding send
  commands-send c s = rw (open_driver s.commands c) (refl, refl)

  abbrev texts : ℕ → List String → List (DriverCommand I)
  texts connection = map (DriverCommand.text connection)

  texts-append :
      (connection : ℕ) (xs ys : List String)
      → texts connection (xs ++ ys) ≡ texts connection xs ++ texts connection ys
  texts-append connection [] ys = refl
  texts-append connection (x ∷ xs) ys =
      ap (◌∷◌ (DriverCommand.text connection x)) (texts-append connection xs ys)

  commands-handle_output :
      (o : Option SocketOutput) (delivered : Bool) (s : Session I)
      → ((handle_output accepts o delivered s).0.commands ≡ s.commands)
        × ((handle_output accepts o delivered s).1 ≡ not (ends (output o delivered)))
  unfolding handle_output
  commands-handle_output none true s = (refl, refl)
  commands-handle_output none false s = (refl, refl)
  commands-handle_output (some SocketOutput.close) true s = (refl, refl)
  commands-handle_output (some SocketOutput.close) false s = (refl, refl)
  commands-handle_output (some (SocketOutput.text message)) true s = (refl, refl)
  commands-handle_output (some (SocketOutput.text message)) false s = (refl, refl)

  commands-handle_incoming :
      (connection now : ℕ) (m : Incoming) (s : Session I)
      → ((handle_incoming accepts connection now m s).0.commands
          ≡ s.commands ++ texts connection (text_of (incoming m)))
        × ((handle_incoming accepts connection now m s).1 ≡ not (ends (incoming m)))
  unfolding handle_incoming
  commands-handle_incoming connection now (Incoming.text message) s =
      let (grown, sent) = commands-send (DriverCommand.text connection message) s in
      rw sent (grown, refl)
  commands-handle_incoming connection now ping s = (sym (append-nil s.commands), refl)
  commands-handle_incoming connection now pong s = (sym (append-nil s.commands), refl)
  commands-handle_incoming connection now frame s = (sym (append-nil s.commands), refl)
  commands-handle_incoming connection now binary s = (sym (append-nil s.commands), refl)
  commands-handle_incoming connection now Incoming.close s = (sym (append-nil s.commands), refl)
  commands-handle_incoming connection now failed s = (sym (append-nil s.commands), refl)
  commands-handle_incoming connection now ended s = (sym (append-nil s.commands), refl)

  -- A round hands on the text of its input, and goes on unless the input ends the session.
  commands-step :
      (connection now : ℕ) (i : Input) (s : Session I)
      → ((step accepts connection now i s).0.commands ≡ s.commands ++ texts connection (text_of i))
        × ((step accepts connection now i s).1 ≡ not (ends i))
  unfolding step
  commands-step connection now (stop true) s = (sym (append-nil s.commands), refl)
  commands-step connection now (stop false) s = (sym (append-nil s.commands), refl)
  commands-step connection now idle s = (sym (append-nil s.commands), refl)
  commands-step connection now (output o delivered) s = (
    (commands-handle_output o delivered s).0 ∙ sym (append-nil s.commands),
    (commands-handle_output o delivered s).1,
  )
  commands-step connection now (incoming m) s = commands-handle_incoming connection now m s

  commands-run_session :
      (connection : ℕ) (inputs : List (ℕ × Input)) (s : Session I)
      → closes inputs ≡ true
      → (r : Session I) × (run_session accepts connection inputs s ≡ some r)
        × (r.commands ≡ s.commands ++ texts connection (spoken inputs))
  unfolding run_session
  commands-run_session connection [] s h = absurd (ground (arith, h))
  commands-run_session connection ((now, i) ∷ rest) s h =
      let (s', more) = step accepts connection now i s in
      let (grown, goes) = commands-step connection now i s in
      elim (Bool-cases (ends i)) [
        | inl e ↦
            let stops : more ≡ false = goes ∙ ap not e in
            (
              s',
              rw stops refl,
              rw e (
                  grown
                  ∙ ap (λ t. s.commands ++ texts connection t) (sym (append-nil (text_of i)))),
            )
        | inr e ↦
            let goes_on : more ≡ true = goes ∙ ap not e in
            let (r, ran, trace) =
              commands-run_session connection rest s' (sym (ap (λ b. b || closes rest) e) ∙ h) in
            (
              r,
              rw goes_on ran,
              rw e (
                  trace
                  ∙ (ap (λ t. t ++ texts connection (spoken rest)) grown
                      ∙ (append_assoc s.commands (texts connection (text_of i))
                            (texts connection (spoken rest))
                          ∙ ap (λ t. s.commands ++ t)
                              (sym (texts-append connection (text_of i) (spoken rest)))))),
            )
      ]

  -- Where the driver takes every command and one of the inputs ends the session, the session does end,
  -- and the driver has got from it: that the connection is there, the texts that the browser says up to
  -- that input, each once and in their order, and last, once, that the connection is gone. This
  -- holds whichever way the session ends.
  pub commands-ws_session :
      (connection socket now : ℕ) (inputs : List (ℕ × Input))
      → closes inputs ≡ true
      → (r : Session I) × (ws_session accepts connection socket now inputs ≡ some r)
        × (r.commands
            ≡ (DriverCommand.connected connection socket
                ∷ map (DriverCommand.text connection) (spoken inputs))
              ++ DriverCommand.disconnected connection ∷ [])
  unfolding ws_session disconnect
  commands-ws_session connection socket now inputs h =
      let c : DriverCommand I = DriverCommand.connected connection socket in
      let s : Session I = record {
        commands = [];
        written = [];
        idle_deadline = now + ws_idle_timeout;
      } in
      let (grown, sent) = commands-send c s in
      let (r, ran, trace) = commands-run_session connection inputs (send accepts c s).0 h in
      let last : DriverCommand I = DriverCommand.disconnected connection in
      (
        (send accepts last r).0,
        rw (sent, ran) refl,
        (commands-send last r).0
            ∙ ap (λ t. t ++ last ∷ [])
                (trace ∙ ap (λ t. t ++ texts connection (spoken inputs)) grown),
      )

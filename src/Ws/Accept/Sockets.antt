-- ===== src/Ws/Accept/Sockets.antt =====
-- The connections of ws_server.rs and the driver of signaling_server.rs: what the driver holds for them
-- once they are over.
use apprtc.Prelude.{
  ℕ, Text, ◌+◌, ◌<◌, ◌≡◌, ◌⊎◌, inl, inr, refl, sym, ◌∙◌, subst, Option, some, none, List, [], ◌∷◌,
  ◌++◌, map, Bool, true, All, NotIn, Distinct, length, unwrap_or, ite, if_pos, if_neg, ℕ_discrete,
  Option-cases, Bool-cases, Result-cases,
}
use mathlib.Core.List.{append-nil}
use apprtc.Prelude.HashMap
use apprtc.Std.Parse.{u64_mod}
use apprtc.Driver.{Collider, DriverCommand, Sent, Driver}
use apprtc.Driver.Loop.{Wake, run_loop, commands}
use apprtc.Driver.Loop.Returns.{run_loop_total}
use apprtc.Driver.Loop.Drains.{IsFinite}
use apprtc.Driver.Released.Traffic.{about, run_loop-gone, run_loop-unknown}
use apprtc.Ws.Http.{Answer, refused, upgraded, panicked, parse, answer_request, read_http_head}
use apprtc.Ws.Session.Trace.{closes, spoken, commands-ws_session}
use apprtc.Ws.Accept.{
  Handshake, stopped, timed_out, tls_failed, received, Connection, Accepting, run, handle_request,
  handle_connection,
}
use apprtc.Ws.Accept.Numbers.{numbers, run-Distinct}

-- A connection says nothing to the driver, or last that it is gone.
abbrev IsLeaving : {I : Type 0} → ℕ → List (DriverCommand I) → Type 0
IsLeaving {I} n cs =
    (cs ≡ []) ⊎ ((pre : List (DriverCommand I)) × (cs ≡ pre ++ DriverCommand.disconnected n ∷ []))

Answer-cases :
    (a : Answer) → ((r : Text) × (a ≡ refused r)) ⊎ (a ≡ panicked) ⊎ ((r : Text) × (a ≡ upgraded r))
Answer-cases (refused r) = inl (r, refl)
Answer-cases panicked = inr (inl refl)
Answer-cases (upgraded r) = inr (inr (r, refl))

Handshake-cases :
    (h : Handshake)
    → (h ≡ stopped)
      ⊎ (h ≡ timed_out)
      ⊎ (h ≡ tls_failed)
      ⊎ ((chunks : List (Option (List ℕ))) × (h ≡ received chunks))
Handshake-cases stopped = inl refl
Handshake-cases timed_out = inr (inl refl)
Handshake-cases tls_failed = inr (inr (inl refl))
Handshake-cases (received chunks) = inr (inr (inr (chunks, refl)))

module _ {I : Type 0} (accepts : List (DriverCommand I) → DriverCommand I → Bool)
    (open_driver : (cs : List (DriverCommand I)) (c : DriverCommand I) → accepts cs c ≡ true)
    (from_utf8_lossy : List ℕ → Text) (derive_accept_key : Text → Text) where
  -- What the driver has got from a connection.
  abbrev pub sent : ℕ → Connection → List (DriverCommand I)
  sent n c = unwrap_or (handle_connection accepts from_utf8_lossy derive_accept_key n c) []

  -- What it has got from all connections of a number.
  abbrev pub sent_by : ℕ → List (ℕ × Connection) → List (DriverCommand I)
  sent_by n [] = []
  sent_by n ((m, c) ∷ tasks) = ite (ℕ_discrete m n) (sent m c) [] ++ sent_by n tasks

  handle_request-IsLeaving :
      (n : ℕ) (c : Connection) (head : List ℕ)
      → closes c.inputs ≡ true
      → IsLeaving n
          (unwrap_or (handle_request accepts from_utf8_lossy derive_accept_key n c head) [])
  unfolding handle_request
  handle_request-IsLeaving n c head h =
      elim (Answer-cases (answer_request derive_accept_key (parse from_utf8_lossy head))) [
        | inl (response, e) ↦ rw (e, handle_request) (inl refl)
        | inr (inl e) ↦ rw (e, handle_request) (inl refl)
        | inr (inr (response, e)) ↦
            let (r, ran, trace) =
              commands-ws_session accepts open_driver n c.socket c.now c.inputs h in
            let texts : List (DriverCommand I) =
              DriverCommand.connected n c.socket ∷ map (DriverCommand.text n) (spoken c.inputs) in
            elim (Bool-cases c.response_written) [
              | inl b ↦
                  rw (e, handle_request)
                    (rw (b, handle_request) (rw (ran, handle_request) (inr (texts, trace))))
              | inr b ↦ rw (e, handle_request) (rw (b, handle_request) (inl refl))
            ]
      ]

  -- A connection whose session is over, if it comes to one.
  sent-IsLeaving : (n : ℕ) (c : Connection) → closes c.inputs ≡ true → IsLeaving n (sent n c)
  unfolding handle_connection
  sent-IsLeaving n c h = elim (Handshake-cases c.handshake) [
    | inl e ↦ rw (e, handle_connection) (inl refl)
    | inr (inl e) ↦ rw (e, handle_connection) (inl refl)
    | inr (inr (inl e)) ↦ rw (e, handle_connection) (inl refl)
    | inr (inr (inr (chunks, e))) ↦ elim (Option-cases (read_http_head chunks [])) [
      | inl f ↦ rw (e, handle_connection) (rw (f, handle_connection) (inl refl))
      | inr (r, f) ↦ elim (Result-cases r) [
        | inl (head, g) ↦
            rw (e, handle_connection)
              (rw (f, handle_connection)
                (rw (g, handle_connection) (handle_request-IsLeaving n c head h)))
        | inr (error, g) ↦
            rw (e, handle_connection)
              (rw (f, handle_connection) (rw (g, handle_connection) (inl refl)))
      ]
    ]
  ]

  sent_by-absent :
      (n : ℕ) (tasks : List (ℕ × Connection)) → NotIn n (numbers tasks) → sent_by n tasks ≡ []
  sent_by-absent n [] h = refl
  sent_by-absent n ((m, c) ∷ tasks) h =
      rw (if_neg (ℕ_discrete m n) (λ e. h.0 (sym e))) (sent_by-absent n tasks h.1)

  sent_by-IsLeaving :
      (n : ℕ) (tasks : List (ℕ × Connection))
      → Distinct (numbers tasks)
      → All (λ t. closes t.1.inputs ≡ true) tasks
      → IsLeaving n (sent_by n tasks)
  sent_by-IsLeaving n [] d a = inl refl
  sent_by-IsLeaving n ((m, c) ∷ tasks) d a = elim (ℕ_discrete m n) [
    | yes same ↦
        let rest = sent_by-absent m tasks d.0 in
        subst (λ i. IsLeaving i (sent_by i ((m, c) ∷ tasks))) same
          (rw (if_pos (ℕ_discrete m m) refl)
            (rw rest (rw (append-nil (sent m c)) (sent-IsLeaving m c a.0))))
    | no ne ↦ rw (if_neg (ℕ_discrete m n) ne) (sent_by-IsLeaving n tasks d.1 a.1)
  ]

  -- However the connections of an accept loop mix, once those that came to a session have ended it the
  -- driver holds no socket. The driver takes every command and gets those of each connection in the
  -- connection's own order, among any others and deadlines; the Collider never fails at a deadline, and
  -- polling takes an element off one of its queues; the accept loop has fewer than 2 ^ 64 - 1 rounds, and
  -- the driver holds no socket at the start. The event loop then gets through all of it.
  pub run_loop-run :
      {C : Type 0} (x : Collider C I) (takes : List Sent → Sent → Bool) (writes events : C → ℕ)
      (finite : IsFinite x writes events) (accepting : List Accepting) (ws : List (Wake x takes))
      (d : Driver C)
      → ((c : C) → (x.handle_timeout c).1 ≡ true)
      → length accepting + 1 < u64_mod
      → All (λ t. closes t.1.inputs ≡ true) (run 1 accepting)
      → ((n : ℕ) → about n (commands x takes ws) ≡ sent_by n (run 1 accepting))
      → ((n : ℕ) → HashMap.get ℕ_discrete d.sockets n ≡ none)
      → (fuel : ℕ) × (r : Driver C) × (run_loop x takes fuel ws d ≡ some r)
        × ((n : ℕ) → HashMap.get ℕ_discrete r.sockets n ≡ none)
  run_loop-run x takes writes events finite accepting ws d steady few over mixed clean =
      let (fuel, r, h) = run_loop_total x takes writes events finite ws d in
      (
        fuel,
        r,
        h,
        λ n. elim (sent_by-IsLeaving n (run 1 accepting) (run-Distinct accepting few) over) [
          | inl e ↦ run_loop-unknown x takes n steady fuel ws d r (mixed n ∙ e) h (clean n)
          | inr (pre, e) ↦ run_loop-gone x takes n steady fuel ws d r pre (mixed n ∙ e) h
        ],
      )

-- ===== src/Driver/Released/Traffic.antt =====
-- The sockets of signaling_server.rs over the commands of all connections, mixed in any order.
use apprtc.Prelude.{
  ℕ, ◌≡◌, ◌≢◌, sym, subst, some, List, [], ◌∷◌, ◌++◌, Bool, true, false, All, arith, eqb, inl, inr,
  Option-cases, Bool-cases, if◌then◌else◌,
}
use apprtc.Driver.{Collider, DriverCommand, Sent, Driver}
use apprtc.Driver.Loop.{Wake, command, deadline, round, run_loop, commands}
use apprtc.Driver.Released.{IsReleased, Silent}
use apprtc.Driver.Released.After.{IsReleased-run_loop, IsReleased-disconnected}

module _ {I : Type 0} (connection : ℕ) where
  -- The command is of the connection.
  abbrev pub is_about : DriverCommand I → Bool
  is_about (DriverCommand.connected m _) = eqb m connection
  is_about (DriverCommand.text m _) = eqb m connection
  is_about (DriverCommand.disconnected m) = eqb m connection
  is_about _ = false

  abbrev pub about : List (DriverCommand I) → List (DriverCommand I)
  about [] = []
  about (c ∷ cs) = let rest = about cs in if is_about c then c ∷ rest else rest

module _ {C I : Type 0} (x : Collider C I) (takes : List Sent → Sent → Bool) (connection : ℕ) where
  about-Silent :
      (cs : List (DriverCommand I)) → about connection cs ≡ [] → All (Silent x takes connection) cs
  about-Silent [] h = tt
  about-Silent (DriverCommand.connected m s ∷ cs) h =
      ((λ e. ground (arith, h)), about-Silent cs (ground (arith, h)))
  about-Silent (DriverCommand.text m s ∷ cs) h = (tt, about-Silent cs (ground (arith, h)))
  about-Silent (DriverCommand.disconnected m ∷ cs) h = (tt, about-Silent cs (ground (arith, h)))
  about-Silent (DriverCommand.authority a s ∷ cs) h = (tt, about-Silent cs h)
  about-Silent (DriverCommand.sfu_connected i s ∷ cs) h = (tt, about-Silent cs h)
  about-Silent (DriverCommand.sfu_input i ∷ cs) h = (tt, about-Silent cs h)

  -- Where the Collider never fails at a deadline, the loop goes on after every round.
  round-goes_on :
      (steady : (c : C) → (x.handle_timeout c).1 ≡ true) (fuel : ℕ) (w : Wake x takes)
      (d d' : Driver C) (more : Bool)
      → round x takes fuel w d ≡ some (d', more)
      → more ≡ true
  unfolding round
  round-goes_on steady fuel (command c) d d' more h = ground (arith, h)
  round-goes_on steady fuel deadline d d' more h = ground (arith, h, steady d.collider)

  module _ (steady : (c : C) → (x.handle_timeout c).1 ≡ true) where
    run_loop-rest :
        (fuel : ℕ) (w : Wake x takes) (ws : List (Wake x takes)) (d r : Driver C)
        → run_loop x takes fuel (w ∷ ws) d ≡ some r
        → (d' : Driver C) × (more : Bool) × (round x takes fuel w d ≡ some (d', more))
          × (run_loop x takes fuel ws d' ≡ some r)
    unfolding run_loop
    run_loop-rest fuel w ws d r h = elim (Option-cases (round x takes fuel w d)) [
      | inl e ↦ absurd (ground (arith, e, h))
      | inr ((d', more), e) ↦
          let t = round-goes_on steady fuel w d d' more e in (d', more, e, ground (arith, t, e, h))
    ]

    not_snoc : (pre : List (DriverCommand I)) (last : DriverCommand I) → pre ++ last ∷ [] ≢ []
    not_snoc [] last e = ground (arith, e)
    not_snoc (c ∷ cs) last e = ground (arith, e)

    -- Where the last command of a connection is that it is gone, and its commands come among any
    -- others, the loop holds no socket for it at its end.
    pub run_loop-gone :
        (fuel : ℕ) (ws : List (Wake x takes)) (d r : Driver C) (pre : List (DriverCommand I))
        → about connection (commands x takes ws) ≡ pre ++ DriverCommand.disconnected connection ∷ []
        → run_loop x takes fuel ws d ≡ some r
        → IsReleased connection r
    run_loop-gone fuel [] d r pre e h =
        absurd (not_snoc pre (DriverCommand.disconnected connection) (sym e))
    run_loop-gone fuel (deadline ∷ ws) d r pre e h =
        let (d', more, f, next) = run_loop-rest fuel deadline ws d r h in
        run_loop-gone fuel ws d' r pre e next
    run_loop-gone fuel (command c ∷ ws) d r [] e h =
        let (d', more, f, next) = run_loop-rest fuel (command c) ws d r h in
        elim (Bool-cases (is_about connection c)) [
          | inl b ↦
              let same : c ≡ DriverCommand.disconnected connection = ground (arith, b, e) in
              let silent : about connection (commands x takes ws) ≡ [] = ground (arith, b, e) in
              IsReleased-run_loop x takes connection fuel ws d' r
                (about-Silent (commands x takes ws) silent) next
                (IsReleased-disconnected x takes connection fuel d (d', more)
                  (subst (λ i. round x takes fuel (command i) d ≡ some (d', more)) same f))
          | inr b ↦ run_loop-gone fuel ws d' r [] (ground (arith, b, e)) next
        ]
    run_loop-gone fuel (command c ∷ ws) d r (p ∷ ps) e h =
        let (d', more, f, next) = run_loop-rest fuel (command c) ws d r h in
        elim (Bool-cases (is_about connection c)) [
          | inl b ↦ run_loop-gone fuel ws d' r ps (ground (arith, b, e)) next
          | inr b ↦ run_loop-gone fuel ws d' r (p ∷ ps) (ground (arith, b, e)) next
        ]

    -- A connection that no command is of has no socket at the end if it had none at the start.
    pub run_loop-unknown :
        (fuel : ℕ) (ws : List (Wake x takes)) (d r : Driver C)
        → about connection (commands x takes ws) ≡ []
        → run_loop x takes fuel ws d ≡ some r
        → IsReleased connection d
        → IsReleased connection r
    run_loop-unknown fuel ws d r e =
        IsReleased-run_loop x takes connection fuel ws d r (about-Silent (commands x takes ws) e)

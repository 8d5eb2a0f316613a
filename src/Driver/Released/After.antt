-- ===== src/Driver/Released/After.antt =====
-- The sockets of signaling_server.rs over the rounds that come after a Disconnected.
use apprtc.Prelude.{
  ℕ, ◌≡◌, subst, some, some_inj, none, List, [], ◌∷◌, Bool, All, arith, ℕ_discrete, inl, inr,
  Option-cases, Bool-cases,
}
use apprtc.Prelude.HashMap.{HashMap}
use apprtc.Prelude.HashMap
use apprtc.Driver.{Collider, DriverCommand, Sent, Driver, handle_command}
use apprtc.Driver.Loop.{
  Wake, command, deadline, round, run_loop, commands, All-commands_first, All-commands_rest,
}
use apprtc.Driver.Loop.Returns.{run_loop_total}
use apprtc.Driver.Loop.Kept.{round_command_kept, round_deadline_kept}
use apprtc.Driver.Loop.Drains.{IsFinite}
use apprtc.Driver.Released.{IsReleased, Silent, IsReleased-IsKept, IsReleased-handle_command}

module _ {C I : Type 0} (x : Collider C I) (takes : List Sent → Sent → Bool) where
  module _ (connection : ℕ) where
    pub IsReleased-round :
        (fuel : ℕ) (w : Wake x takes) (d : Driver C) (r : Driver C × Bool)
        → All (Silent x takes connection) (commands x takes (w ∷ []))
        → round x takes fuel w d ≡ some r
        → IsReleased connection d
        → IsReleased connection r.0
    IsReleased-round fuel (command c) d r a h v =
        round_command_kept x takes _ (IsReleased-IsKept x takes connection) fuel c d r h
          (IsReleased-handle_command x takes connection c d a.0 v)
    IsReleased-round fuel deadline d r a h v =
        round_deadline_kept x takes _ (IsReleased-IsKept x takes connection) fuel d r h v

    pub IsReleased-run_loop :
        (fuel : ℕ) (ws : List (Wake x takes)) (d r : Driver C)
        → All (Silent x takes connection) (commands x takes ws)
        → run_loop x takes fuel ws d ≡ some r
        → IsReleased connection d
        → IsReleased connection r
    unfolding run_loop
    IsReleased-run_loop fuel [] d r a h v = subst (IsReleased connection) (some_inj h) v
    IsReleased-run_loop fuel (w ∷ ws) d r a h v = elim (Option-cases (round x takes fuel w d)) [
      | inl e ↦ absurd (ground (arith, e, h))
      | inr ((d', more), e) ↦
          let v' =
            IsReleased-round fuel w d (d', more)
              (All-commands_first x takes (Silent x takes connection) w ws a) e v in
          elim (Bool-cases more) [
            | inl t ↦
                IsReleased-run_loop fuel ws d' r
                  (All-commands_rest x takes (Silent x takes connection) w ws a)
                  (ground (arith, t, e, h)) v'
            | inr f ↦
                let same : d' ≡ r = ground (arith, f, e, h) in subst (IsReleased connection) same v'
          ]
    ]

    pub IsReleased-disconnected :
        (fuel : ℕ) (d : Driver C) (r : Driver C × Bool)
        → round x takes fuel (command (DriverCommand.disconnected connection)) d ≡ some r
        → IsReleased connection r.0
    unfolding handle_command
    IsReleased-disconnected fuel d r h =
        round_command_kept x takes _ (IsReleased-IsKept x takes connection) fuel
          (DriverCommand.disconnected connection) d r h (gone d)
      where
        gone :
            (d : Driver C)
            → IsReleased connection
                (handle_command x takes (DriverCommand.disconnected connection) d)
        gone d = HashMap.get-remove_self ℕ_discrete d.sockets connection

    -- Where polling takes an element off a queue of the Collider, the event loop gets through a
    -- Disconnected of a connection and whatever comes after it that does not announce the connection
    -- anew, and it then holds no socket for the connection.
    pub run_loop-disconnected :
        (writes events : C → ℕ) (finite : IsFinite x writes events) (ws : List (Wake x takes))
        (d : Driver C)
        → All (Silent x takes connection) (commands x takes ws)
        → (fuel : ℕ) × (r : Driver C) × (run_loop x takes fuel
              (command (DriverCommand.disconnected connection) ∷ ws)
              d
            ≡ some r)
          × (HashMap.get ℕ_discrete r.sockets connection ≡ none)
    unfolding run_loop
    run_loop-disconnected writes events finite ws d a =
        let first = command (DriverCommand.disconnected connection) in
        let (fuel, r, h) = run_loop_total x takes writes events finite (first ∷ ws) d in
        elim (Option-cases (round x takes fuel first d)) [
          | inl e ↦ absurd (ground (arith, e, h))
          | inr ((d', more), e) ↦
              let v' = IsReleased-disconnected fuel d (d', more) e in
              elim (Bool-cases more) [
                | inl t ↦
                    (fuel, r, h, IsReleased-run_loop fuel ws d' r a (ground (arith, t, e, h)) v')
                | inr f ↦
                    let same : d' ≡ r = ground (arith, f, e, h) in
                    (fuel, r, h, subst (IsReleased connection) same v')
              ]
        ]

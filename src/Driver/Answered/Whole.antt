-- ===== src/Driver/Answered/Whole.antt =====
-- `run` of signaling_server.rs: the ledger of the operations over all of its rounds and its stop.
use apprtc.Prelude.{
  ℕ, ◌+◌, ◌≤◌, ◌≡◌, refl, subst, some, some_inj, List, [], ◌∷◌, Bool, All, arith, inl, inr,
  Option-cases, Bool-cases,
}
use apprtc.Driver.{Collider, DriverCommand, Sent, Driver, handle_command}
use apprtc.Driver.Loop.{
  commands, All-commands_first, All-commands_rest, Wake, command, deadline, round, run_loop, stop,
  run, handle_queued,
}
use apprtc.Driver.Loop.Drains.{IsFinite}
use apprtc.Driver.Loop.Returns.{run_returns}
use apprtc.Driver.Ledger.{answers, given, Answers}
use apprtc.Driver.Answered.{
  IsAnswered, hands, Asks, IsAnswered-Quiet, IsAnswered-more, IsAnswered-handle_command,
}
use apprtc.Driver.Answered.Drain.{IsAnswered-IsKept}
use apprtc.Driver.Loop.Kept.{drain_kept, round_command_kept, round_deadline_kept}

-- How often the commands of a run hand a channel in, and that they ask under the right ids.
abbrev pub hands_all : {I : Type 0} → ℕ → List (DriverCommand I) → ℕ
hands_all s [] = 0
hands_all s (c ∷ cs) = hands s c + hands_all s cs

module _ {C I : Type 0} (x : Collider C I) (takes : List Sent → Sent → Bool) where
  -- The driver as `run` starts it.
  abbrev pub started : C → Driver C
  started c = record {
    collider = c;
    sockets = [];
    sfu_sessions = [];
    pending_authority = [];
    sent = [];
  }

  module _ (asked : ℕ → ℕ) where
    hands_split :
        (w : Wake x takes) (ws : List (Wake x takes)) (s n : ℕ)
        → n + hands_all s (commands x takes (w ∷ [])) + hands_all s (commands x takes ws)
          ≤ n + hands_all s (commands x takes (w ∷ ws))
    hands_split (command c) ws s n = omega arith
    hands_split deadline ws s n = omega arith

    hands_first :
        (w : Wake x takes) (ws : List (Wake x takes)) (s n : ℕ)
        → n + hands_all s (commands x takes (w ∷ [])) ≤ n + hands_all s (commands x takes (w ∷ ws))
    hands_first (command c) ws s n = omega arith
    hands_first deadline ws s n = omega arith

    IsAnswered-round :
        (handed : ℕ → ℕ) (fuel : ℕ) (w : Wake x takes) (d : Driver C) (r : Driver C × Bool)
        → All (Asks asked) (commands x takes (w ∷ []))
        → round x takes fuel w d ≡ some r
        → IsAnswered asked handed d
        → IsAnswered asked (λ s. handed s + hands_all s (commands x takes (w ∷ []))) r.0
    IsAnswered-round handed fuel (command c) d r a h v =
        IsAnswered-more x takes asked (λ s. handed s + hands s c) _ r.0 (λ s. omega arith)
          (round_command_kept x takes _ (IsAnswered-IsKept x takes asked _) fuel c d r h
            (IsAnswered-handle_command x takes asked handed c d a.0 v))
    IsAnswered-round handed fuel deadline d r a h v =
        IsAnswered-more x takes asked handed _ r.0 (λ s. omega arith)
          (round_deadline_kept x takes _ (IsAnswered-IsKept x takes asked handed) fuel d r h v)

    IsAnswered-handle_queued :
        (cs : List (DriverCommand I)) (handed : ℕ → ℕ) (d : Driver C)
        → All (Asks asked) cs
        → IsAnswered asked handed d
        → IsAnswered asked (λ s. handed s + hands_all s cs) (handle_queued x takes cs d)
    unfolding handle_queued
    IsAnswered-handle_queued [] handed d a v =
        IsAnswered-more x takes asked handed _ d (λ s. omega arith) v
    IsAnswered-handle_queued (c ∷ cs) handed d a v =
        IsAnswered-more x takes asked _ _ _ (λ s. omega arith)
          (IsAnswered-handle_queued cs _ (handle_command x takes c d) a.1
            (IsAnswered-handle_command x takes asked handed c d a.0 v))

    IsAnswered-run_loop :
        (fuel : ℕ) (ws : List (Wake x takes)) (handed : ℕ → ℕ) (d r : Driver C)
        → All (Asks asked) (commands x takes ws)
        → run_loop x takes fuel ws d ≡ some r
        → IsAnswered asked handed d
        → IsAnswered asked (λ s. handed s + hands_all s (commands x takes ws)) r
    unfolding run_loop
    IsAnswered-run_loop fuel [] handed d r a h v =
        subst (IsAnswered asked (λ s. handed s + 0)) (some_inj h)
          (IsAnswered-more x takes asked handed _ d (λ s. omega arith) v)
    IsAnswered-run_loop fuel (w ∷ ws) handed d r a h v =
        elim (Option-cases (round x takes fuel w d)) [
          | inl e ↦ absurd (ground (arith, e, h))
          | inr ((d', more), e) ↦
              let v' =
                IsAnswered-round handed fuel w d (d', more)
                  (All-commands_first x takes (Asks asked) w ws a) e v in
              elim (Bool-cases more) [
                | inl t ↦
                    IsAnswered-more x takes asked _ _ r (λ s. hands_split w ws s (handed s))
                      (IsAnswered-run_loop fuel ws _ d' r
                        (All-commands_rest x takes (Asks asked) w ws a) (ground (arith, t, e, h))
                        v')
                | inr f ↦
                    let same : d' ≡ r = ground (arith, f, e, h) in
                    subst
                      (IsAnswered asked (λ s. handed s + hands_all s (commands x takes (w ∷ ws))))
                      same
                      (IsAnswered-more x takes asked _ _ d' (λ s. hands_first w ws s (handed s)) v')
              ]
        ]

    -- Where polling takes an element off a queue of the Collider, and every operation that is sent to
    -- the event loop asks through its channel under its own request id, a run from the start returns
    -- with some fuel, and in it every answer has the request id that was asked through its channel, and
    -- no channel is answered more often than it was handed in, whatever the Collider answers.
    pub answers-run :
        (writes events : C → ℕ) (finite : IsFinite x writes events) (ws : List (Wake x takes))
        (queued : List (DriverCommand I)) (c : C)
        → All (Asks asked) (commands x takes ws)
        → All (Asks asked) queued
        → (fuel : ℕ) × (r : Driver C) × (run x takes fuel ws queued (started c) ≡ some r)
          × Answers asked (answers r.sent)
          × ((s : ℕ)
              → given s (answers r.sent) ≤ hands_all s (commands x takes ws) + hands_all s queued)
    unfolding run stop
    answers-run writes events finite ws queued c a b =
        let (fuel, r, h) = run_returns x takes writes events finite ws queued (started c) in
        let v0 : IsAnswered asked (λ _. 0) (started c) = record {
          waiting = tt;
          correlated = tt;
          once = λ s. omega arith;
        } in
        elim (Option-cases (run_loop x takes fuel ws (started c))) [
          | inl e ↦ absurd (ground (arith, e, h))
          | inr (d, e) ↦
              let v1 = IsAnswered-run_loop fuel ws (λ _. 0) (started c) d a e v0 in
              let last = handle_queued x takes queued d in
              let v2 = IsAnswered-handle_queued queued _ d b v1 in
              let closed : Driver C = record last { collider = x.close last.collider } in
              let v3 = IsAnswered-Quiet asked _ last closed (refl, refl) v2 in
              let v =
                drain_kept x takes _ (IsAnswered-IsKept x takes asked _) fuel closed r
                  (ground (arith, e, h)) v3 in
              (fuel, r, h, v.correlated, λ s. omega (arith, v.once s))
        ]

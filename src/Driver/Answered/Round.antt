-- ===== src/Driver/Answered/Round.antt =====
-- Operations in signaling_server.rs over one round of the event loop.
use apprtc.Prelude.{
  ℕ, ◌≡◌, refl, sym, ◌∙◌, ap, some, List, [], ◌∷◌, ◌++◌, Bool, true, if◌then◌else◌, ℕ_discrete, inl,
  inr, Bool-cases, Option-cases, arith,
}
use mathlib.Core.List.{append_assoc, append-nil}
use apprtc.Prelude.HashMap.{HashMap}
use apprtc.Prelude.HashMap
use apprtc.Driver.{
  Collider, AuthorityCommand, AuthorityResponse, DriverCommand, Sent, answered, Driver, answer,
  refuse, handle_authority, handle_command, internal,
}
use apprtc.Driver.Loop.{command, drain, drain_outputs, drain_authority_responses, round}
use apprtc.Driver.Loop.Drains.{IsFinite}
use apprtc.Driver.Loop.Returns.{drain_total}
use apprtc.Driver.Ledger.{answers, answers-append}
use apprtc.Driver.Answered.Due.{
  IsQueue, due, left, IsStill-drain_outputs, drain_authority_responses-IsGiven,
}

module _ {C I : Type 0} (x : Collider C I) (takes : List Sent → Sent → Bool) where
  -- What an operation is answered at once, and which channels wait after it: it waits under its id where
  -- the Collider accepts it.
  abbrev pub told : AuthorityCommand → ℕ → Driver C → List (ℕ × AuthorityResponse)
  told a sender d =
      if (x.handle_write d.collider a).1 then [] else (sender, internal a.request_id) ∷ []

  abbrev pub opened : AuthorityCommand → ℕ → Driver C → HashMap ℕ ℕ
  opened a sender d =
      let asked = HashMap.insert ℕ_discrete d.pending_authority a.request_id sender in
      if (x.handle_write d.collider a).1
      then asked
      else HashMap.remove ℕ_discrete asked a.request_id

  handle_authority-opens :
      (a : AuthorityCommand) (sender : ℕ) (d : Driver C)
      → (answers (handle_authority x takes a sender d).sent ≡ answers d.sent ++ told a sender d)
        × ((handle_authority x takes a sender d).pending_authority ≡ opened a sender d)
  unfolding handle_authority refuse answer
  handle_authority-opens a sender d =
      let found = HashMap.get-insert_self ℕ_discrete d.pending_authority a.request_id sender in
      elim (Bool-cases (x.handle_write d.collider a).1) [
        | inl accepted ↦ rw (accepted, handle_authority) (sym (append-nil (answers d.sent)), refl)
        | inr refused ↦
            rw (refused, handle_authority)
              (rw (found, refuse)
                (answers-append d.sent (answered sender (internal a.request_id) ∷ []), refl))
      ]

  module _ (waiting : C → List AuthorityResponse) (queue : IsQueue x waiting) where
    -- In the round in which the event loop takes an operation, once the outputs are drained, every
    -- response that the Collider then has goes, in order, to the channel that waits under its id, and
    -- that channel waits no longer; the operation's own channel waits under its id from its acceptance
    -- on, in this round or a later one, and is answered INTERNAL at once where the Collider does not
    -- accept it. Nothing else is answered, whoever gets no response goes on waiting, the Collider has no
    -- response left, and the round ends. Polling the Collider takes an element off one of its queues
    -- and gives the responses in their order.
    pub round-answers :
        (writes events : C → ℕ) (finite : IsFinite x writes events) (a : AuthorityCommand)
        (sender : ℕ) (d : Driver C)
        → (fuel : ℕ) × (drained r : Driver C) × (drain_outputs x takes fuel
              (handle_authority x takes a sender d)
            ≡ some drained)
          × (round x takes fuel (command (DriverCommand.authority a sender)) d ≡ some (r, true))
          × (answers r.sent
              ≡ answers d.sent
                ++ (told a sender d ++ due (opened a sender d) (waiting drained.collider)))
          × (r.pending_authority ≡ left (opened a sender d) (waiting drained.collider))
          × (waiting r.collider ≡ [])
    unfolding round handle_command drain
    round-answers writes events finite a sender d =
        let taken = handle_authority x takes a sender d in
        let (fuel, r, h) = drain_total x takes writes events finite taken in
        let (said, waits_now) = handle_authority-opens a sender d in
        elim (Option-cases (drain_outputs x takes fuel taken)) [
          | inl e ↦ absurd (ground (arith, e, h))
          | inr (drained, e) ↦
              let (pending, same) = IsStill-drain_outputs x takes fuel taken drained e in
              let responses : drain_authority_responses x takes fuel drained ≡ some r =
                ground (arith, e, h) in
              let (given, kept, none_left) =
                drain_authority_responses-IsGiven x takes waiting queue fuel
                  (waiting drained.collider) drained r responses refl in
              let waits = pending ∙ waits_now in
              (
                fuel,
                drained,
                r,
                e,
                rw (h, round, handle_command) refl,
                given
                    ∙ (ap (λ p. answers drained.sent ++ due p (waiting drained.collider)) waits
                        ∙ (ap (λ s. s ++ due (opened a sender d) (waiting drained.collider))
                              (same ∙ said)
                            ∙ append_assoc (answers d.sent) (told a sender d)
                                (due (opened a sender d) (waiting drained.collider)))),
                kept ∙ ap (λ p. left p (waiting drained.collider)) waits,
                none_left,
              )
        ]

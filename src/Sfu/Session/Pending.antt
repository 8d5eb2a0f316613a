-- ===== src/Sfu/Session/Pending.antt =====
-- Events are delivered at least once: an event stays pending until it is acknowledged, and every new
-- session sends what is pending.
use apprtc.Prelude.{
  ℕ, String, ◌≡◌, ◌≢◌, refl, ap, some, List, [], ◌∷◌, ◌++◌, Result, ok, Bool, true, ℕ_discrete,
  arith, All, ◌∙◌, ◌⊎◌, inl, inr, ◌+◌, ◌<◌, ◌≤◌, Bool-cases,
}
use mathlib.Core.List.{append_assoc, append-nil}
use apprtc.Prelude.HashMap.{
  HashMap, get-insert, get-insert_self, get-remove, get-remove_ne, get-remove_self,
}
use apprtc.Prelude.HashMap
use apprtc.Proto.{EventMessage, SfuToSignaling, event, SignalingToSfu, SfuCommand, SfuCommandResult}
use apprtc.Std.Parse.{u64_mod}
use apprtc.Sfu.Metrics.{Metrics, fetch_add, next_nonzero}
use apprtc.Sfu.Session.{
  Worker, Session, Meanwhile, advance, Outcome, running, ended, Input, message, reported, send,
  resend, queue_health, open_session, decode_registration, step, run_loop, registration,
  health_event,
}

-- How many ids can be drawn over inputs: those of the shards, and one of the session for each.
abbrev pub draws : List (Input × Meanwhile) → ℕ
draws [] = 0
draws ((_, meanwhile) ∷ rest) = meanwhile.drawn + (1 + draws rest)

-- An event is pending under its id, which has been drawn, and the counter does not wrap over so many
-- draws more.
abbrev pub IsPending : ℕ → EventMessage → ℕ → Session → Type 0
IsPending id e more s =
    (HashMap.get ℕ_discrete s.pending_events id ≡ some e)
    × (id < s.next_event_id)
    × (s.next_event_id + more < u64_mod)

-- An input that neither acknowledges an id nor reports an event under it.
abbrev pub Spares : ℕ → Input → Type 0
Spares id (message (SignalingToSfu.event_ack k)) = k ≢ id
Spares id (reported e) = e.request_id ≢ id
Spares id _ = Unit

abbrev pub Unacknowledged : ℕ → List (Input × Meanwhile) → Type 0
Unacknowledged id = All (λ i. Spares id i.0)

pub Outcome-cases : (o : Outcome) → (o ≡ running) ⊎ ((r : Result Bool String) × (o ≡ ended r))
Outcome-cases running = inl refl
Outcome-cases (ended r) = inr (r, refl)

-- A draw before the counter wraps.
pub next_nonzero_draws :
    (counter : ℕ)
    → 0 < counter
    → counter + 1 < u64_mod
    → next_nonzero counter ≡ (counter, counter + 1)
unfolding next_nonzero fetch_add
next_nonzero_draws counter pos h = ground arith

module _ (id : ℕ) (e : EventMessage) where
  pub IsPending-less :
      (more less : ℕ) (s : Session) → less ≤ more → IsPending id e more s → IsPending id e less s
  IsPending-less more less s le (g, past, room) = (g, past, omega (arith, le, room))

  pub IsPending-advance :
      (drawn more : ℕ) (s : Session)
      → IsPending id e (drawn + more) s
      → IsPending id e more (advance drawn s)
  unfolding advance fetch_add
  IsPending-advance drawn more s (g, past, room) =
      (g, omega (arith, past, room), omega (arith, past, room))

  IsPending-insert :
      (more k : ℕ) (f : EventMessage) (s : Session)
      → k ≢ id
      → IsPending id e more s
      → IsPending id e more
          (record s { pending_events = HashMap.insert ℕ_discrete s.pending_events k f })
  IsPending-insert more k f s ne (g, past, room) =
      (ground (arith, get-insert ℕ_discrete s.pending_events k id f, ne, g), past, room)

  module _ (w : Worker) (takes : SfuToSignaling → Bool) where
    pub IsPending-send :
        (more : ℕ) (m : SfuToSignaling) (s : Session)
        → IsPending id e more s
        → IsPending id e more (send w takes m s).0
    unfolding send
    IsPending-send more m s h = elim (Bool-cases (takes m)) [ inl t ↦ rw t h | inr f ↦ rw f h ]

    pub IsPending-queue_health :
        (more : ℕ) (metrics : Metrics) (s : Session)
        → IsPending id e (1 + more) s
        → IsPending id e more (queue_health w takes metrics s).0
    unfolding queue_health
    IsPending-queue_health more metrics s (g, past, room) =
        let drawn : next_nonzero s.next_event_id ≡ (s.next_event_id, s.next_event_id + 1) =
          next_nonzero_draws s.next_event_id (omega (arith, past)) (omega (arith, room)) in
        rw drawn (
          IsPending-send more _ _ (
            IsPending-insert more s.next_event_id _
              (record s { next_event_id = s.next_event_id + 1 }) (omega (arith, past))
              (g, omega (arith, past), omega (arith, room))))

    module _ (dispatch : SfuCommand → SfuCommandResult) where
      -- A round of the loop drops or replaces no pending event but the one that it sees acknowledged.
      IsPending-step :
          (more : ℕ) (metrics : Metrics) (input : Input) (s : Session)
          → Spares id input
          → IsPending id e (1 + more) s
          → IsPending id e more (step w takes dispatch metrics input s).0
      unfolding step
      IsPending-step more metrics (message (SignalingToSfu.event_ack k)) s n h =
          let (g, past, room) = IsPending-less (1 + more) more s (omega arith) h in
          (ground (arith, get-remove ℕ_discrete s.pending_events k id, n, g), past, room)
      IsPending-step more metrics Input.health_tick s n h = IsPending-queue_health more metrics s h
      IsPending-step more metrics (reported f) s n h =
          IsPending-send more _ _
            (IsPending-insert more _ _ s n (IsPending-less (1 + more) more s (omega arith) h))
      IsPending-step more metrics (message (SignalingToSfu.command c)) s n h =
          IsPending-send more _ s (IsPending-less (1 + more) more s (omega arith) h)
      IsPending-step more metrics _ s n h = IsPending-less (1 + more) more s (omega arith) h

      -- Over any sequence of inputs, however the session ends, an event that is pending stays pending
      -- as it is, unless one of the inputs acknowledges or replaces it.
      pub run_loop-IsPending :
          (inputs : List (Input × Meanwhile)) (more : ℕ) (s : Session)
          → Unacknowledged id inputs
          → IsPending id e (draws inputs + more) s
          → IsPending id e more (run_loop w takes dispatch inputs s).0
      unfolding run_loop
      run_loop-IsPending [] more s n h = IsPending-less (0 + more) more s (omega arith) h
      run_loop-IsPending ((input, meanwhile) ∷ rest) more s n h =
          let s' = advance meanwhile.drawn s in
          let kept = IsPending-step (draws rest + more) meanwhile.metrics input s' n.0 (
            IsPending-advance meanwhile.drawn (1 + (draws rest + more)) s
              (h.0, h.1, omega (arith, h.2))) in
          elim (Outcome-cases (step w takes dispatch meanwhile.metrics input s').1) [
            | inl o ↦
                rw (o, run_loop)
                  (run_loop-IsPending rest more (step w takes dispatch meanwhile.metrics input s').0
                    n.1 kept)
            | inr (r, o) ↦
                rw (o, run_loop)
                  (IsPending-less (draws rest + more) more
                    (step w takes dispatch meanwhile.metrics input s').0 (omega arith) kept)
          ]

module _ (w : Worker) (takes : SfuToSignaling → Bool) where
  -- A health report is pending under the id that it draws.
  pub queue_health-IsPending :
      (more : ℕ) (metrics : Metrics) (s : Session)
      → 0 < s.next_event_id
      → s.next_event_id + (1 + more) < u64_mod
      → let id = (next_nonzero s.next_event_id).0 in
        IsPending id (health_event w metrics id) more (queue_health w takes metrics s).0
  unfolding queue_health
  queue_health-IsPending more metrics s pos room =
      let id = s.next_event_id in
      let report = health_event w metrics id in
      let drawn : next_nonzero id ≡ (id, id + 1) =
        next_nonzero_draws id pos (omega (arith, room)) in
      rw drawn (
        IsPending-send id report w takes more (event report)
          (record s {
            pending_events = HashMap.insert ℕ_discrete s.pending_events id report;
            next_event_id = id + 1;
          })
          (get-insert_self ℕ_discrete s.pending_events id report, omega arith, omega (arith, room)))

  -- An event that a shard reports is pending from then on, also when it could not be sent.
  pub step-reported :
      (dispatch : SfuCommand → SfuCommandResult) (metrics : Metrics) (e : EventMessage)
      (s : Session)
      → HashMap.get ℕ_discrete
          (step w takes dispatch metrics (reported e) s).0.pending_events
          e.request_id
        ≡ some e
  unfolding step send
  step-reported dispatch metrics e s =
      ground (arith, get-insert ℕ_discrete s.pending_events e.request_id e.request_id e)

  abbrev pub values : HashMap ℕ EventMessage → List SfuToSignaling
  values [] = []
  values ((_, e) ∷ rest) = event e ∷ values rest

  resend-values :
      (p : HashMap ℕ EventMessage) (s : Session)
      → ((m : SfuToSignaling) → takes m ≡ true)
      → resend w takes p s ≡ (record s { sent = s.sent ++ values p }, running)
  unfolding resend
  resend-values [] s h = ground (arith, append-nil s.sent)
  resend-values ((k, e) ∷ rest) s h = ground (
    arith,
    h (event e),
    resend-values rest (record s { sent = s.sent ++ event e ∷ [] }) h,
    append_assoc s.sent (event e ∷ []) (values rest),
  )

  queue_health_taken :
      (metrics : Metrics) (s : Session)
      → ((m : SfuToSignaling) → takes m ≡ true)
      → queue_health w takes metrics s ≡ (
        record {
          pending_events =
              HashMap.insert ℕ_discrete s.pending_events
                (next_nonzero s.next_event_id).0
                (health_event w metrics (next_nonzero s.next_event_id).0);
          next_event_id = (next_nonzero s.next_event_id).1;
          sent = s.sent ++ event (health_event w metrics (next_nonzero s.next_event_id).0) ∷ [];
        },
        running,
      )
  unfolding queue_health
  queue_health_taken metrics s h =
      rw (h (event (health_event w metrics (next_nonzero s.next_event_id).0)))

  -- On a stream that takes every message, a session whose registration is accepted sends, after the
  -- registration, every pending event and then one health report, and adds this report to what is
  -- pending. Shards may draw ids before the registration and before the report.
  pub open_session-resends :
      (drawn : ℕ) (response : SignalingToSfu) (meanwhile : Meanwhile) (s : Session)
      (accepted : ℕ × Bool)
      → ((m : SfuToSignaling) → takes m ≡ true)
      → decode_registration response (next_nonzero (fetch_add s.next_event_id drawn)).0
        ≡ ok accepted
      → let (request_id, counter) = next_nonzero (fetch_add s.next_event_id drawn) in
        let (health_id, counter') = next_nonzero (fetch_add counter meanwhile.drawn) in
        let report = health_event w meanwhile.metrics health_id in
        open_session w takes drawn (some response) meanwhile s ≡ (
          record {
            pending_events = HashMap.insert ℕ_discrete s.pending_events health_id report;
            next_event_id = counter';
            sent = registration w request_id ∷ (values s.pending_events ++ event report ∷ []);
          },
          running,
        )
  unfolding open_session advance
  open_session-resends drawn response meanwhile s accepted h e =
      let (request_id, counter) = next_nonzero (fetch_add s.next_event_id drawn) in
      let fresh : Session = record s {
        next_event_id = counter;
        sent = registration w request_id ∷ [];
      } in
      let resent : Session = record fresh { sent = fresh.sent ++ values s.pending_events } in
      let again : resend w takes s.pending_events fresh ≡ (resent, running) =
        resend-values s.pending_events fresh h in
      rw (e, open_session)
        (rw again (
          ap (λ r. queue_health w takes meanwhile.metrics (advance meanwhile.drawn r.0)) again
          ∙ queue_health_taken meanwhile.metrics (advance meanwhile.drawn resent) h))

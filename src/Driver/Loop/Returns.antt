-- ===== src/Driver/Loop/Returns.antt =====
-- The fuel of the rounds of signaling_server.rs and of its stop.
use apprtc.Prelude.{
  ℕ, zero, suc, ◌+◌, ◌<◌, ◌≡◌, refl, sym, subst, some, List, [], ◌∷◌, Bool, true, false, arith, inl,
  inr, Option-cases, Bool-cases, ◌∙◌,
}
use apprtc.Driver.{Collider, DriverCommand, Sent, Driver, handle_command}
use apprtc.Driver.Loop.{
  Wake, command, deadline, route, drain_writes, drain_outputs, drain_authority_responses, drain,
  drop_gone, sort, dedup, round, run_loop, stop, run, handle_queued,
}
use apprtc.Driver.Loop.Drains.{
  IsFinite, collider-route, collider-deliver_response, drain_writes_done, drain_writes_next,
  drain_events_done, drain_events_next, delivered, drain_writes_more, drain_events_more,
}

module _ {C I : Type 0} (x : Collider C I) (takes : List Sent → Sent → Bool) where
  drain_outputs_more :
      (fuel more : ℕ) (d r : Driver C)
      → drain_outputs x takes fuel d ≡ some r
      → drain_outputs x takes (fuel + more) d ≡ some r
  unfolding drain_outputs
  drain_outputs_more fuel more d r h = elim (Option-cases (drain_writes x takes fuel d [])) [
    | inl e ↦ absurd (ground (arith, e, h))
    | inr (p, e) ↦ ground (arith, e, h, drain_writes_more x takes fuel more d [] p e)
  ]

  drain_more :
      (fuel more : ℕ) (d r : Driver C)
      → drain x takes fuel d ≡ some r
      → drain x takes (fuel + more) d ≡ some r
  unfolding drain
  drain_more fuel more d r h = elim (Option-cases (drain_outputs x takes fuel d)) [
    | inl e ↦ absurd (ground (arith, e, h))
    | inr (p, e) ↦
        ground
          (arith, e, h, drain_outputs_more fuel more d p e, drain_events_more x takes fuel more p r)
  ]

  round_more :
      (fuel more : ℕ) (w : Wake x takes) (d : Driver C) (r : Driver C × Bool)
      → round x takes fuel w d ≡ some r
      → round x takes (fuel + more) w d ≡ some r
  unfolding round
  round_more fuel more (command c) d r h =
      elim (Option-cases (drain x takes fuel (handle_command x takes c d))) [
        | inl e ↦ absurd (ground (arith, e, h))
        | inr (p, e) ↦ ground (arith, e, h, drain_more fuel more (handle_command x takes c d) p e)
      ]
  round_more fuel more deadline d r h =
      elim (Option-cases
        (drain x takes fuel (record d { collider = (x.handle_timeout d.collider).0 }))) [
          | inl e ↦ ground (arith, e, h)
          | inr (p, e) ↦ ground (
            arith,
            e,
            h,
            drain_more fuel more (record d { collider = (x.handle_timeout d.collider).0 }) p e,
          )
        ]

  run_loop_more :
      (fuel more : ℕ) (ws : List (Wake x takes)) (d r : Driver C)
      → run_loop x takes fuel ws d ≡ some r
      → run_loop x takes (fuel + more) ws d ≡ some r
  unfolding run_loop
  run_loop_more fuel more [] d r h = h
  run_loop_more fuel more (w ∷ ws) d r h = elim (Option-cases (round x takes fuel w d)) [
    | inl e ↦ absurd (ground (arith, e, h))
    | inr ((p, go), e) ↦
        ground (arith, e, h, round_more fuel more w d (p, go) e, run_loop_more fuel more ws p r)
  ]

  module _ (writes events : C → ℕ) (finite : IsFinite x writes events) where
    drain_writes_total :
        (fuel : ℕ) (d : Driver C) (gone : List ℕ)
        → writes d.collider < fuel
        → (r : Driver C × List ℕ) × (drain_writes x takes fuel d gone ≡ some r)
    drain_writes_total zero d gone h = absurd (omega arith)
    drain_writes_total (suc fuel) d gone h = elim (Option-cases (x.poll_write d.collider)) [
      | inl e ↦ ((d, gone), drain_writes_done x takes fuel d gone e)
      | inr ((o, c), e) ↦
          let d' : Driver C = record d { collider = c } in
          let fewer = finite.write_taken d.collider c o e in
          let (r, f) =
            drain_writes_total fuel (route x takes o d' gone).0 (route x takes o d' gone).1 (
              subst (λ i. writes i < fuel) (sym (collider-route x takes o d' gone))
                (omega arith)) in
          (r, drain_writes_next x takes fuel d gone o c e ∙ f)
    ]

    drain_events_total :
        (fuel : ℕ) (d : Driver C)
        → events d.collider < fuel
        → (r : Driver C) × (drain_authority_responses x takes fuel d ≡ some r)
    drain_events_total zero d h = absurd (omega arith)
    drain_events_total (suc fuel) d h = elim (Option-cases (x.poll_event d.collider)) [
      | inl e ↦ (d, drain_events_done x takes fuel d e)
      | inr ((o, c), e) ↦
          let fewer = finite.event_taken d.collider c o e in
          let (r, f) = drain_events_total fuel (delivered x takes o c d) (
            subst (λ i. events i < fuel)
              (sym (collider-deliver_response x takes o _ (record d { collider = c })))
              (omega arith)) in
          (r, drain_events_next x takes fuel d o c e ∙ f)
    ]

    pub drain_total : (d : Driver C) → (fuel : ℕ) × (r : Driver C) × (drain x takes fuel d ≡ some r)
    unfolding drain drain_outputs
    drain_total d =
        let ((d', gone), e) = drain_writes_total (suc (writes d.collider)) d [] (omega arith) in
        let after = drop_gone x takes (dedup (sort gone)) d' in
        let n = suc (writes d.collider) in
        let m = suc (events after.collider) in
        let swap : suc (events after.collider) + suc (writes d.collider)
            ≡ suc (writes d.collider) + suc (events after.collider) =
          omega arith in
        let (r, f) = drain_events_total m after (omega arith) in
        (
          n + m,
          r,
          ground (
            arith,
            drain_writes_more x takes n m d [] (d', gone) e,
            subst (λ k. drain_authority_responses x takes k after ≡ some r) swap
                (drain_events_more x takes m n after r f),
          ),
        )

    round_total :
        (w : Wake x takes) (d : Driver C)
        → (fuel : ℕ) × (r : Driver C × Bool) × (round x takes fuel w d ≡ some r)
    unfolding round
    round_total (command c) d =
        let (fuel, r, e) = drain_total (handle_command x takes c d) in
        (fuel, (r, true), rw (e, round))
    round_total deadline d =
        let (c, accepted) = x.handle_timeout d.collider in
        elim (Bool-cases accepted) [
          | inl a ↦
              let (fuel, r, e) = drain_total (record d { collider = c }) in
              (fuel, (r, true), ground (arith, a, e))
          | inr a ↦ (0, (record d { collider = c }, false), ground (arith, a))
        ]

    pub run_loop_total :
        (ws : List (Wake x takes)) (d : Driver C)
        → (fuel : ℕ) × (r : Driver C) × (run_loop x takes fuel ws d ≡ some r)
    unfolding run_loop
    run_loop_total [] d = (0, d, refl)
    run_loop_total (w ∷ ws) d =
        let (n, (d', go), e) = round_total w d in
        let (m, r, f) = run_loop_total ws d' in
        let swap : m + n ≡ n + m = omega arith in
        elim (Bool-cases go) [
          | inl a ↦ (
            n + m,
            r,
            ground (
              arith,
              a,
              e,
              f,
              round_more n m w d (d', go) e,
              subst (λ k. run_loop x takes k ws d' ≡ some r) swap (run_loop_more m n ws d' r f),
            ),
          )
          | inr a ↦ (n, d', ground (arith, a, e))
        ]

    -- Where polling takes an element off a queue of the Collider, the event loop returns: over any
    -- commands and deadlines, and any commands still queued at the stop, there is fuel with which `run`
    -- comes to its end.
    pub run_returns :
        (ws : List (Wake x takes)) (queued : List (DriverCommand I)) (d : Driver C)
        → (fuel : ℕ) × (r : Driver C) × (run x takes fuel ws queued d ≡ some r)
    unfolding run stop
    run_returns ws queued d =
        let (n, d', e) = run_loop_total ws d in
        let last = handle_queued x takes queued d' in
        let (m, r, f) = drain_total (record last { collider = x.close last.collider }) in
        let swap : m + n ≡ n + m = omega arith in
        (
          n + m,
          r,
          ground (
            arith,
            run_loop_more n m ws d d' e,
            subst (λ k. drain x takes k (record last { collider = x.close last.collider }) ≡ some r)
                swap (drain_more m n (record last { collider = x.close last.collider }) r f),
          ),
        )

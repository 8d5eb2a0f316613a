-- ===== src/Driver/Loop/Kept.antt =====
-- What a round of the event loop keeps, from what its parts keep.
use apprtc.Prelude.{
  ℕ, zero, suc, ◌≡◌, sym, ◌∙◌, subst, some, some_inj, List, [], ◌∷◌, Bool, arith, ℕ_discrete, inl,
  inr, Option-cases, Bool-cases,
}
use apprtc.Prelude.HashMap
use apprtc.Driver.{
  Collider, AuthorityResponse, BrowserOutput, DriverCommand, Sent, Driver, handle_command,
}
use apprtc.Driver.Loop.{
  command, deadline, route, drain_writes, drain_outputs, drain_authority_responses, drain,
  drop_gone, sort, dedup, round,
}
use apprtc.Driver.Loop.Drains.{
  drain_writes_done, drain_writes_next, drain_events_done, drain_events_next, delivered, empty_fuel,
  empty_events,
}

-- What the drains do to a driver keeps `P`.
pub record IsKept {C I : Type 0} (x : Collider C I) (takes : List Sent → Sent → Bool)
    (P : Driver C → Type 0) : Type 0 where
  pub moved : (c : C) (d : Driver C) → P d → P (record d { collider = c })
  pub routed :
      (o : BrowserOutput) (d : Driver C) (gone : List ℕ) → P d → P (route x takes o d gone).0
  pub dropped :
      (connection : ℕ) (d : Driver C)
      → P d
      → P (record d { sockets = HashMap.remove ℕ_discrete d.sockets connection })
  pub responded : (r : AuthorityResponse) (c : C) (d : Driver C) → P d → P (delivered x takes r c d)

module _ {C I : Type 0} (x : Collider C I) (takes : List Sent → Sent → Bool) (P : Driver C → Type 0)
    (kept : IsKept x takes P) where
  drain_writes_kept :
      (fuel : ℕ) (d : Driver C) (gone : List ℕ) (r : Driver C × List ℕ)
      → drain_writes x takes fuel d gone ≡ some r
      → P d
      → P r.0
  drain_writes_kept zero d gone r h v = absurd (empty_fuel x takes d gone r h)
  drain_writes_kept (suc fuel) d gone r h v = elim (Option-cases (x.poll_write d.collider)) [
    | inl e ↦
        let same = some_inj (sym (drain_writes_done x takes fuel d gone e) ∙ h) in
        subst (λ q. P q.0) same v
    | inr ((o, c), e) ↦
        drain_writes_kept fuel _ _ r (sym (drain_writes_next x takes fuel d gone o c e) ∙ h)
          (kept.routed o (record d { collider = c }) gone (kept.moved c d v))
  ]

  drop_gone_kept : (gone : List ℕ) (d : Driver C) → P d → P (drop_gone x takes gone d)
  unfolding drop_gone
  drop_gone_kept [] d v = v
  drop_gone_kept (n ∷ rest) d v = drop_gone_kept rest _ (kept.dropped n _ (kept.moved _ d v))

  drain_authority_responses_kept :
      (fuel : ℕ) (d r : Driver C) → drain_authority_responses x takes fuel d ≡ some r → P d → P r
  drain_authority_responses_kept zero d r h v = absurd (empty_events x takes d r h)
  drain_authority_responses_kept (suc fuel) d r h v =
      elim (Option-cases (x.poll_event d.collider)) [
        | inl e ↦
            let same = some_inj (sym (drain_events_done x takes fuel d e) ∙ h) in subst P same v
        | inr ((o, c), e) ↦
            drain_authority_responses_kept fuel _ r
              (sym (drain_events_next x takes fuel d o c e) ∙ h) (kept.responded o c d v)
      ]

  pub drain_kept : (fuel : ℕ) (d r : Driver C) → drain x takes fuel d ≡ some r → P d → P r
  unfolding drain drain_outputs
  drain_kept fuel d r h v = elim (Option-cases (drain_writes x takes fuel d [])) [
    | inl e ↦ absurd (ground (arith, e, h))
    | inr ((d', gone), e) ↦
        drain_authority_responses_kept fuel (drop_gone x takes (dedup (sort gone)) d') r
          (ground (arith, e, h))
          (drop_gone_kept (dedup (sort gone)) d' (drain_writes_kept fuel d [] (d', gone) e v))
  ]

  pub round_command_kept :
      (fuel : ℕ) (c : DriverCommand I) (d : Driver C) (r : Driver C × Bool)
      → round x takes fuel (command c) d ≡ some r
      → P (handle_command x takes c d)
      → P r.0
  unfolding round
  round_command_kept fuel c d r h v =
      elim (Option-cases (drain x takes fuel (handle_command x takes c d))) [
        | inl e ↦ absurd (ground (arith, e, h))
        | inr (d', e) ↦
            let same : d' ≡ r.0 = ground (arith, e, h) in
            subst P same (drain_kept fuel (handle_command x takes c d) d' e v)
      ]

  pub round_deadline_kept :
      (fuel : ℕ) (d : Driver C) (r : Driver C × Bool)
      → round x takes fuel deadline d ≡ some r
      → P d
      → P r.0
  unfolding round
  round_deadline_kept fuel d r h v =
      let d1 : Driver C = record d { collider = (x.handle_timeout d.collider).0 } in
      let v1 = kept.moved (x.handle_timeout d.collider).0 d v in
      elim (Bool-cases (x.handle_timeout d.collider).1) [
        | inl t ↦ elim (Option-cases (drain x takes fuel d1)) [
          | inl e ↦ absurd (ground (arith, t, e, h))
          | inr (d', e) ↦
              let same : d' ≡ r.0 = ground (arith, t, e, h) in
              subst P same (drain_kept fuel d1 d' e v1)
        ]
        | inr f ↦ let same : d1 ≡ r.0 = ground (arith, f, h) in subst P same v1
      ]

-- ===== src/Driver/Loop/Drains.antt =====
-- The fuel of the loops of signaling_server.rs that poll the Collider.
use apprtc.Prelude.{
  ℕ, zero, suc, ◌+◌, ◌<◌, ◌≡◌, refl, sym, subst, Option, some, none, List, Bool, arith, inl, inr,
  Option-cases, ◌∙◌, ℕ_discrete,
}
use apprtc.Prelude.HashMap
use apprtc.Driver.{Collider, BrowserOutput, AuthorityResponse, Sent, Driver}
use apprtc.Driver.Loop.{route, drain_writes, deliver_response, drain_authority_responses}

-- What the Collider promises of its queues, by their lengths: a poll takes one element off.
pub record IsFinite {C I : Type 0} (x : Collider C I) (writes events : C → ℕ) : Type 0 where
  pub write_taken :
      (c c' : C) (o : BrowserOutput) → x.poll_write c ≡ some (o, c') → writes c' < writes c
  pub event_taken :
      (c c' : C) (r : AuthorityResponse) → x.poll_event c ≡ some (r, c') → events c' < events c

module _ {C I : Type 0} (x : Collider C I) (takes : List Sent → Sent → Bool) where
  pub collider-route :
      (o : BrowserOutput) (d : Driver C) (gone : List ℕ)
      → (route x takes o d gone).0.collider ≡ d.collider
  unfolding route
  collider-route (BrowserOutput.text connection message) d gone = ground arith
  collider-route (BrowserOutput.close connection) d gone = ground arith
  collider-route (BrowserOutput.sfu connection output) d gone = ground arith

  pub collider-deliver_response :
      (r : AuthorityResponse) (sender : Option ℕ) (d : Driver C)
      → (deliver_response x takes r sender d).collider ≡ d.collider
  unfolding deliver_response
  collider-deliver_response r none d = refl
  collider-deliver_response r (some s) d = refl

  pub empty_fuel :
      (d : Driver C) (gone : List ℕ) (r : Driver C × List ℕ)
      → drain_writes x takes 0 d gone ≡ some r
      → ⊥
  unfolding drain_writes
  empty_fuel d gone r h = ground (arith, h)

  pub empty_events : (d r : Driver C) → drain_authority_responses x takes 0 d ≡ some r → ⊥
  unfolding drain_authority_responses
  empty_events d r h = ground (arith, h)

  pub drain_writes_done :
      (fuel : ℕ) (d : Driver C) (gone : List ℕ)
      → x.poll_write d.collider ≡ none
      → drain_writes x takes (suc fuel) d gone ≡ some (d, gone)
  unfolding drain_writes
  drain_writes_done fuel d gone e = rw (e, drain_writes)

  pub drain_writes_next :
      (fuel : ℕ) (d : Driver C) (gone : List ℕ) (o : BrowserOutput) (c : C)
      → x.poll_write d.collider ≡ some (o, c)
      → drain_writes x takes (suc fuel) d gone
        ≡ drain_writes x takes fuel
            (route x takes o (record d { collider = c }) gone).0
            (route x takes o (record d { collider = c }) gone).1
  unfolding drain_writes
  drain_writes_next fuel d gone o c e = rw (e, drain_writes)

  pub drain_events_done :
      (fuel : ℕ) (d : Driver C)
      → x.poll_event d.collider ≡ none
      → drain_authority_responses x takes (suc fuel) d ≡ some d
  unfolding drain_authority_responses
  drain_events_done fuel d e = rw (e, drain_authority_responses)

  -- The driver after a response is delivered.
  abbrev pub delivered : AuthorityResponse → C → Driver C → Driver C
  delivered r c d =
      deliver_response x takes r (HashMap.get ℕ_discrete d.pending_authority r.request_id)
        (record d { collider = c })

  pub drain_events_next :
      (fuel : ℕ) (d : Driver C) (r : AuthorityResponse) (c : C)
      → x.poll_event d.collider ≡ some (r, c)
      → drain_authority_responses x takes (suc fuel) d
        ≡ drain_authority_responses x takes fuel (delivered r c d)
  unfolding drain_authority_responses
  drain_events_next fuel d r c e = rw (e, drain_authority_responses)

  -- More fuel gives the same.
  pub drain_writes_more :
      (fuel more : ℕ) (d : Driver C) (gone : List ℕ) (r : Driver C × List ℕ)
      → drain_writes x takes fuel d gone ≡ some r
      → drain_writes x takes (fuel + more) d gone ≡ some r
  drain_writes_more zero more d gone r h = absurd (empty_fuel d gone r h)
  drain_writes_more (suc fuel) more d gone r h =
      subst (λ n. drain_writes x takes n d gone ≡ some r) (omega arith)
        (elim (Option-cases (x.poll_write d.collider)) [
          | inl e ↦
              drain_writes_done (fuel + more) d gone e ∙ (sym (drain_writes_done fuel d gone e) ∙ h)
          | inr ((o, c), e) ↦
              drain_writes_next (fuel + more) d gone o c e
              ∙ drain_writes_more fuel more _ _ r (sym (drain_writes_next fuel d gone o c e) ∙ h)
        ])

  pub drain_events_more :
      (fuel more : ℕ) (d r : Driver C)
      → drain_authority_responses x takes fuel d ≡ some r
      → drain_authority_responses x takes (fuel + more) d ≡ some r
  drain_events_more zero more d r h = absurd (empty_events d r h)
  drain_events_more (suc fuel) more d r h =
      subst (λ n. drain_authority_responses x takes n d ≡ some r) (omega arith)
        (elim (Option-cases (x.poll_event d.collider)) [
          | inl e ↦ drain_events_done (fuel + more) d e ∙ (sym (drain_events_done fuel d e) ∙ h)
          | inr ((o, c), e) ↦
              drain_events_next (fuel + more) d o c e
              ∙ drain_events_more fuel more _ r (sym (drain_events_next fuel d o c e) ∙ h)
        ])

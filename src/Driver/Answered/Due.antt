-- ===== src/Driver/Answered/Due.antt =====
-- Operations in signaling_server.rs from the responses of the Collider to their channels: what a drain
-- answers.
use apprtc.Prelude.{
  ℕ, zero, suc, ◌≡◌, refl, sym, ◌∙◌, ap, subst, some, some_inj, none, List, [], ◌∷◌, ◌++◌, Bool,
  arith, ℕ_discrete, inl, inr, Option-cases, All, ◌≢◌,
}
use mathlib.Core.List.{append_assoc, append-nil}
use apprtc.Prelude.HashMap.{HashMap, get-remove_ne}
use apprtc.Prelude.HashMap
use apprtc.Driver.{Collider, AuthorityResponse, BrowserInput, Sent, answered, Driver, answer}
use apprtc.Driver.Loop.{
  route, drain_writes, drain_outputs, drain_authority_responses, drop_gone, sort, dedup,
  deliver_response,
}
use apprtc.Driver.Loop.Drains.{
  drain_writes_done, drain_writes_next, drain_events_done, drain_events_next, delivered, empty_fuel,
  empty_events,
}
use apprtc.Driver.Ledger.{answers, answers-append}
use apprtc.Driver.Answered.Drain.{Quiet-route}

-- What the Collider is relied on for: `waiting` are the responses that polling gives, in their order.
-- When an operation comes to have a response is left open.
pub record IsQueue {C I : Type 0} (x : Collider C I) (waiting : C → List AuthorityResponse)
    : Type 0 where
  pub polled_none : (c : C) → waiting c ≡ [] → x.poll_event c ≡ none
  pub polled_some :
      (c : C) (r : AuthorityResponse) (rest : List AuthorityResponse)
      → waiting c ≡ r ∷ rest
      → (c' : C) × (x.poll_event c ≡ some (r, c')) × (waiting c' ≡ rest)

-- The answers that are due for responses, by the channels that wait for operations: the first response
-- under an id goes to the channel that waits under it, which waits no longer.
abbrev pub due : HashMap ℕ ℕ → List AuthorityResponse → List (ℕ × AuthorityResponse)
due p [] = []
due p (q ∷ qs) = elim (HashMap.get ℕ_discrete p q.request_id) [
  | none ↦ due p qs
  | some sender ↦ (sender, q) ∷ due (HashMap.remove ℕ_discrete p q.request_id) qs
]

-- Which channels wait after that: those under whose id there is no response.
abbrev pub left : HashMap ℕ ℕ → List AuthorityResponse → HashMap ℕ ℕ
left p [] = p
left p (q ∷ qs) = elim (HashMap.get ℕ_discrete p q.request_id) [
  | none ↦ left p qs
  | some sender ↦ left (HashMap.remove ℕ_discrete p q.request_id) qs
]

-- An operation whose response is not among these still waits.
pub get-left :
    (p : HashMap ℕ ℕ) (k : ℕ) (qs : List AuthorityResponse)
    → All (λ q. q.request_id ≢ k) qs
    → HashMap.get ℕ_discrete (left p qs) k ≡ HashMap.get ℕ_discrete p k
get-left p k [] h = refl
get-left p k (q ∷ qs) h = elim (Option-cases (HashMap.get ℕ_discrete p q.request_id)) [
  | inl n ↦ rw (n, left) (get-left p k qs h.1)
  | inr (sender, f) ↦
      rw (f, left)
        (get-left (HashMap.remove ℕ_discrete p q.request_id) k qs h.1
          ∙ get-remove_ne ℕ_discrete p q.request_id (λ e. h.0 (sym e)))
]

module _ {C I : Type 0} (x : Collider C I) (takes : List Sent → Sent → Bool) where
  -- Nothing changes for the operations.
  abbrev pub IsStill : Driver C → Driver C → Type 0
  IsStill d d' = (d'.pending_authority ≡ d.pending_authority) × (answers d'.sent ≡ answers d.sent)

  IsStill-then : (d d' d'' : Driver C) → IsStill d d' → IsStill d' d'' → IsStill d d''
  IsStill-then d d' d'' s t = (t.0 ∙ s.0, t.1 ∙ s.1)

  IsStill-drain_writes :
      (fuel : ℕ) (d : Driver C) (gone : List ℕ) (r : Driver C × List ℕ)
      → drain_writes x takes fuel d gone ≡ some r
      → IsStill d r.0
  IsStill-drain_writes zero d gone r h = absurd (empty_fuel x takes d gone r h)
  IsStill-drain_writes (suc fuel) d gone r h = elim (Option-cases (x.poll_write d.collider)) [
    | inl e ↦
        let same = some_inj (sym (drain_writes_done x takes fuel d gone e) ∙ h) in
        subst (λ q. IsStill d q.0) same (refl, refl)
    | inr ((o, c), e) ↦
        let d' : Driver C = record d { collider = c } in
        let (pending, told) = Quiet-route x takes o d' gone in
        let next = route x takes o d' gone in
        IsStill-then d next.0 r.0 (pending, told)
          (IsStill-drain_writes fuel next.0 next.1 r
            (sym (drain_writes_next x takes fuel d gone o c e) ∙ h))
  ]

  IsStill-drop_gone : (gone : List ℕ) (d : Driver C) → IsStill d (drop_gone x takes gone d)
  unfolding drop_gone
  IsStill-drop_gone [] d = (refl, refl)
  IsStill-drop_gone (n ∷ rest) d =
      let d' : Driver C = record d {
        collider = (x.handle_read d.collider (BrowserInput.disconnected n)).0;
        sockets = HashMap.remove ℕ_discrete d.sockets n;
      } in
      IsStill-then d d' (drop_gone x takes rest d') (refl, refl) (IsStill-drop_gone rest d')

  pub IsStill-drain_outputs :
      (fuel : ℕ) (d r : Driver C) → drain_outputs x takes fuel d ≡ some r → IsStill d r
  unfolding drain_outputs
  IsStill-drain_outputs fuel d r h = elim (Option-cases (drain_writes x takes fuel d [])) [
    | inl e ↦ absurd (ground (arith, e, h))
    | inr ((d', gone), e) ↦
        subst (IsStill d) {x = drop_gone x takes (dedup (sort gone)) d'} {y = r}
          (ground (arith, e, h))
          (IsStill-then d d' (drop_gone x takes (dedup (sort gone)) d')
            (IsStill-drain_writes fuel d [] (d', gone) e)
            (IsStill-drop_gone (dedup (sort gone)) d'))
  ]

  module _ (waiting : C → List AuthorityResponse) (queue : IsQueue x waiting) where
    -- What comes of polling all responses.
    abbrev IsGiven : List AuthorityResponse → Driver C → Driver C → Type 0
    IsGiven qs d r =
        (answers r.sent ≡ answers d.sent ++ due d.pending_authority qs)
        × (r.pending_authority ≡ left d.pending_authority qs)
        × (waiting r.collider ≡ [])

    pub drain_authority_responses-IsGiven :
        (fuel : ℕ) (qs : List AuthorityResponse) (d r : Driver C)
        → drain_authority_responses x takes fuel d ≡ some r
        → waiting d.collider ≡ qs
        → IsGiven qs d r
    unfolding deliver_response answer
    drain_authority_responses-IsGiven zero qs d r h e = absurd (empty_events x takes d r h)
    drain_authority_responses-IsGiven (suc fuel) [] d r h e =
        subst (IsGiven [] d)
          (some_inj (sym (drain_events_done x takes fuel d (queue.polled_none d.collider e)) ∙ h))
          (sym (append-nil (answers d.sent)), refl, e)
    drain_authority_responses-IsGiven (suc fuel) (q ∷ qs) d r h e =
        let (c, polled, rest) = queue.polled_some d.collider q qs e in
        let next = sym (drain_events_next x takes fuel d q c polled) ∙ h in
        elim (Option-cases (HashMap.get ℕ_discrete d.pending_authority q.request_id)) [
          | inl f ↦
              let d' : Driver C = record d { collider = c } in
              let same : delivered x takes q c d ≡ d' = rw (f, deliver_response) refl in
              let given =
                drain_authority_responses-IsGiven fuel qs d' r
                  (subst (λ i. drain_authority_responses x takes fuel i ≡ some r) same next) rest in
              rw (f, due, left) given
          | inr (sender, f) ↦
              let d' : Driver C = record d {
                collider = c;
                pending_authority = HashMap.remove ℕ_discrete d.pending_authority q.request_id;
                sent = d.sent ++ answered sender q ∷ [];
              } in
              let same : delivered x takes q c d ≡ d' = rw (f, deliver_response) refl in
              let (told, kept, none_left) =
                drain_authority_responses-IsGiven fuel qs d' r
                  (subst (λ i. drain_authority_responses x takes fuel i ≡ some r) same next) rest in
              rw (f, due, left)
                (
                  told
                      ∙ (ap (λ i. i ++ due d'.pending_authority qs)
                            (answers-append d.sent (answered sender q ∷ []))
                          ∙ append_assoc (answers d.sent) ((sender, q) ∷ [])
                              (due d'.pending_authority qs)),
                  kept,
                  none_left,
                )
        ]

-- ===== src/Sfu/Events/Stamps.antt =====
-- What `drain_engine` sends of the events of the engine, and under which ids.
use apprtc.Prelude.{
  ℕ, ◌+◌, ◌≤◌, ◌<◌, ◌≡◌, refl, subst, some, List, ◌∷◌, Bool, length, arith, Option-cases, inl, inr,
  Bool-cases, Option, none, [], str_eq, if◌then◌else◌, true, false,
}
use apprtc.Prelude.HashMap
use apprtc.Proto.{EventMessage, EventKind, signal, failure, internal}
use apprtc.Std.Parse.{u64_mod}
use apprtc.RoomId.{RoomId, room_id_to_bytes}
use apprtc.Sfu.Engine.{
  SfuEvent, join, leave, session_description, ice_candidate, err, ok, Key-discrete,
}
use apprtc.Sfu.Shard.{Projection}
use apprtc.Sfu.Metrics.{next_nonzero}
use apprtc.Sfu.Events.{Printer, subject, event_kind, report, drain_engine}

-- The ids of the messages count up from a number.
abbrev pub CountsUp : ℕ → List EventMessage → Type 0
CountsUp n [] = Unit
CountsUp n (m ∷ ms) = (m.request_id ≡ n) × CountsUp (n + 1) ms

module _ {S : Type 0} (p : Printer S) (projection : Projection) where
  -- The stamp of a member.
  abbrev Placed : RoomId → ℕ → ℕ → ℕ → Type 0
  Placed room client lifecycle epoch =
      HashMap.get Key-discrete projection (room, client) ≡ some (lifecycle, epoch)

  abbrev Unplaced : RoomId → ℕ → Type 0
  Unplaced room client = HashMap.get Key-discrete projection (room, client) ≡ none

  -- What signaling is told of an event of the engine: it is of the same room and client, who is placed,
  -- under the lifecycle and the epoch of the placement, and has the content of the event. A failure has
  -- no epoch.
  abbrev pub Tells : SfuEvent S → EventKind → Type 0
  Tells (session_description request_id room client sdp) (signal g) =
      (g.room_id ≡ room_id_to_bytes room)
      × (g.client_id ≡ client)
      × Placed room client g.lifecycle_id g.assignment_epoch
      × (g.message_json ≡ p.description_json sdp (if p.is_offer sdp then some request_id else none))
      × (g.sdp_request_id ≡ some request_id)
  Tells (ice_candidate request_id room client candidate) (signal g) =
      (g.room_id ≡ room_id_to_bytes room)
      × (g.client_id ≡ client)
      × Placed room client g.lifecycle_id g.assignment_epoch
      × (g.message_json
          ≡ p.candidate_json
              (if str_eq candidate.candidate "" then "end-of-candidates" else "candidate")
              candidate.sdp_mline_index candidate.sdp_mid candidate.candidate)
      × (g.sdp_request_id ≡ none)
  Tells (err request_id (some room) (some client) reason) (failure f) =
      (lifecycle : ℕ) × (epoch : ℕ) × Placed room client lifecycle epoch
      × (f.room_id ≡ some (room_id_to_bytes room))
      × (f.client_id ≡ some client)
      × (f.lifecycle_id ≡ some lifecycle)
      × (f.sdp_request_id ≡ some request_id)
      × (f.error
          ≡ some (record {
            code = internal;
            reason = reason;
            retryable = false;
            retry_after_ms = none;
          }))
  Tells _ _ = ⊥

  -- An event of which signaling is told nothing: it is of nobody who is placed, or of no kind that is
  -- reported.
  abbrev pub Untold : SfuEvent S → Type 0
  Untold (session_description request_id room client sdp) = Unplaced room client
  Untold (ice_candidate request_id room client candidate) = Unplaced room client
  Untold (err request_id (some room) (some client) reason) = Unplaced room client
  Untold _ = Unit

  -- The messages for events, in their order: up to the first that the channel does not take.
  pub data Reports (takes : EventMessage → Bool)
      : List (SfuEvent S) → List EventMessage → Type 0 where
    done : Reports takes [] []
    untold :
        {e : SfuEvent S} {es : List (SfuEvent S)} {ms : List EventMessage}
        → Untold e
        → Reports takes es ms
        → Reports takes (e ∷ es) ms
    told :
        {e : SfuEvent S} {es : List (SfuEvent S)} {ms : List EventMessage} (id : ℕ)
        (kind : EventKind)
        → Tells e kind
        → takes (record { request_id = id; event = some kind }) ≡ true
        → Reports takes es ms
        → Reports takes (e ∷ es) (record { request_id = id; event = some kind } ∷ ms)
    closed :
        {e : SfuEvent S} {es : List (SfuEvent S)} (id : ℕ) (kind : EventKind)
        → Tells e kind
        → takes (record { request_id = id; event = some kind }) ≡ false
        → Reports takes (e ∷ es) []

  -- What `report` makes of an event.
  abbrev IsReport : SfuEvent S → Option EventKind → Type 0
  IsReport e none = Untold e
  IsReport e (some kind) = Tells e kind

  report_at :
      (e : SfuEvent S) (room : RoomId) (client : ℕ)
      → subject e ≡ some (room, client)
      → ((lifecycle epoch : ℕ)
          → Placed room client lifecycle epoch
          → IsReport e (event_kind p (room, client) (lifecycle, epoch) e))
      → (Unplaced room client → Untold e)
      → IsReport e (report p projection e)
  unfolding report
  report_at e room client s placed missing =
      elim (Option-cases (HashMap.get Key-discrete projection (room, client))) [
        | inl n ↦ rw (s, report) (rw n (missing n))
        | inr ((lifecycle, epoch), g) ↦ rw (s, report) (rw g (placed lifecycle epoch g))
      ]

  report-IsReport : (e : SfuEvent S) → IsReport e (report p projection e)
  unfolding subject event_kind report
  report-IsReport (session_description q room client sdp) =
      report_at (session_description q room client sdp) room client refl
        (λ lifecycle epoch g. (refl, refl, g, refl, refl)) (λ n. n)
  report-IsReport (ice_candidate q room client candidate) =
      report_at (ice_candidate q room client candidate) room client refl
        (λ lifecycle epoch g. (refl, refl, g, refl, refl)) (λ n. n)
  report-IsReport (err q (some room) (some client) reason) =
      report_at (err q (some room) (some client) reason) room client refl
        (λ lifecycle epoch g. (lifecycle, epoch, g, refl, refl, refl, refl, refl)) (λ n. n)
  report-IsReport (join q room client) =
      report_at (join q room client) room client refl (λ lifecycle epoch g. tt) (λ n. tt)
  report-IsReport (leave q room client reason) =
      report_at (leave q room client reason) room client refl (λ lifecycle epoch g. tt) (λ n. tt)
  report-IsReport (err q none client reason) = tt
  report-IsReport (err q (some room) none reason) = tt
  report-IsReport ok = tt

  -- Signaling is told, in their order, of exactly the descriptions, candidates and failures of the
  -- engine that are of members whom the projection places, each as of its own room and client, under
  -- the lifecycle of the placement, for descriptions and candidates also its epoch, and with its content;
  -- events of anyone else, and joins and leaves, are dropped. The first message that the channel does not
  -- take is the last that is tried.
  pub drain_engine-Reports :
      (takes : EventMessage → Bool) (events : List (SfuEvent S)) (counter : ℕ)
      → Reports takes events (drain_engine p takes projection events counter).0
  unfolding drain_engine
  drain_engine-Reports takes [] counter = Reports.done
  drain_engine-Reports takes (e ∷ events) counter =
      let is = report-IsReport e in
      elim (Option-cases (report p projection e)) [
        | inl n ↦
            rw (n, drain_engine)
              (Reports.untold (subst (IsReport e) n is) (drain_engine-Reports takes events counter))
        | inr (kind, r) ↦
            let (id, next) = next_nonzero counter in
            rw (r, drain_engine)
              (elim (Bool-cases (takes (record { request_id = id; event = some kind }))) [
                | inl t ↦ rw t (
                    Reports.told id kind (subst (IsReport e) r is) t
                      (drain_engine-Reports takes events next))
                | inr f ↦ rw f (Reports.closed id kind (subst (IsReport e) r is) f)
              ])
      ]

module _ {S : Type 0} (p : Printer S) where
  module _ (takes : EventMessage → Bool) (projection : Projection) where
    next_nonzero_step :
        (counter : ℕ)
        → 0 < counter
        → counter + 1 < u64_mod
        → next_nonzero counter ≡ (counter, counter + 1)
    unfolding next_nonzero
    next_nonzero_step counter pos h = ground arith

    -- While the counter does not wrap, the messages have consecutive ids from the counter on, so no
    -- two events share an id; the counter never falls, and it is past every id that was given out.
    pub drain_engine-CountsUp :
        (events : List (SfuEvent S)) (counter : ℕ)
        → 0 < counter
        → counter + length events < u64_mod
        → CountsUp counter (drain_engine p takes projection events counter).0
          × (counter + length (drain_engine p takes projection events counter).0
              ≤ (drain_engine p takes projection events counter).1)
          × ((drain_engine p takes projection events counter).1 ≤ counter + length events)
    unfolding drain_engine
    drain_engine-CountsUp [] counter pos h = (tt, omega arith, omega arith)
    drain_engine-CountsUp (event ∷ events) counter pos h =
        elim (Option-cases (report p projection event)) [
          | inl n ↦
              rw (n, drain_engine)
                (let (ids, above, below) = drain_engine-CountsUp events counter pos (omega arith) in
                  (ids, above, omega arith))
          | inr (kind, r) ↦
              rw (r, drain_engine)
                (rw (next_nonzero_step counter pos (omega arith)) (
                  let (ids, above, below) =
                    drain_engine-CountsUp events (counter + 1) (omega arith) (omega arith) in
                  elim (Bool-cases (takes (record { request_id = counter; event = some kind }))) [
                    | inl t ↦ rw t ((refl, ids), omega arith, omega arith)
                    | inr f ↦ rw f (tt, omega arith, omega arith)
                  ]))
        ]

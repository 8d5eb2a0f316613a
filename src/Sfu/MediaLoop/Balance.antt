-- ===== src/Sfu/MediaLoop/Balance.antt =====
-- What a media shard of sfu_server.rs leaves in the totals that all shards share.
use apprtc.Prelude.{
  ℕ, ◌<◌, ◌≤◌, ◌≡◌, refl, sym, ◌∙◌, ap, subst, some, none, List, [], ◌∷◌, Bool, true, false, ◌||◌,
  not, arith, length, ℕ_discrete, Option-cases, Bool-cases, inl, inr, if◌then◌else◌,
}
use apprtc.Prelude.HashMap
use apprtc.Std.Parse.{u64_mod}
use apprtc.Proto.{SfuCommand, SfuCommandResult, EventMessage}
use apprtc.Sfu.Engine.{External}
use apprtc.Sfu.Shard.{Projection}
use apprtc.Sfu.Commands.{apply_command}
use apprtc.Sfu.Metrics.{
  Metrics, Contribution, fetch_add, fetch_sub, replace_contribution, rooms_of, update_metrics,
}
use apprtc.Sfu.Events.{Printer}
use apprtc.Sfu.MediaLoop.{MediaLoop, run_command, handle_media_command}
use apprtc.Sfu.MediaLoop.Run.{
  Io, Input, stop, deadline, command, received, Taken, Running, add_elsewhere, run_media_command,
  drain_round, round, finish, met, media_loop,
}

length-rooms_of : (p : Projection) → length (rooms_of p) ≤ length p
unfolding rooms_of
length-rooms_of [] = omega arith
length-rooms_of (((room, client), s) ∷ p) = ground (arith, length-rooms_of p)

-- A total is what the others have added and what the shard has.
pub record IsShare (others total own : ℕ) : Type 0 where
  pub others_fit : others < u64_mod
  pub own_fits : own < u64_mod
  pub shared : total ≡ fetch_add others own

IsShare-replace :
    (others total own current : ℕ)
    → IsShare others total own
    → current < u64_mod
    → IsShare others (replace_contribution total own current) current
unfolding replace_contribution fetch_add fetch_sub
IsShare-replace others total own current s h = record {
  others_fit = s.others_fit;
  own_fits = h;
  shared = ground (arith, s.shared, s.others_fit, s.own_fits);
}

IsShare-elsewhere :
    (others total own n : ℕ)
    → IsShare others total own
    → IsShare (fetch_add others n) (fetch_add total n) own
unfolding fetch_add
IsShare-elsewhere others total own n s = record {
  others_fit = omega arith;
  own_fits = s.own_fits;
  shared = omega (arith, s.shared, s.others_fit, s.own_fits);
}

IsShare-end : (others total own : ℕ) → IsShare others total own → fetch_sub total own ≡ others
unfolding fetch_add fetch_sub
IsShare-end others total own s = omega (arith, s.shared, s.others_fit, s.own_fits)

IsShare-start : (total own : ℕ) → total < u64_mod → own ≡ 0 → IsShare total total own
unfolding fetch_add
IsShare-start total own h e = record {
  others_fit = h;
  own_fits = omega (arith, e);
  shared = omega (arith, e, h);
}

-- Both totals, for a shard.
abbrev pub IsBalanced : {E : Type 0} → Metrics → Running E → Type 0
IsBalanced others r =
    IsShare others.rooms r.metrics.rooms r.loop.contribution.metric_rooms
    × IsShare others.clients r.metrics.clients r.loop.contribution.metric_clients

moved :
    {E : Type 0} (n others : Metrics) (r : Running E)
    → IsBalanced others r
    → IsBalanced (add_elsewhere n others) (record r { metrics = add_elsewhere n r.metrics })
unfolding add_elsewhere
moved n others r v = (
  IsShare-elsewhere others.rooms r.metrics.rooms r.loop.contribution.metric_rooms n.rooms v.0,
  IsShare-elsewhere others.clients r.metrics.clients r.loop.contribution.metric_clients n.clients
      v.1,
)

-- Whether the loop is over with an input.
abbrev pub ends : Input → Bool
ends stop = true
ends (command none) = true
ends _ = false

abbrev pub closes : List Taken → Bool
closes [] = false
closes (t ∷ ts) = ends t.input || closes ts

-- The totals as the others alone make them, up to the end of the loop.
abbrev pub without : List Taken → Metrics → Metrics
without [] m = m
without (t ∷ ts) m =
    let rest = without ts (add_elsewhere t.elsewhere m) in
    if ends t.input then add_elsewhere t.elsewhere m else rest

module _ {E V S : Type 0} (x : External E V S) (io : Io E S) (p : Printer S)
    (takes : EventMessage → Bool) where
  -- What a command leaves, if its projection is small enough to be counted.
  abbrev Leaves : Metrics → (MediaLoop E × Metrics) × SfuCommandResult → Type 0
  Leaves others q =
      length q.0.0.shard.projection < u64_mod
      → IsShare others.rooms q.0.1.rooms q.0.0.contribution.metric_rooms
        × IsShare others.clients q.0.1.clients q.0.0.contribution.metric_clients

  run_command-Leaves :
      (c : SfuCommand) (others : Metrics) (l : MediaLoop E) (m : Metrics)
      → IsShare others.rooms m.rooms l.contribution.metric_rooms
      → IsShare others.clients m.clients l.contribution.metric_clients
      → Leaves others (run_command x c l m)
  unfolding run_command update_metrics
  run_command-Leaves c others l m rooms clients small =
      let projection = (apply_command x c l.shard).0.projection in
      let fewer = length-rooms_of projection in
      (
        IsShare-replace others.rooms m.rooms l.contribution.metric_rooms
            (length (rooms_of projection)) rooms (omega (arith, fewer, small)),
        IsShare-replace others.clients m.clients l.contribution.metric_clients (length projection)
            clients small,
      )

  IsBalanced-run_media_command :
      (c : SfuCommand) (others : Metrics) (r : Running E)
      → IsBalanced others r
      → length (run_media_command x io p takes c r).loop.shard.projection < u64_mod
      → IsBalanced others (run_media_command x io p takes c r)
  unfolding run_media_command
  IsBalanced-run_media_command c others r v small =
      elim (Option-cases (HashMap.get ℕ_discrete r.loop.cache.entries c.request_id)) [
        | inr (cached, e) ↦
            let same : handle_media_command x c r.loop r.metrics ≡ ((r.loop, r.metrics), cached) =
              rw (e, handle_media_command) refl in
            subst (Leaves others) (sym same) (λ i. v) small
        | inl e ↦
            let same : handle_media_command x c r.loop r.metrics
                ≡ run_command x c r.loop r.metrics =
              rw (e, handle_media_command) refl in
            subst (Leaves others) (sym same) (run_command-Leaves c others r.loop r.metrics v.0 v.1)
              small
      ]

  IsBalanced-round :
      (i : Input) (others : Metrics) (r : Running E)
      → IsBalanced others r
      → length (round x io p takes i r).0.loop.shard.projection < u64_mod
      → IsBalanced others (round x io p takes i r).0 × ((round x io p takes i r).1 ≡ not (ends i))
  unfolding round drain_round
  IsBalanced-round stop others r v small = (v, refl)
  IsBalanced-round (command none) others r v small = (v, refl)
  IsBalanced-round (command (some c)) others r v small =
      (IsBalanced-run_media_command c others r v small, refl)
  IsBalanced-round (received (some packet)) others r v small = (v, refl)
  IsBalanced-round (received none) others r v small = (v, refl)
  IsBalanced-round deadline others r v small = (v, refl)

  finish-balanced :
      (others : Metrics) (r : Running E)
      → IsBalanced others r
      → (finish x io p takes r).metrics ≡ others
  unfolding finish
  finish-balanced others r v =
      let rooms = IsShare-end others.rooms r.metrics.rooms r.loop.contribution.metric_rooms v.0 in
      let clients =
        IsShare-end others.clients r.metrics.clients r.loop.contribution.metric_clients v.1 in
      rw (rooms, clients) refl

  -- No projection that the loop comes to has 2 ^ 64 members.
  abbrev pub IsSmall : List Taken → Running E → Type 0
  IsSmall [] r = Unit
  IsSmall (t ∷ ts) r =
      let r' = (round x io p takes t.input (met x io p takes t r)).0 in
      (length r'.loop.shard.projection < u64_mod) × IsSmall ts r'

  media_loop-balanced :
      (ts : List Taken) (others : Metrics) (r : Running E)
      → IsBalanced others r
      → closes ts ≡ true
      → IsSmall ts r
      → (r' : Running E) × (media_loop x io p takes ts r ≡ some r')
        × (r'.metrics ≡ without ts others)
  unfolding media_loop
  media_loop-balanced [] others r v h small = absurd (ground (arith, h))
  media_loop-balanced (t ∷ ts) others r v h small =
      let here : Running E = met x io p takes t r in
      let others' = add_elsewhere t.elsewhere others in
      let (kept, goes) =
        IsBalanced-round t.input others' here (moved t.elsewhere others r v) small.0 in
      let last = (round x io p takes t.input here).0 in
      elim (Bool-cases (ends t.input)) [
        | inl e ↦
            let stops : (round x io p takes t.input here).1 ≡ false = goes ∙ ap not e in
            rw e (rw stops (finish x io p takes last, refl, finish-balanced others' last kept))
        | inr e ↦
            let goes_on : (round x io p takes t.input here).1 ≡ true = goes ∙ ap not e in
            rw e (
              rw goes_on (
                media_loop-balanced ts others' last kept (sym (ap (λ b. b || closes ts) e) ∙ h)
                  small.1))
      ]

  -- A media shard that starts with a contribution of nothing, to totals of 64 bits, and that is told to
  -- stop or whose channel of commands ends, comes to its end, and the totals are then what the
  -- other shards alone have made of them: whatever commands it has carried out, and in whatever order its
  -- branches were taken, what it added it has taken away. No projection that it comes to has 2 ^ 64
  -- members.
  pub media_loop-metrics :
      (ts : List Taken) (r : Running E)
      → r.loop.contribution ≡ record { metric_rooms = 0; metric_clients = 0 }
      → r.metrics.rooms < u64_mod
      → r.metrics.clients < u64_mod
      → closes ts ≡ true
      → IsSmall ts r
      → (r' : Running E) × (media_loop x io p takes ts r ≡ some r')
        × (r'.metrics ≡ without ts r.metrics)
  media_loop-metrics ts r fresh rooms clients h small =
      media_loop-balanced ts r.metrics r
        (
          IsShare-start r.metrics.rooms r.loop.contribution.metric_rooms rooms
              (ap (λ (c : Contribution). c.metric_rooms) fresh),
          IsShare-start r.metrics.clients r.loop.contribution.metric_clients clients
              (ap (λ (c : Contribution). c.metric_clients) fresh),
        )
        h small

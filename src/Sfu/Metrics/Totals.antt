-- ===== src/Sfu/Metrics/Totals.antt =====
-- The shared totals are the sums of the shards' contributions, and event ids are never zero.
use apprtc.Prelude.{
  ℕ, ◌+◌, ◌≡◌, ◌≢◌, ◌<◌, refl, sym, List, [], ◌∷◌, false, length, arith, Bool-cases, inl, inr,
  NotIn, Distinct,
}
use apprtc.Std.Parse.{u64_mod}
use apprtc.RoomId.{RoomId, RoomId-discrete}
use apprtc.Sfu.Shard.{Projection}
use apprtc.Sfu.Metrics.{
  replace_contribution, has_room, rooms_of, Metrics, Contribution, update_metrics, next_nonzero,
}

replace_contribution_sum :
    (others total previous current : ℕ)
    → total ≡ others + previous
    → others + previous < u64_mod
    → others + current < u64_mod
    → replace_contribution total previous current ≡ others + current
unfolding replace_contribution
replace_contribution_sum others total previous current e h k = ground arith

-- While the sums fit u64: if the totals were what the other shards contribute plus what this shard
-- contributed before, then after an update they are what the others contribute plus the number of
-- rooms and of members in this shard's projection, and the shard remembers these two numbers.
pub update_metrics-sum :
    (others_rooms others_clients : ℕ) (p : Projection) (m : Metrics) (c : Contribution)
    → m.rooms ≡ others_rooms + c.metric_rooms
    → m.clients ≡ others_clients + c.metric_clients
    → m.rooms < u64_mod
    → m.clients < u64_mod
    → others_rooms + length (rooms_of p) < u64_mod
    → others_clients + length p < u64_mod
    → ((update_metrics p m c).0.rooms ≡ others_rooms + (update_metrics p m c).1.metric_rooms)
      × ((update_metrics p m c).0.clients
          ≡ others_clients + (update_metrics p m c).1.metric_clients)
      × ((update_metrics p m c).1.metric_rooms ≡ length (rooms_of p))
      × ((update_metrics p m c).1.metric_clients ≡ length p)
unfolding update_metrics
update_metrics-sum others_rooms others_clients p m c er ec br bc fr fc = (
  replace_contribution_sum others_rooms m.rooms c.metric_rooms (length (rooms_of p)) er
      (omega arith) fr,
  replace_contribution_sum others_clients m.clients c.metric_clients (length p) ec (omega arith) fc,
  refl,
  refl,
)

has_room-NotIn : (r : RoomId) (rs : List RoomId) → has_room r rs ≡ false → NotIn r rs
unfolding has_room
has_room-NotIn r [] h = tt
has_room-NotIn r (s ∷ rs) h = elim (RoomId-discrete s r) [
  | yes e ↦ absurd (ground arith)
  | no ne ↦ ((λ e. ne (sym e)), has_room-NotIn r rs (ground arith))
]

-- The rooms that are counted are pairwise different.
rooms_of-Distinct : (p : Projection) → Distinct (rooms_of p)
unfolding rooms_of
rooms_of-Distinct [] = tt
rooms_of-Distinct (((room, c), s) ∷ p) = elim (Bool-cases (has_room room (rooms_of p))) [
  | inl e ↦ rw e (rooms_of-Distinct p)
  | inr e ↦ rw e (has_room-NotIn room (rooms_of p) e, rooms_of-Distinct p)
]

-- `next_nonzero` draws a nonzero id from any counter, and the next draw gives another id, as long as
-- the counter is a u64.
pub next_nonzero-ne :
    (counter : ℕ)
    → counter < u64_mod
    → ((next_nonzero counter).0 ≢ 0)
      × ((next_nonzero counter).1 < u64_mod)
      × ((next_nonzero (next_nonzero counter).1).0 ≢ (next_nonzero counter).0)
unfolding next_nonzero
next_nonzero-ne counter h = ground arith

-- ===== src/Sfu/Metrics.antt =====
-- The counters of sfu_server.rs: the room and client totals that all shards add to, and the event ids.
-- An `AtomicU64` is a number below 2^64 whose additions and subtractions wrap.
use apprtc.Prelude.{
  ℕ, ◌+◌, ◌-◌, ◌%◌, ◌≡◌, ◌≤◌, ◌<◌, List, [], ◌∷◌, Option, Bool, true, false, ite, leb, eqb, length,
  map, arith, if◌then◌else◌,
}
use apprtc.Std.Parse.{u64_mod}
use apprtc.RoomId.{RoomId, RoomId-discrete}
use apprtc.Sfu.Shard.{Projection}
pub mod Totals

unfoldable pub fetch_add : ℕ → ℕ → ℕ
fetch_add total n = (total + n) % u64_mod

unfoldable pub fetch_sub : ℕ → ℕ → ℕ
fetch_sub total n = (total + u64_mod - n) % u64_mod

-- The total after a shard's contribution goes from `previous` to `current`; the caller keeps `current`.
unfoldable pub replace_contribution : ℕ → ℕ → ℕ → ℕ
unfolding fetch_add fetch_sub
replace_contribution total previous current =
    if leb previous current
    then fetch_add total (current - previous)
    else fetch_sub total (previous - current)

unfoldable pub has_room : RoomId → List RoomId → Bool
unfolding RoomId-discrete
has_room room [] = false
has_room room (r ∷ rs) = ite (RoomId-discrete r room) true (has_room room rs)

-- The rooms of a projection, each once: `collect::<HashSet<_>>()`.
unfoldable pub rooms_of : Projection → List RoomId
unfolding has_room
rooms_of [] = []
rooms_of (((room, _), _) ∷ p) =
    let rest = rooms_of p in if has_room room rest then rest else room ∷ rest

-- The atomics that the shards share.
pub record Metrics : Type 0 where
  pub rooms : ℕ
  pub clients : ℕ

-- What one shard has added to them so far.
pub record Contribution : Type 0 where
  pub metric_rooms : ℕ
  pub metric_clients : ℕ

unfoldable pub update_metrics : Projection → Metrics → Contribution → Metrics × Contribution
unfolding replace_contribution rooms_of
update_metrics projection metrics c = (
  record {
    rooms = replace_contribution metrics.rooms c.metric_rooms (length (rooms_of projection));
    clients = replace_contribution metrics.clients c.metric_clients (length projection);
  },
  record { metric_rooms = length (rooms_of projection); metric_clients = length projection },
)

-- `next_nonzero`: the value drawn, and the counter afterwards. The loop draws again when it met 0,
-- and the draw after that is 1.
unfoldable pub next_nonzero : ℕ → ℕ × ℕ
unfolding fetch_add
next_nonzero counter =
    if eqb counter 0
    then (fetch_add counter 1, fetch_add (fetch_add counter 1) 1)
    else (counter, fetch_add counter 1)

-- ===== src/Sfu/Reconnect/Kept.antt =====
-- `run` of sfu_server.rs: the pending events and the delay over its sessions.
use apprtc.Prelude.{ℕ, zero, suc, ◌+◌, ◌-◌, ◌<◌, ◌≤◌, ◌≡◌, refl, List, [], ◌∷◌, ok, length, arith}
use apprtc.Prelude.HashMap.{HashMap}
use apprtc.Prelude.HashMap
use apprtc.Sfu.Metrics.{Metrics}
use apprtc.Sfu.Session.{Worker, Session}
use apprtc.Sfu.Session.Pending.{draws}
use apprtc.Sfu.Reconnect.{ports_from, start, initial_reconnect_delay, max_reconnect_delay, Attempt}

length-ports_from : (port n : ℕ) → length (ports_from port n) ≡ n
unfolding ports_from
length-ports_from port zero = refl
length-ports_from port (suc n) = omega (arith, length-ports_from (port + 1) n)

-- A worker that starts has a shard at least, as many as its range has ports, and nonzero limits.
pub start-shards :
    (w : Worker) (port_min port_max : ℕ) (ports : List ℕ)
    → start w port_min port_max ≡ ok ports
    → (0 < length ports)
      × (length ports + port_min ≡ port_max + 1)
      × (0 < w.capacity.max_rooms)
      × (0 < w.capacity.max_clients)
unfolding start
start-shards w port_min port_max ports h =
    let n = length-ports_from port_min (port_max + 1 - port_min) in
    (ground (arith, h, n), ground (arith, h, n), ground (arith, h), ground (arith, h))

-- How many ids can be drawn over an attempt, and over attempts.
abbrev attempt_draws : Attempt → ℕ
attempt_draws a = a.drawn + (1 + (a.opening.drawn + (1 + draws a.inputs)))

abbrev pub all_draws : List Attempt → ℕ
all_draws [] = 0
all_draws (a ∷ rest) = attempt_draws a + all_draws rest

-- The delays between which the code moves.
abbrev pub IsDelay : ℕ → Type 0
IsDelay delay = (initial_reconnect_delay ≤ delay) × (delay ≤ max_reconnect_delay)

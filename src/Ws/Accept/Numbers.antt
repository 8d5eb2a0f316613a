-- ===== src/Ws/Accept/Numbers.antt =====
-- The numbers of the connections that `run` of ws_server.rs accepts.
use apprtc.Prelude.{
  ℕ, ◌+◌, ◌%◌, ◌<◌, ◌≤◌, ◌≡◌, List, [], ◌∷◌, map, All, NotIn, Distinct, arith, length,
}
use apprtc.Std.Parse.{u64_mod}
use apprtc.Ws.Accept.{Connection, Accepting, stop, joined, accept_error, accepted, run}

abbrev pub numbers : List (ℕ × Connection) → List ℕ
numbers = map (λ t. t.0)

All-weaken : (n : ℕ) (ms : List ℕ) → All (λ m. n + 1 ≤ m) ms → All (λ m. n ≤ m) ms × NotIn n ms
All-weaken n [] a = (tt, tt)
All-weaken n (m ∷ ms) a =
    let (below, absent) = All-weaken n ms a.1 in
    ((omega (arith, a.0), below), ((λ e. omega (arith, a.0, e)), absent))

run-from :
    (next : ℕ) (events : List Accepting)
    → next + length events < u64_mod
    → All (λ m. next ≤ m) (numbers (run next events)) × Distinct (numbers (run next events))
unfolding run
run-from next [] h = (tt, tt)
run-from next (stop ∷ events) h = (tt, tt)
run-from next (joined ∷ events) h = run-from next events (omega arith)
run-from next (accept_error ∷ events) h = run-from next events (omega arith)
run-from next (accepted c ∷ events) h =
    let step : (next + 1) % u64_mod ≡ next + 1 = omega arith in
    let (above, distinct) = run-from (next + 1) events (omega arith) in
    let (below, absent) = All-weaken next (numbers (run (next + 1) events)) above in
    rw step ((omega arith, below), (absent, distinct))

-- The numbers of the connections do not repeat before the counter comes round.
pub run-Distinct :
    (events : List Accepting) → length events + 1 < u64_mod → Distinct (numbers (run 1 events))
run-Distinct events h = (run-from 1 events (omega arith)).1

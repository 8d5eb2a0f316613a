-- ===== src/Driver/Tests.antt =====
-- The theorems about signaling_server.rs at a concrete Collider.
use apprtc.Prelude.{
  ℕ, ◌+◌, ◌<◌, ◌≤◌, ◌≡◌, refl, ap, some_inj, Option, some, none, List, [], ◌∷◌, ◌++◌, Bool, true,
  false, arith, ℕ_discrete, length,
}
use apprtc.Prelude.HashMap
use apprtc.Grpc.Operations.{AuthorityOperation}
use apprtc.Driver.{
  Collider, AuthorityCommand, AuthorityResponse, BrowserInput, BrowserOutput, DriverCommand, Sent,
  Driver, internal, handle_authority,
}
use apprtc.Driver.Loop.{
  Wake, command, deadline, drain_outputs, round, run, run_loop, commands, insert_sorted, sort,
  dedup,
}
use apprtc.Driver.Loop.Drains.{IsFinite}
use apprtc.Driver.Loop.Returns.{run_returns}
use apprtc.Driver.Released.After.{run_loop-disconnected}
use apprtc.Driver.Ledger.{answers, given, Answers}
use apprtc.Driver.Answered.Due.{IsQueue, due, left}
use apprtc.Driver.Answered.Round.{opened, round-answers}
use apprtc.Driver.Answered.Whole.{hands_all, started, answers-run}

-- The outputs and the responses that wait to be polled.
abbrev Queues : Type 0
Queues = List BrowserOutput × List AuthorityResponse

abbrev respond : Queues → AuthorityCommand → Queues × Bool
respond (os, rs) c = elim (ℕ_discrete c.request_id 0) [
  | yes _ ↦ ((os, rs), false)
  | no _ ↦ ((os, rs ++ internal c.request_id ∷ []), true)
]

abbrev greet : Queues → BrowserInput → Queues × Bool
greet (os, rs) (BrowserInput.connected n) = ((os ++ BrowserOutput.text n "hello" ∷ [], rs), true)
greet (os, rs) _ = ((os, rs), true)

abbrev next_output : Queues → Option (BrowserOutput × Queues)
next_output ([], rs) = none
next_output (o ∷ os, rs) = some (o, (os, rs))

abbrev next_event : Queues → Option (AuthorityResponse × Queues)
next_event (os, []) = none
next_event (os, r ∷ rs) = some (r, (os, rs))

-- It greets who connects and answers every operation but one with the request id 0.
abbrev echo : Collider Queues ℕ
echo = record {
  handle_read = greet;
  handle_write = respond;
  handle_sfu_input = λ c i. (c, true);
  handle_timeout = λ c. (c, true);
  poll_write = next_output;
  poll_event = next_event;
  close = λ c. c;
  registering = λ i. some i;
}

abbrev takes : List Sent → Sent → Bool
takes _ _ = true

write_taken :
    (c c' : Queues) (o : BrowserOutput) → next_output c ≡ some (o, c') → length c'.0 < length c.0
write_taken ([], rs) c' o h = absurd (ground (arith, h))
write_taken (p ∷ os, rs) c' o h = omega (arith, ap (λ q. length q.1.0) (some_inj h))

event_taken :
    (c c' : Queues) (r : AuthorityResponse) → next_event c ≡ some (r, c') → length c'.1 < length c.1
event_taken (os, []) c' r h = absurd (ground (arith, h))
event_taken (os, p ∷ rs) c' r h = omega (arith, ap (λ q. length q.1.1) (some_inj h))

echo-IsFinite : IsFinite echo (λ c. length c.0) (λ c. length c.1)
echo-IsFinite = record { write_taken = write_taken; event_taken = event_taken }

polled_none : (c : Queues) → c.1 ≡ [] → next_event c ≡ none
polled_none (os, []) e = refl
polled_none (os, r ∷ rs) e = absurd (ground (arith, e))

polled_some :
    (c : Queues) (r : AuthorityResponse) (rest : List AuthorityResponse)
    → c.1 ≡ r ∷ rest
    → (c' : Queues) × (next_event c ≡ some (r, c')) × (c'.1 ≡ rest)
polled_some (os, []) r rest e = absurd (ground (arith, e))
polled_some (os, p ∷ rs) r rest e = ((os, rs), ground (arith, e), ground (arith, e))

echo-IsQueue : IsQueue echo (λ c. c.1)
echo-IsQueue = record { polled_none = polled_none; polled_some = polled_some }

abbrev ask : ℕ → ℕ → DriverCommand ℕ
ask id sender =
    DriverCommand.authority (record { request_id = id; operation = AuthorityOperation.status })
      sender

-- Two operations, a connection, and an operation that is refused, then one that is left at the stop.
abbrev wakes : List (Wake echo takes)
wakes =
    command (ask 5 15) ∷ command (DriverCommand.connected 3 9) ∷ deadline ∷ command (ask 0 10) ∷ []

abbrev queued : List (DriverCommand ℕ)
queued = ask 7 17 ∷ []

abbrev asked : ℕ → ℕ
asked sender = elim (ℕ_discrete sender 15) [
  | yes _ ↦ 5
  | no _ ↦ elim (ℕ_discrete sender 17) [ yes _ ↦ 7 | no _ ↦ 0 ]
]

run_returns_example :
    (fuel : ℕ) × (r : Driver Queues) × (run echo takes fuel wakes queued
        (started echo takes ([], []))
      ≡ some r)
run_returns_example =
    run_returns echo takes (λ c. length c.0) (λ c. length c.1) echo-IsFinite wakes queued
      (started echo takes ([], []))

answers-run_example :
    (fuel : ℕ) × (r : Driver Queues) × (run echo takes fuel wakes queued
        (started echo takes ([], []))
      ≡ some r)
    × Answers asked (answers r.sent)
    × ((s : ℕ)
        → given s (answers r.sent) ≤ hands_all s (commands echo takes wakes) + hands_all s queued)
unfolding ℕ_discrete
answers-run_example =
    answers-run echo takes asked (λ c. length c.0) (λ c. length c.1) echo-IsFinite wakes queued
      ([], []) (refl, (tt, (refl, tt))) (refl, tt)

abbrev holding : Driver Queues
holding = record {
  collider = ([], []);
  sockets = (3, 9) ∷ (4, 8) ∷ [];
  sfu_sessions = [];
  pending_authority = [];
  sent = [];
}

run_loop-disconnected_example :
    (fuel : ℕ) × (r : Driver Queues) × (run_loop echo takes fuel
        (command (DriverCommand.disconnected 4) ∷ wakes)
        holding
      ≡ some r)
    × (HashMap.get ℕ_discrete r.sockets 4 ≡ none)
run_loop-disconnected_example =
    run_loop-disconnected echo takes 4 (λ c. length c.0) (λ c. length c.1) echo-IsFinite wakes
      holding (tt, ((λ e. omega (arith, e)), (tt, tt)))

dedup-sort : dedup (sort (4 ∷ 2 ∷ 4 ∷ 1 ∷ [])) ≡ 1 ∷ 2 ∷ 4 ∷ []
unfolding dedup sort insert_sorted ℕ_discrete
dedup-sort = refl

abbrev asking : AuthorityCommand
asking = record { request_id = 5; operation = AuthorityOperation.status }

-- Another operation waits under 6; the Collider has a response for the one that is asked only.
abbrev two_waiting : Driver Queues
two_waiting = record holding { pending_authority = (6, 16) ∷ [] }

round-answers_example :
    (fuel : ℕ) × (drained r : Driver Queues) × (drain_outputs echo takes fuel
        (handle_authority echo takes asking 15 two_waiting)
      ≡ some drained)
    × (round echo takes fuel (command (DriverCommand.authority asking 15)) two_waiting
        ≡ some (r, true))
    × (answers r.sent ≡ due (opened echo takes asking 15 two_waiting) drained.collider.1)
    × (r.pending_authority ≡ left (opened echo takes asking 15 two_waiting) drained.collider.1)
    × (r.collider.1 ≡ [])
unfolding ℕ_discrete
round-answers_example =
    round-answers echo takes (λ c. c.1) echo-IsQueue (λ c. length c.0) (λ c. length c.1)
      echo-IsFinite asking 15 two_waiting

one_due : due (opened echo takes asking 15 two_waiting) (internal 5 ∷ []) ≡ (15, internal 5) ∷ []
unfolding HashMap.get HashMap.insert ℕ_discrete
one_due = refl

-- ===== src/Driver/Loop.antt =====
-- The loops of signaling_server.rs: drain_outputs, drain_authority_responses and the rounds of `run`.
-- A loop that polls the Collider takes fuel; `none` means that the fuel ran out.
use apprtc.Prelude.{
  ℕ, zero, suc, ◌<◌, ◌≡◌, Option, some, none, List, [], ◌∷◌, ◌++◌, Bool, ℕ_discrete, ite, ltb,
  if◌then◌else◌, All,
}
use apprtc.Prelude.HashMap
use apprtc.Grpc.Stream.{StreamOutput}
use apprtc.Driver.{
  Collider, BrowserInput, BrowserOutput, AuthorityResponse, DriverCommand, SocketOutput, Sent,
  to_socket, to_session, Driver, try_send, answer, close_socket, handle_command,
}
pub mod Drains
pub mod Returns
pub mod Sorted
pub mod Kept

-- `sort_unstable`, and `dedup` of what it leaves.
unfoldable pub insert_sorted : ℕ → List ℕ → List ℕ
insert_sorted a [] = a ∷ []
insert_sorted a (b ∷ bs) = let rest = insert_sorted a bs in if ltb b a then b ∷ rest else a ∷ b ∷ bs

unfoldable pub sort : List ℕ → List ℕ
unfolding insert_sorted
sort [] = []
sort (a ∷ rest) = insert_sorted a (sort rest)

unfoldable pub dedup : List ℕ → List ℕ
dedup [] = []
dedup (a ∷ []) = a ∷ []
dedup (a ∷ b ∷ bs) = let rest = dedup (b ∷ bs) in ite (ℕ_discrete a b) rest (a ∷ rest)

module _ {C I : Type 0} (x : Collider C I) (takes : List Sent → Sent → Bool) where
  -- One round of the loop of `drain_outputs`; the list is `disconnected`.
  unfoldable pub route_text : ℕ → SocketOutput → Option ℕ → Driver C → List ℕ → Driver C × List ℕ
  unfolding try_send
  route_text connection m none d gone = (d, gone)
  route_text connection m (some socket) d gone =
      let (d', taken) = try_send x takes (to_socket socket m) d in
      (d', if taken then gone else gone ++ connection ∷ [])

  unfoldable pub route_sfu : ℕ → StreamOutput → Option ℕ → Driver C → Driver C
  unfolding try_send HashMap.remove
  route_sfu connection output none d = d
  route_sfu connection output (some session) d =
      let (d', taken) = try_send x takes (to_session session output) d in
      if taken
      then d'
      else record d' { sfu_sessions = HashMap.remove ℕ_discrete d.sfu_sessions connection }

  unfoldable pub route : BrowserOutput → Driver C → List ℕ → Driver C × List ℕ
  unfolding route_text route_sfu close_socket HashMap.get HashMap.remove
  route (BrowserOutput.text connection message) d gone =
      route_text connection (SocketOutput.text message)
        (HashMap.get ℕ_discrete d.sockets connection) d gone
  route (BrowserOutput.close connection) d gone = (
    close_socket x takes (HashMap.get ℕ_discrete d.sockets connection)
        (record d { sockets = HashMap.remove ℕ_discrete d.sockets connection }),
    gone ++ connection ∷ [],
  )
  route (BrowserOutput.sfu connection output) d gone =
      (route_sfu connection output (HashMap.get ℕ_discrete d.sfu_sessions connection) d, gone)

  -- The loop over `poll_write`.
  unfoldable pub drain_writes : ℕ → Driver C → List ℕ → Option (Driver C × List ℕ)
  unfolding route
  drain_writes zero d gone = none
  drain_writes (suc fuel) d gone = elim (x.poll_write d.collider) [
    | none ↦ some (d, gone)
    | some (output, c) ↦
        let (d', gone') = route output (record d { collider = c }) gone in
        drain_writes fuel d' gone'
  ]

  -- The loop over the connections that are gone.
  unfoldable pub drop_gone : List ℕ → Driver C → Driver C
  unfolding HashMap.remove
  drop_gone [] d = d
  drop_gone (connection ∷ rest) d = drop_gone rest (record d {
    collider = (x.handle_read d.collider (BrowserInput.disconnected connection)).0;
    sockets = HashMap.remove ℕ_discrete d.sockets connection;
  })

  unfoldable pub drain_outputs : ℕ → Driver C → Option (Driver C)
  unfolding drain_writes drop_gone sort dedup
  drain_outputs fuel d = elim (drain_writes fuel d []) [
    | none ↦ none
    | some (d', gone) ↦ some (drop_gone (dedup (sort gone)) d')
  ]

  -- One round of `drain_authority_responses`: a response that nobody waits for is dropped.
  unfoldable pub deliver_response : AuthorityResponse → Option ℕ → Driver C → Driver C
  unfolding answer HashMap.remove
  deliver_response response none d = d
  deliver_response response (some sender) d = answer x takes sender response (record d {
    pending_authority = HashMap.remove ℕ_discrete d.pending_authority response.request_id;
  })

  unfoldable pub drain_authority_responses : ℕ → Driver C → Option (Driver C)
  unfolding deliver_response HashMap.get
  drain_authority_responses zero d = none
  drain_authority_responses (suc fuel) d = elim (x.poll_event d.collider) [
    | none ↦ some d
    | some (response, c) ↦ drain_authority_responses fuel (
        deliver_response response (HashMap.get ℕ_discrete d.pending_authority response.request_id)
          (record d { collider = c }))
  ]

  unfoldable pub drain : ℕ → Driver C → Option (Driver C)
  unfolding drain_outputs drain_authority_responses
  drain fuel d = elim (drain_outputs fuel d) [
    | none ↦ none
    | some d' ↦ drain_authority_responses fuel d'
  ]

  -- What the loop of `run` wakes up for: a command, or the Collider's deadline.
  pub data Wake : Type 0 where
    command : DriverCommand I → Wake
    deadline : Wake

  -- A round, and whether the loop goes on: a deadline that the Collider fails at ends it undrained.
  unfoldable pub round : ℕ → Wake → Driver C → Option (Driver C × Bool)
  unfolding handle_command drain
  round fuel (command c) d = elim (drain fuel (handle_command x takes c d)) [
    | none ↦ none
    | some d' ↦ some (d', Bool.true)
  ]
  round fuel deadline d =
      let (c, accepted) = x.handle_timeout d.collider in
      let drained : Option (Driver C × Bool) = elim (drain fuel (record d { collider = c })) [
        | none ↦ none
        | some d' ↦ some (d', Bool.true)
      ] in
      if accepted then drained else some (record d { collider = c }, Bool.false)

  unfoldable pub run_loop : ℕ → List Wake → Driver C → Option (Driver C)
  unfolding round
  run_loop fuel [] d = some d
  run_loop fuel (wake ∷ rest) d = elim (round fuel wake d) [
    | none ↦ none
    | some (d', more) ↦ elim more [ Bool.true ↦ run_loop fuel rest d' | Bool.false ↦ some d' ]
  ]

  -- `run`: the rounds, then the commands that are queued at the stop, the Collider's close, and what
  -- is left to drain.
  unfoldable pub handle_queued : List (DriverCommand I) → Driver C → Driver C
  unfolding handle_command
  handle_queued [] d = d
  handle_queued (c ∷ rest) d = handle_queued rest (handle_command x takes c d)

  unfoldable pub stop : ℕ → List (DriverCommand I) → Driver C → Option (Driver C)
  unfolding handle_queued drain
  stop fuel queued d =
      let d' = handle_queued queued d in drain fuel (record d' { collider = x.close d'.collider })

  unfoldable pub run : ℕ → List Wake → List (DriverCommand I) → Driver C → Option (Driver C)
  unfolding run_loop stop
  run fuel wakes queued d = elim (run_loop fuel wakes d) [
    | none ↦ none
    | some d' ↦ stop fuel queued d'
  ]

  -- The commands among what the loop wakes up for.
  abbrev pub commands : List Wake → List (DriverCommand I)
  commands [] = []
  commands (command c ∷ ws) = c ∷ commands ws
  commands (deadline ∷ ws) = commands ws

  pub All-commands_first :
      (P : DriverCommand I → Type 0) (w : Wake) (ws : List Wake)
      → All P (commands (w ∷ ws))
      → All P (commands (w ∷ []))
  All-commands_first P (command c) ws a = (a.0, tt)
  All-commands_first P deadline ws a = tt

  pub All-commands_rest :
      (P : DriverCommand I → Type 0) (w : Wake) (ws : List Wake)
      → All P (commands (w ∷ ws))
      → All P (commands ws)
  All-commands_rest P (command c) ws a = a.1
  All-commands_rest P deadline ws a = a

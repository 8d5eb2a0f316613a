-- ===== src/Driver/Released.antt =====
-- What the operations of signaling_server.rs do to the sockets that the driver holds.
use apprtc.Prelude.{
  ℕ, zero, suc, ◌≡◌, ◌≢◌, refl, sym, ◌∙◌, subst, Option, some, some_inj, none, List, [], ◌∷◌, Bool,
  true, false, All, arith, ℕ_discrete, inl, inr, Option-cases, Bool-cases,
}
use apprtc.Prelude.HashMap.{HashMap}
use apprtc.Prelude.HashMap
use apprtc.Grpc.Stream.{StreamOutput}
use apprtc.Driver.{
  Collider, AuthorityCommand, AuthorityResponse, BrowserInput, BrowserOutput, DriverCommand, Sent,
  SocketOutput, Driver, try_send, answer, close_socket, refuse, handle_text, handle_connected,
  handle_authority, handle_sfu_connected, handle_command,
}
use apprtc.Driver.Loop.{
  Wake, command, deadline, route, route_text, route_sfu, drain_writes, drain_outputs,
  deliver_response, drain_authority_responses, drain, drop_gone, sort, dedup, round, run_loop,
  commands, All-commands_first, All-commands_rest,
}
use apprtc.Driver.Loop.Returns.{run_loop_total}
use apprtc.Driver.Loop.Kept.{IsKept, round_command_kept, round_deadline_kept}
use apprtc.Driver.Loop.Drains.{
  IsFinite, drain_writes_done, drain_writes_next, drain_events_done, drain_events_next, delivered,
  empty_fuel, empty_events,
}
pub mod After
pub mod Traffic

-- No socket is held for a connection.
abbrev pub IsReleased : {C : Type 0} → ℕ → Driver C → Type 0
IsReleased connection d = HashMap.get ℕ_discrete d.sockets connection ≡ none

get-remove_none :
    (m : HashMap ℕ ℕ) (k j : ℕ)
    → HashMap.get ℕ_discrete m j ≡ none
    → HashMap.get ℕ_discrete (HashMap.remove ℕ_discrete m k) j ≡ none
get-remove_none m k j h = elim (ℕ_discrete j k) [
  | yes e ↦
      subst (λ i. HashMap.get ℕ_discrete (HashMap.remove ℕ_discrete m k) i ≡ none) (sym e)
        (HashMap.get-remove_self ℕ_discrete m k)
  | no n ↦ HashMap.get-remove_ne ℕ_discrete m k n ∙ h
]

module _ {C I : Type 0} (x : Collider C I) (takes : List Sent → Sent → Bool) where
  sockets-try_send : (m : Sent) (d : Driver C) → (try_send x takes m d).0.sockets ≡ d.sockets
  unfolding try_send
  sockets-try_send m d = ground arith

  sockets-close_socket :
      (socket : Option ℕ) (d : Driver C) → (close_socket x takes socket d).sockets ≡ d.sockets
  unfolding close_socket
  sockets-close_socket none d = refl
  sockets-close_socket (some s) d = sockets-try_send (Sent.to_socket s SocketOutput.close) d

  sockets-route_text :
      (connection : ℕ) (m : SocketOutput) (socket : Option ℕ) (d : Driver C) (gone : List ℕ)
      → (route_text x takes connection m socket d gone).0.sockets ≡ d.sockets
  unfolding route_text
  sockets-route_text connection m none d gone = refl
  sockets-route_text connection m (some s) d gone = sockets-try_send (Sent.to_socket s m) d

  sockets-route_sfu :
      (connection : ℕ) (output : StreamOutput) (session : Option ℕ) (d : Driver C)
      → (route_sfu x takes connection output session d).sockets ≡ d.sockets
  unfolding route_sfu
  sockets-route_sfu connection output none d = refl
  sockets-route_sfu connection output (some s) d =
      let same = sockets-try_send (Sent.to_session s output) d in ground (arith, same)

  sockets-refuse : (c : AuthorityCommand) (d : Driver C) → (refuse x takes c d).sockets ≡ d.sockets
  unfolding refuse answer
  sockets-refuse c d = ground arith

  sockets-deliver_response :
      (r : AuthorityResponse) (sender : Option ℕ) (d : Driver C)
      → (deliver_response x takes r sender d).sockets ≡ d.sockets
  unfolding deliver_response answer
  sockets-deliver_response r none d = refl
  sockets-deliver_response r (some s) d = refl

  module _ (connection : ℕ) where
    -- The command does not announce the connection.
    abbrev pub Silent : DriverCommand I → Type 0
    Silent (DriverCommand.connected other _) = connection ≢ other
    Silent _ = Unit

    same_sockets :
        {m m' : HashMap ℕ ℕ}
        → m' ≡ m
        → HashMap.get ℕ_discrete m connection ≡ none
        → HashMap.get ℕ_discrete m' connection ≡ none
    same_sockets e h = subst (λ m. HashMap.get ℕ_discrete m connection ≡ none) (sym e) h

    IsReleased-route :
        (o : BrowserOutput) (d : Driver C) (gone : List ℕ)
        → IsReleased connection d
        → IsReleased connection (route x takes o d gone).0
    unfolding route
    IsReleased-route (BrowserOutput.text n message) d gone h =
        same_sockets
          (sockets-route_text n (SocketOutput.text message) (HashMap.get ℕ_discrete d.sockets n) d
            gone)
          h
    IsReleased-route (BrowserOutput.sfu n output) d gone h =
        same_sockets (sockets-route_sfu n output (HashMap.get ℕ_discrete d.sfu_sessions n) d) h
    IsReleased-route (BrowserOutput.close n) d gone h =
        same_sockets
          (sockets-close_socket (HashMap.get ℕ_discrete d.sockets n)
            (record d { sockets = HashMap.remove ℕ_discrete d.sockets n }))
          (get-remove_none d.sockets n connection h)

    pub IsReleased-IsKept : IsKept x takes (IsReleased connection)
    IsReleased-IsKept = record {
      moved = λ c d h. h;
      routed = IsReleased-route;
      dropped = λ n d h. get-remove_none d.sockets n connection h;
      responded = λ r c d h.
          same_sockets
            (sockets-deliver_response r (HashMap.get ℕ_discrete d.pending_authority r.request_id)
              (record d { collider = c }))
            h;
    }

    pub IsReleased-handle_command :
        (c : DriverCommand I) (d : Driver C)
        → Silent c
        → IsReleased connection d
        → IsReleased connection (handle_command x takes c d)
    unfolding handle_command handle_connected handle_text handle_authority handle_sfu_connected
    IsReleased-handle_command (DriverCommand.connected n output) d s h =
        let inserted = HashMap.get-insert_ne ℕ_discrete d.sockets n output s ∙ h in
        let removed = get-remove_none _ n connection inserted in
        elim (Bool-cases (x.handle_read d.collider (BrowserInput.connected n)).1) [
          | inl e ↦ rw e inserted
          | inr e ↦ rw e removed
        ]
    IsReleased-handle_command (DriverCommand.text n message) d s h =
        let (c, accepted) = x.handle_read d.collider (BrowserInput.text n message) in
        elim (Bool-cases accepted) [
          | inl e ↦ rw e h
          | inr e ↦ rw e (
              same_sockets
                (sockets-close_socket (HashMap.get ℕ_discrete d.sockets n)
                  (record d { collider = c; sockets = HashMap.remove ℕ_discrete d.sockets n }))
                (get-remove_none d.sockets n connection h))
        ]
    IsReleased-handle_command (DriverCommand.authority c sender) d s h =
        let (state, accepted) = x.handle_write d.collider c in
        let d' : Driver C = record d {
          collider = state;
          pending_authority = HashMap.insert ℕ_discrete d.pending_authority c.request_id sender;
        } in
        elim (Bool-cases accepted) [
          | inl e ↦ rw e h
          | inr e ↦ rw e (same_sockets (sockets-refuse c d') h)
        ]
    IsReleased-handle_command (DriverCommand.sfu_connected input output) d s h =
        elim (Option-cases (x.registering input)) [
          | inl e ↦ rw (e, handle_sfu_connected) h
          | inr (n, e) ↦ rw (e, handle_sfu_connected) h
        ]
    IsReleased-handle_command (DriverCommand.sfu_input input) d s h = h
    IsReleased-handle_command (DriverCommand.disconnected n) d s h =
        get-remove_none d.sockets n connection h

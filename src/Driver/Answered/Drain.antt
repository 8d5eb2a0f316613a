-- ===== src/Driver/Answered/Drain.antt =====
-- The drains of signaling_server.rs: the ledger of the operations over them.
use apprtc.Prelude.{
  ℕ, refl, Option, some, none, List, Bool, ℕ_discrete, inl, inr, Option-cases, Bool-cases,
}
use apprtc.Prelude.HashMap
use apprtc.Driver.{
  Collider, AuthorityResponse, BrowserOutput, Sent, to_session, Driver, SocketOutput, try_send,
}
use apprtc.Grpc.Stream.{StreamOutput}
use apprtc.Driver.Loop.{route, route_text, route_sfu, deliver_response}
use apprtc.Driver.Loop.Drains.{delivered}
use apprtc.Driver.Loop.Kept.{IsKept}
use apprtc.Driver.Answered.{
  Quiet, IsAnswered, IsAnswered-Quiet, IsAnswered-answer, Quiet-try_send_socket,
  Quiet-try_send_session, Quiet-close_socket,
}

module _ {C I : Type 0} (x : Collider C I) (takes : List Sent → Sent → Bool) where
  Quiet-route_text :
      (connection : ℕ) (m : SocketOutput) (socket : Option ℕ) (d : Driver C) (gone : List ℕ)
      → Quiet d (route_text x takes connection m socket d gone).0
  unfolding route_text
  Quiet-route_text connection m none d gone = (refl, refl)
  Quiet-route_text connection m (some s) d gone = Quiet-try_send_socket x takes s m d

  Quiet-route_sfu :
      (connection : ℕ) (output : StreamOutput) (session : Option ℕ) (d : Driver C)
      → Quiet d (route_sfu x takes connection output session d)
  unfolding route_sfu
  Quiet-route_sfu connection output none d = (refl, refl)
  Quiet-route_sfu connection output (some s) d =
      let q = Quiet-try_send_session x takes s output d in
      elim (Bool-cases (try_send x takes (to_session s output) d).1) [
        | inl e ↦ rw e q
        | inr e ↦ rw e q
      ]

  pub Quiet-route :
      (o : BrowserOutput) (d : Driver C) (gone : List ℕ) → Quiet d (route x takes o d gone).0
  unfolding route
  Quiet-route (BrowserOutput.text connection message) d gone =
      Quiet-route_text connection (SocketOutput.text message)
        (HashMap.get ℕ_discrete d.sockets connection) d gone
  Quiet-route (BrowserOutput.close connection) d gone =
      Quiet-close_socket x takes (HashMap.get ℕ_discrete d.sockets connection)
        (record d { sockets = HashMap.remove ℕ_discrete d.sockets connection })
  Quiet-route (BrowserOutput.sfu connection output) d gone =
      Quiet-route_sfu connection output (HashMap.get ℕ_discrete d.sfu_sessions connection) d

  module _ (asked handed : ℕ → ℕ) where
    IsAnswered-deliver_response :
        (response : AuthorityResponse) (c : C) (d : Driver C)
        → IsAnswered asked handed d
        → IsAnswered asked handed (delivered x takes response c d)
    unfolding deliver_response
    IsAnswered-deliver_response response c d v =
        let v' = IsAnswered-Quiet asked handed d (record d { collider = c }) (refl, refl) v in
        elim (Option-cases (HashMap.get ℕ_discrete d.pending_authority response.request_id)) [
          | inl e ↦ rw (e, deliver_response) v'
          | inr (sender, e) ↦
              rw (e, deliver_response)
                (IsAnswered-answer x takes asked handed response.request_id sender response
                  (record d { collider = c }) e refl v')
        ]

    pub IsAnswered-IsKept : IsKept x takes (IsAnswered asked handed)
    IsAnswered-IsKept = record {
      moved = λ c d v. IsAnswered-Quiet asked handed d (record d { collider = c }) (refl, refl) v;
      routed = λ o d gone v. IsAnswered-Quiet asked handed _ _ (Quiet-route o d gone) v;
      dropped = λ n d v. IsAnswered-Quiet asked handed d _ (refl, refl) v;
      responded = IsAnswered-deliver_response;
    }

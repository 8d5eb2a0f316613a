-- ===== src/Driver/Answered.antt =====
-- handle_command of signaling_server.rs: the ledger of the operations over one command.
use apprtc.Prelude.{
  ℕ, zero, suc, String, ◌+◌, ◌≤◌, ◌≡◌, refl, sym, ◌∙◌, ap, subst, Option, some, some_inj, none,
  List, [], ◌∷◌, ◌++◌, Bool, true, false, All, All-append, arith, ite, ℕ_discrete, inl, inr,
  Option-cases, Bool-cases,
}
use mathlib.Core.List.{append-nil}
use apprtc.Prelude.HashMap
use apprtc.Driver.{
  Collider, AuthorityCommand, AuthorityResponse, BrowserInput, BrowserOutput, DriverCommand, Sent,
  to_socket, to_session, answered, Driver, SocketOutput, try_send, answer, close_socket, refuse,
  handle_text, handle_connected, handle_authority, handle_sfu_connected, handle_command, internal,
}
use apprtc.Grpc.Stream.{StreamOutput}
use apprtc.Driver.Ledger.{
  answers, answers-append, waits, given, given-append, waits-insert, waits-remove, Waits, Answers,
  Waits-insert, Waits-remove, asked-get,
}
pub mod Drain
pub mod Whole
pub mod Due
pub mod Round

-- Nothing changes for the operations.
abbrev pub Quiet : {C : Type 0} → Driver C → Driver C → Type 0
Quiet d d' = (d'.pending_authority ≡ d.pending_authority) × (answers d'.sent ≡ answers d.sent)

-- `asked` says under which request id each channel asks. Where a channel waits or was answered it is
-- under that id, and it does so at most as often as it was handed in.
pub record IsAnswered {C : Type 0} (asked handed : ℕ → ℕ) (d : Driver C) : Type 0 where
  pub waiting : Waits asked d.pending_authority
  pub correlated : Answers asked (answers d.sent)
  pub once : (s : ℕ) → waits s d.pending_authority + given s (answers d.sent) ≤ handed s

-- How often a command hands a channel in, and that it asks under the right id.
abbrev pub hands : {I : Type 0} → ℕ → DriverCommand I → ℕ
hands s (DriverCommand.authority _ sender) = ite (ℕ_discrete sender s) 1 0
hands s _ = 0

abbrev pub Asks : {I : Type 0} → (ℕ → ℕ) → DriverCommand I → Type 0
Asks asked (DriverCommand.authority command sender) = asked sender ≡ command.request_id
Asks asked _ = Unit

module _ {C : Type 0} (asked handed : ℕ → ℕ) where
  pub IsAnswered-Quiet :
      (d d' : Driver C) → Quiet d d' → IsAnswered asked handed d → IsAnswered asked handed d'
  IsAnswered-Quiet d d' q v = record {
    waiting = subst (Waits asked) (sym q.0) v.waiting;
    correlated = subst (Answers asked) (sym q.1) v.correlated;
    once = λ s. ground (arith, v.once s, ap (waits s) q.0, ap (given s) q.1);
  }

module _ {C I : Type 0} (x : Collider C I) (takes : List Sent → Sent → Bool) where
  pub Quiet-try_send_socket :
      (socket : ℕ) (m : SocketOutput) (d : Driver C)
      → Quiet d (try_send x takes (to_socket socket m) d).0
  unfolding try_send
  Quiet-try_send_socket socket m d = (
    ground arith,
    elim (Bool-cases (takes d.sent (to_socket socket m))) [
      | inl e ↦ rw e (answers-append d.sent (to_socket socket m ∷ []) ∙ append-nil (answers d.sent))
      | inr e ↦ rw e
    ],
  )

  pub Quiet-try_send_session :
      (session : ℕ) (m : StreamOutput) (d : Driver C)
      → Quiet d (try_send x takes (to_session session m) d).0
  unfolding try_send
  Quiet-try_send_session session m d = (
    ground arith,
    elim (Bool-cases (takes d.sent (to_session session m))) [
      | inl e ↦
          rw e (answers-append d.sent (to_session session m ∷ []) ∙ append-nil (answers d.sent))
      | inr e ↦ rw e
    ],
  )

  pub Quiet-close_socket :
      (socket : Option ℕ) (d : Driver C) → Quiet d (close_socket x takes socket d)
  unfolding close_socket
  Quiet-close_socket none d = (refl, refl)
  Quiet-close_socket (some socket) d = Quiet-try_send_socket socket SocketOutput.close d

  Quiet-handle_text :
      (connection : ℕ) (message : String) (d : Driver C)
      → Quiet d (handle_text x takes connection message d)
  unfolding handle_text
  Quiet-handle_text connection message d =
      let (c, accepted) = x.handle_read d.collider (BrowserInput.text connection message) in
      elim (Bool-cases accepted) [
        | inl e ↦ rw e (refl, refl)
        | inr e ↦ rw e (
            Quiet-close_socket (HashMap.get ℕ_discrete d.sockets connection)
              (record d { collider = c; sockets = HashMap.remove ℕ_discrete d.sockets connection }))
      ]

  module _ (asked handed : ℕ → ℕ) where
    -- An answer takes its channel out of those that wait.
    pub IsAnswered-answer :
        (k sender : ℕ) (r : AuthorityResponse) (d : Driver C)
        → HashMap.get ℕ_discrete d.pending_authority k ≡ some sender
        → r.request_id ≡ k
        → IsAnswered asked handed d
        → IsAnswered asked handed (
            answer x takes sender r
              (record d { pending_authority = HashMap.remove ℕ_discrete d.pending_authority k }))
    unfolding answer
    IsAnswered-answer k sender r d found same v = record {
      waiting = Waits-remove asked d.pending_authority k v.waiting;
      correlated = subst (Answers asked) (sym (answers-append d.sent (answered sender r ∷ []))) (
          All-append (λ a. asked a.0 ≡ a.1.request_id) (answers d.sent) ((sender, r) ∷ [])
            v.correlated
            (asked-get asked d.pending_authority k sender v.waiting found ∙ sym same, tt));
      once = λ s. omega (
        arith,
        v.once s,
        waits-remove s d.pending_authority k sender found,
        ap (given s) (answers-append d.sent (answered sender r ∷ [])),
        given-append s (answers d.sent) ((sender, r) ∷ []),
      );
    }

    IsAnswered-refuse :
        (c : AuthorityCommand) (d : Driver C)
        → IsAnswered asked handed d
        → IsAnswered asked handed (refuse x takes c d)
    unfolding refuse
    IsAnswered-refuse c d v =
        elim (Option-cases (HashMap.get ℕ_discrete d.pending_authority c.request_id)) [
          | inl e ↦ rw (e, refuse) v
          | inr (sender, e) ↦
              rw (e, refuse)
                (IsAnswered-answer c.request_id sender (internal c.request_id) d e refl v)
        ]

  IsAnswered-handle_authority :
      (asked handed : ℕ → ℕ) (command : AuthorityCommand) (sender : ℕ) (d : Driver C)
      → asked sender ≡ command.request_id
      → IsAnswered asked handed d
      → IsAnswered asked
          (λ s. handed s + ite (ℕ_discrete sender s) 1 0)
          (handle_authority x takes command sender d)
  unfolding handle_authority
  IsAnswered-handle_authority asked handed command sender d e v =
      let (c, accepted) = x.handle_write d.collider command in
      let d' : Driver C = record d {
        collider = c;
        pending_authority = HashMap.insert ℕ_discrete d.pending_authority command.request_id sender;
      } in
      let v' : IsAnswered asked (λ s. handed s + ite (ℕ_discrete sender s) 1 0) d' = record {
        waiting = Waits-insert asked d.pending_authority command.request_id sender v.waiting e;
        correlated = v.correlated;
        once = λ s.
            omega (arith, v.once s, waits-insert s d.pending_authority command.request_id sender);
      } in
      elim (Bool-cases accepted) [
        | inl t ↦ rw t v'
        | inr f ↦
            rw f (
              IsAnswered-refuse asked (λ s. handed s + ite (ℕ_discrete sender s) 1 0) command d' v')
      ]

  pub IsAnswered-more :
      (asked handed more : ℕ → ℕ) (d : Driver C)
      → ((s : ℕ) → handed s ≤ more s)
      → IsAnswered asked handed d
      → IsAnswered asked more d
  IsAnswered-more asked handed more d le v = record {
    waiting = v.waiting;
    correlated = v.correlated;
    once = λ s. omega (arith, v.once s, le s);
  }

  -- A command hands in its channel, and nothing else changes for the operations but a refusal.
  pub IsAnswered-handle_command :
      (asked handed : ℕ → ℕ) (c : DriverCommand I) (d : Driver C)
      → Asks asked c
      → IsAnswered asked handed d
      → IsAnswered asked (λ s. handed s + hands s c) (handle_command x takes c d)
  unfolding handle_command handle_connected handle_sfu_connected
  IsAnswered-handle_command asked handed (DriverCommand.authority command sender) d e v =
      IsAnswered-handle_authority asked handed command sender d e v
  IsAnswered-handle_command asked handed (DriverCommand.text connection message) d e v =
      IsAnswered-more asked handed _ _ (λ s. omega arith)
        (IsAnswered-Quiet asked handed d _ (Quiet-handle_text connection message d) v)
  IsAnswered-handle_command asked handed (DriverCommand.connected connection output) d e v =
      IsAnswered-more asked handed _ _ (λ s. omega arith)
        (IsAnswered-Quiet asked handed d _ (refl, refl) v)
  IsAnswered-handle_command asked handed (DriverCommand.disconnected connection) d e v =
      IsAnswered-more asked handed _ _ (λ s. omega arith)
        (IsAnswered-Quiet asked handed d _ (refl, refl) v)
  IsAnswered-handle_command asked handed (DriverCommand.sfu_input input) d e v =
      IsAnswered-more asked handed _ _ (λ s. omega arith)
        (IsAnswered-Quiet asked handed d _ (refl, refl) v)
  IsAnswered-handle_command asked handed (DriverCommand.sfu_connected input output) d e v =
      IsAnswered-more asked handed _ _ (λ s. omega arith)
        (IsAnswered-Quiet asked handed d _ (ground arith, ground arith) v)

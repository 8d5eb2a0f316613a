-- ===== src/Room/Simulates/Handlers.antt =====
-- The handlers of room_server.rs over two authorities that answer alike.
use apprtc.Prelude.{
  ℕ, zero, suc, String, Text, ◌+◌, ◌≡◌, refl, Option, some, Result, Result-cases, Option-cases,
  Bool-cases, inl, inr, subst, ◌∙◌, str_eq, ltb, ◌&&◌, ap, arith,
}
use apprtc.RoomId.{RoomId}
use apprtc.Room.Server.{RoomAuthority, Inner}
use apprtc.Room.Handlers.{
  leave, message, bridge_post, bridge_delete, v2_leave, canonical_u64, bearer_token,
}
use apprtc.Room.Join.{attempts, client_id_attempts, join_room, join_response, v2_join_handler}
use apprtc.Room.Simulates.{IsMatched, Simulates, IsAlike, fewer_by}

abbrev pub inner : {S : Type 0} → S → ℕ → Inner S
inner s h = record { authority = s; http_errors = h }

module _ {S T : Type 0} (valid : RoomId → Type 0) (R : ℕ → S → T → Type 0) (a : RoomAuthority S)
    (b : RoomAuthority T) (m : Simulates valid R a b) where
  pub leave-IsAlike :
      (room client : String) (n h : ℕ) (s : S) (t : T)
      → R (n + 1) s t
      → IsAlike (R n) (leave a room client (inner s h)) (leave b room client (inner t h))
  unfolding leave
  leave-IsAlike room client n h s t r =
      let (after, same) = m.remove room client n s t r in
      elim (Result-cases (b.remove room client t).1) [
        | inl (v, e) ↦ rw (same ∙ e, leave) (rw (e, leave) (after, refl, refl))
        | inr (v, e) ↦ rw (same ∙ e, leave) (rw (e, leave) (after, refl, refl))
      ]

  pub message-IsAlike :
      (room client body : String) (n h : ℕ) (s : S) (t : T)
      → R (n + 1) s t
      → IsAlike
          (R n)
          (message a room client body (inner s h))
          (message b room client body (inner t h))
  unfolding message
  message-IsAlike room client body n h s t r =
      let (after, same) = m.inject room client body n s t r in
      rw (same, message) (after, refl, refl)

  pub bridge_post-IsAlike :
      (failed : String → String) (room client body : String) (n h : ℕ) (s : S) (t : T)
      → R (n + 1) s t
      → IsAlike
          (R n)
          (bridge_post a failed room client body (inner s h))
          (bridge_post b failed room client body (inner t h))
  unfolding bridge_post
  bridge_post-IsAlike failed room client body n h s t r =
      let (after, same) = m.inject room client body n s t r in
      elim (Bool-cases (str_eq body "")) [
        | inl empty ↦ rw (empty, bridge_post) (m.fewer n s t r, refl, refl)
        | inr given ↦
            rw (given, bridge_post)
              (elim (Result-cases (b.inject room client body t).1) [
                | inl (v, e) ↦ rw (same ∙ e, bridge_post) (rw (e, bridge_post) (after, refl, refl))
                | inr (v, e) ↦ rw (same ∙ e, bridge_post) (rw (e, bridge_post) (after, refl, refl))
              ])
      ]

  pub bridge_delete-IsAlike :
      (room client : String) (n h : ℕ) (s : S) (t : T)
      → R (n + 1) s t
      → IsAlike
          (R n)
          (bridge_delete a room client (inner s h))
          (bridge_delete b room client (inner t h))
  unfolding bridge_delete
  bridge_delete-IsAlike room client n h s t r =
      let (after, same) = m.remove room client n s t r in
      elim (Result-cases (b.remove room client t).1) [
        | inl (v, e) ↦ rw (same ∙ e, bridge_delete) (rw (e, bridge_delete) (after, refl, refl))
        | inr (v, e) ↦ rw (same ∙ e, bridge_delete) (rw (e, bridge_delete) (after, refl, refl))
      ]

  pub v2_leave-IsAlike :
      (parse : String → Option RoomId) (string_of : Text → String) (room : String) (client : Text)
      (authorization : Option Text) (n h : ℕ) (s : S) (t : T)
      → ((token : String) (id : RoomId) → parse token ≡ some id → valid id)
      → R (n + 1) s t
      → IsAlike
          (R n)
          (v2_leave a parse string_of room client authorization (inner s h))
          (v2_leave b parse string_of room client authorization (inner t h))
  unfolding v2_leave
  v2_leave-IsAlike parse string_of room client authorization n h s t parsed r =
      elim (Option-cases (parse room)) [
        | inl p ↦ rw (p, v2_leave) (m.fewer n s t r, refl, refl)
        | inr (id, p) ↦ elim (Option-cases (canonical_u64 client)) [
          | inl q ↦ rw (p, v2_leave) (rw (q, v2_leave) (m.fewer n s t r, refl, refl))
          | inr (number, q) ↦ elim (Option-cases (bearer_token authorization)) [
            | inl u ↦
                rw (p, v2_leave) (rw (q, v2_leave) (rw (u, v2_leave) (m.fewer n s t r, refl, refl)))
            | inr (token, u) ↦
                let (after, same) =
                  m.remove_v2 id number (string_of token) n s t (parsed room id p) r in
                rw (p, v2_leave)
                  (rw (q, v2_leave) (rw (u, v2_leave) (rw (same, v2_leave) (after, refl, refl))))
          ]
        ]
      ]

  attempts-IsMatched :
      (client_id : ℕ → ℕ) (room : RoomId) (left attempt n : ℕ) (s : S) (t : T)
      → valid room
      → R (n + left) s t
      → IsMatched
          (R n)
          (attempts a client_id room left attempt s)
          (attempts b client_id room left attempt t)
  unfolding attempts
  attempts-IsMatched client_id room zero attempt n s t v r =
      (subst (λ i. R i s t) (omega arith) r, refl)
  attempts-IsMatched client_id room (suc left) attempt n s t v r =
      let (after, same) =
        m.admit_v2 room (client_id attempt) (n + left) s t v
          (subst (λ i. R i s t) (omega arith) r) in
      let s' = (a.admit_v2 room (client_id attempt) s).0 in
      let t' = (b.admit_v2 room (client_id attempt) t).0 in
      let rest = attempts-IsMatched client_id room left (attempt + 1) n s' t' v after in
      let stop : R n s' t' = fewer_by valid R a b m left n s' t' after in
      elim (Result-cases (b.admit_v2 room (client_id attempt) t).1) [
        | inl (admission, f) ↦ rw (same ∙ f, attempts) (rw (f, attempts) (stop, refl))
        | inr (error, f) ↦
            elim (Bool-cases (str_eq error "DUPLICATE_CLIENT" && ltb attempt client_id_attempts)) [
              | inl again ↦ rw (same ∙ f, attempts) (rw (f, attempts) (rw (again, attempts) rest))
              | inr done ↦
                  rw (same ∙ f, attempts) (rw (f, attempts) (rw (done, attempts) (stop, refl)))
            ]
      ]

  pub v2_join_handler-IsAlike :
      (parse : String → Option RoomId) (client_id : ℕ → ℕ) (room : String)
      (request : Result (String × String) String) (n h : ℕ) (s : S) (t : T)
      → ((token : String) (id : RoomId) → parse token ≡ some id → valid id)
      → R (n + client_id_attempts) s t
      → IsAlike
          (R n)
          (v2_join_handler a parse client_id room request (inner s h))
          (v2_join_handler b parse client_id room request (inner t h))
  unfolding v2_join_handler join_room
  v2_join_handler-IsAlike parse client_id room request n h s t parsed r =
      let stop = fewer_by valid R a b m client_id_attempts n s t r in
      elim (Option-cases (parse room)) [
        | inl p ↦ rw (p, v2_join_handler) (stop, refl, refl)
        | inr (id, p) ↦
            rw (p, v2_join_handler)
              (elim (Result-cases request) [
                | inr (error, q) ↦ rw (q, v2_join_handler) (stop, refl, refl)
                | inl (links, q) ↦
                    let (after, same) =
                      attempts-IsMatched client_id id client_id_attempts 1 n s t (parsed room id p)
                        r in
                    rw (q, v2_join_handler) (after, refl, ap (join_response room links) same)
              ])
      ]

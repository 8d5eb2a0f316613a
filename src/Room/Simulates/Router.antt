-- ===== src/Room/Simulates/Router.antt =====
-- The router of room_server.rs over two authorities that answer alike.
use apprtc.Prelude.{
  ℕ, String, Text, ◌+◌, ◌*◌, ◌≡◌, refl, ap, ◌∙◌, subst, Option, some, List, [], ◌∷◌, arith,
  Option-cases, inl, inr, length,
}
use apprtc.RoomId.{RoomId}
use apprtc.Params.{Config}
use apprtc.Room.Server.{RoomAuthority, Inner, Response}
use apprtc.Room.Join.{client_id_attempts}
use apprtc.Room.Pages.{
  External, Request, main_page, v2_room_page, get_params, v2_params, ice_config_page,
}
use apprtc.Room.Router.{
  Route, at_root, at_room, at_v2_room, at_join, at_v2_join, at_leave, at_v2_leave, at_message,
  at_params, at_v2_params, at_iceconfig, at_status, post_bridge, delete_bridge, links, answered,
  serve, serve_all,
}
use apprtc.Room.Simulates.{Simulates, IsAlike, fewer_by}
use apprtc.Room.Simulates.Handlers.{
  inner, leave-IsAlike, message-IsAlike, bridge_post-IsAlike, bridge_delete-IsAlike,
  v2_leave-IsAlike, v2_join_handler-IsAlike,
}
use apprtc.Room.Simulates.Pages.{
  status-IsAlike, room_page-IsAlike, join-IsAlike, rendered-IsAlike, with_context-IsAlike,
}

module _ (e : External) (config : Config) (parse_room_token : String → Option RoomId)
    (string_of : Text → String) (failed : String → String) {S T : Type 0} (valid : RoomId → Type 0)
    (R : ℕ → S → T → Type 0) (a : RoomAuthority S) (b : RoomAuthority T) (m : Simulates valid R a b)
    (parsed : (token : String) (id : RoomId) → parse_room_token token ≡ some id → valid id) where
  some_answer :
      (n : ℕ) (p : Inner S × Response) (q : Inner T × Response)
      → IsAlike (R n) p q
      → IsAlike
          (R n)
          (answered e config parse_room_token string_of failed a p)
          (answered e config parse_room_token string_of failed b q)
  some_answer n p q (r, counted, same) = (r, counted, ap (λ i. some i) same)

  one : (n : ℕ) (s : S) (t : T) → R (n + client_id_attempts) s t → R (n + 1) s t
  one n s t r = fewer_by valid R a b m 7 (n + 1) s t (subst (λ i. R i s t) (omega arith) r)

  none_used : (n : ℕ) (s : S) (t : T) → R (n + client_id_attempts) s t → R n s t
  none_used n s t r = m.fewer n s t (one n s t r)

  v2_room_page-IsAlike :
      (room : String) (request : Request) (n h : ℕ) (s : S) (t : T)
      → R n s t
      → IsAlike
          (R n)
          (v2_room_page e config parse_room_token room request (inner s h))
          (v2_room_page e config parse_room_token room request (inner t h))
  unfolding v2_room_page
  v2_room_page-IsAlike room request n h s t r = elim (Option-cases (parse_room_token room)) [
    | inl p ↦ rw (p, v2_room_page) (r, refl, refl)
    | inr (id, p) ↦
        rw (p, v2_room_page)
          (with_context-IsAlike valid R a b m e config request _ _ n h s t r
            (λ host url. rendered-IsAlike valid R a b m e config _ _ n h s t r))
  ]

  serve-IsAlike :
      (route : Route) (request : Request) (n h : ℕ) (s : S) (t : T)
      → R (n + client_id_attempts) s t
      → IsAlike
          (R n)
          (serve e config parse_room_token string_of failed a route request (inner s h))
          (serve e config parse_room_token string_of failed b route request (inner t h))
  unfolding serve main_page get_params v2_params ice_config_page
  serve-IsAlike at_root request n h s t r = some_answer n _ _ (
      with_context-IsAlike valid R a b m e config request _ _ n h s t (none_used n s t r)
        (λ host url. rendered-IsAlike valid R a b m e config _ _ n h s t (none_used n s t r)))
  serve-IsAlike (at_room room) request n h s t r =
      some_answer n _ _
        (room_page-IsAlike valid R a b m e config room request n h s t (one n s t r))
  serve-IsAlike (at_v2_room room) request n h s t r =
      some_answer n _ _ (v2_room_page-IsAlike room request n h s t (none_used n s t r))
  serve-IsAlike (at_join client room) request n h s t r =
      some_answer n _ _
        (join-IsAlike valid R a b m e config client room request n h s t (one n s t r))
  serve-IsAlike (at_v2_join client_id room) request n h s t r =
      v2_join_handler-IsAlike valid R a b m parse_room_token client_id room
        (links e config parse_room_token string_of failed a room request) n h s t parsed r
  serve-IsAlike (at_leave room client) request n h s t r =
      some_answer n _ _ (leave-IsAlike valid R a b m room client n h s t (one n s t r))
  serve-IsAlike (at_v2_leave room client authorization) request n h s t r = some_answer n _ _ (
      v2_leave-IsAlike valid R a b m parse_room_token string_of room client authorization n h s t
        parsed (one n s t r))
  serve-IsAlike (at_message room client body) request n h s t r =
      some_answer n _ _ (message-IsAlike valid R a b m room client body n h s t (one n s t r))
  serve-IsAlike at_params request n h s t r = some_answer n _ _ (
      with_context-IsAlike valid R a b m e config request _ _ n h s t (none_used n s t r)
        (λ host url. (none_used n s t r, refl, refl)))
  serve-IsAlike at_v2_params request n h s t r = some_answer n _ _ (
      with_context-IsAlike valid R a b m e config request _ _ n h s t (none_used n s t r)
        (λ host url. (none_used n s t r, refl, refl)))
  serve-IsAlike at_iceconfig request n h s t r = (none_used n s t r, refl, refl)
  serve-IsAlike (at_status up) request n h s t r =
      some_answer n _ _ (status-IsAlike valid R a b m e config up n h s t (one n s t r))
  serve-IsAlike (post_bridge room client body) request n h s t r =
      some_answer n _ _
        (bridge_post-IsAlike valid R a b m failed room client body n h s t (one n s t r))
  serve-IsAlike (delete_bridge room client) request n h s t r =
      some_answer n _ _ (bridge_delete-IsAlike valid R a b m room client n h s t (one n s t r))

  -- Where an authority answers like another for as many calls as the requests may need, eight for
  -- each, the responses to all of them are the same, and so is the count of HTTP errors.
  pub serve_all-IsAlike :
      (calls : List (Route × Request)) (n h : ℕ) (s : S) (t : T)
      → R (n + length calls * client_id_attempts) s t
      → IsAlike
          (R n)
          (serve_all e config parse_room_token string_of failed a calls (inner s h))
          (serve_all e config parse_room_token string_of failed b calls (inner t h))
  unfolding serve_all
  serve_all-IsAlike [] n h s t r = (subst (λ i. R i s t) (omega arith) r, refl, refl)
  serve_all-IsAlike ((route, request) ∷ calls) n h s t r =
      let more = length calls * client_id_attempts in
      let p = serve e config parse_room_token string_of failed a route request (inner s h) in
      let q = serve e config parse_room_token string_of failed b route request (inner t h) in
      let (after, counted, same) =
        serve-IsAlike route request (n + more) h s t (subst (λ i. R i s t) (omega arith) r) in
      let (r', counted', same') =
        subst
          (λ i.
            IsAlike (R n) (serve_all e config parse_room_token string_of failed a calls p.0) (
              serve_all e config parse_room_token string_of failed b calls (inner q.0.authority i)))
          counted (serve_all-IsAlike calls n p.0.http_errors p.0.authority q.0.authority after) in
      (
        r',
        counted',
        ap (λ i. i ∷ (serve_all e config parse_room_token string_of failed a calls p.0).1) same
            ∙ ap (◌∷◌ q.1) same',
      )

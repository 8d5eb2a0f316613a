-- ===== src/Room/Router/Counted.antt =====
-- The count of HTTP errors over any sequence of requests.
use apprtc.Prelude.{
  ℕ, String, Text, ◌+◌, ◌%◌, ◌≡◌, Option, some, none, List, [], ◌∷◌, Result, arith, Option-cases,
  Result-cases, inl, inr,
}
use apprtc.RoomId.{RoomId}
use apprtc.Std.Parse.{u64_mod}
use apprtc.Params.{Config}
use apprtc.Room.Server.{RoomAuthority, Response, Inner, http_error}
use apprtc.Room.Join.{
  Joined, admitted, rejected, exhausted, v2_join_handler, join_room, join_response,
}
use apprtc.Room.Handlers.{message}
use apprtc.Room.Handlers.Errors.{errors, handlers-Counts}
use apprtc.Room.Pages.{External, Request, ice_config_page}
use apprtc.Room.Pages.Counted.{
  Counts-main_page, Counts-v2_room_page, Counts-get_params, Counts-room_page, Counts-join,
  Counts-status,
}
use apprtc.Room.Router.{
  Route, at_root, at_room, at_v2_room, at_join, at_v2_join, at_leave, at_v2_leave, at_message,
  at_params, at_v2_params, at_iceconfig, at_status, post_bridge, delete_bridge, serve, serve_all,
}

-- How many HTTP errors are among the answers.
abbrev pub errors_of : Option Response → ℕ
errors_of none = 0
errors_of (some r) = errors r

abbrev pub total_errors : List (Option Response) → ℕ
total_errors [] = 0
total_errors (r ∷ rs) = errors_of r + total_errors rs

abbrev CountsOption : {S : Type 0} → Inner S → Inner S × Option Response → Type 0
CountsOption s (s', r) = s'.http_errors ≡ (s.http_errors + errors_of r) % u64_mod

module _ {S : Type 0} (a : RoomAuthority S) where
  errors-join_response :
      (roomid : String) (l : String × String) (j : Joined)
      → errors_of (join_response roomid l j) ≡ 0
  unfolding join_response
  errors-join_response roomid l (admitted client admission) = ground arith
  errors-join_response roomid l (rejected error) = ground arith
  errors-join_response roomid l exhausted = ground arith

  Counts-v2_join_handler :
      (parse_room_token : String → Option RoomId) (client_id : ℕ → ℕ) (roomid : String)
      (request : Result (String × String) String) (s : Inner S)
      → s.http_errors % u64_mod ≡ s.http_errors
      → CountsOption s (v2_join_handler a parse_room_token client_id roomid request s)
  unfolding v2_join_handler http_error join_room
  Counts-v2_join_handler parse_room_token client_id roomid request s h =
      elim (Option-cases (parse_room_token roomid)) [
        | inl r ↦ rw (r, v2_join_handler) (ground (arith, h))
        | inr (room, r) ↦ elim (Result-cases request) [
          | inl (l, q) ↦ ground (arith, h, r, q, errors-join_response roomid l)
          | inr (message, q) ↦ ground (arith, h, r, q)
        ]
      ]

module _ (e : External) (config : Config) (parse_room_token : String → Option RoomId)
    (string_of : Text → String) (failed : String → String) {S : Type 0} (a : RoomAuthority S) where
  Counts-serve :
      (route : Route) (request : Request) (s : Inner S)
      → s.http_errors % u64_mod ≡ s.http_errors
      → CountsOption s (serve e config parse_room_token string_of failed a route request s)
  unfolding serve ice_config_page
  Counts-serve at_root request s h = Counts-main_page e config request s h
  Counts-serve (at_room roomid) request s h = Counts-room_page e config a roomid request s h
  Counts-serve (at_v2_room roomid) request s h =
      Counts-v2_room_page e config parse_room_token roomid request s h
  Counts-serve (at_join client roomid) request s h =
      Counts-join e config a client roomid request s h
  Counts-serve (at_v2_join client_id roomid) request s h =
      Counts-v2_join_handler a parse_room_token client_id roomid _ s h
  Counts-serve (at_leave roomid clientid) request s h =
      (handlers-Counts a failed parse_room_token string_of roomid clientid "" [] none s h).0
  Counts-serve (at_v2_leave roomid clientid authorization) request s h =
      (handlers-Counts a failed parse_room_token string_of roomid "" "" clientid authorization s
        h).4
  Counts-serve (at_message roomid clientid body) request s h =
      (handlers-Counts a failed parse_room_token string_of roomid clientid body [] none s h).1
  Counts-serve at_params request s h = (Counts-get_params e config request s h).0
  Counts-serve at_v2_params request s h = (Counts-get_params e config request s h).1
  Counts-serve at_iceconfig request s h = ground (arith, h)
  Counts-serve (at_status up_time_sec) request s h = Counts-status e config a up_time_sec s h
  Counts-serve (post_bridge roomid clientid body) request s h =
      (handlers-Counts a failed parse_room_token string_of roomid clientid body [] none s h).2
  Counts-serve (delete_bridge roomid clientid) request s h =
      (handlers-Counts a failed parse_room_token string_of roomid clientid "" [] none s h).3

  -- While the count of HTTP errors is a u64, it grows over any sequence of requests, whichever their
  -- routes and whatever the authority answers, by the answers with the status 500 among them, modulo
  -- 2 ^ 64: a handler that panics adds nothing.
  pub http_errors-serve_all :
      (calls : List (Route × Request)) (s : Inner S)
      → s.http_errors % u64_mod ≡ s.http_errors
      → (serve_all e config parse_room_token string_of failed a calls s).0.http_errors
        ≡ (s.http_errors
            + total_errors (serve_all e config parse_room_token string_of failed a calls s).1)
          % u64_mod
  unfolding serve_all
  http_errors-serve_all [] s h = omega (arith, h)
  http_errors-serve_all ((route, request) ∷ calls) s h =
      let (s', response) = serve e config parse_room_token string_of failed a route request s in
      let one = Counts-serve route request s h in
      let bounded : s'.http_errors % u64_mod ≡ s'.http_errors = omega (arith, one) in
      let rest = http_errors-serve_all calls s' bounded in omega (arith, one, rest)

-- ===== src/Room/Router.antt =====
-- The router of room_server.rs: which handler a request comes to. How a URI is matched belongs to the
-- library; the static files are its services.
use apprtc.Prelude.{ℕ, String, Text, codes, Option, some, none, List, [], ◌∷◌, Result, map_ok}
use apprtc.RoomId.{RoomId}
use apprtc.Params.{Config, Url, build_v2_room_parameters}
use apprtc.Room.Server.{RoomAuthority, Response, Inner}
use apprtc.Room.Join.{v2_join_handler}
use apprtc.Room.Handlers.{leave, message, bridge_post, bridge_delete, v2_leave}
use apprtc.Room.Pages.{
  External, Request, request_context, main_page, v2_room_page, get_params, v2_params,
  ice_config_page, room_page, join, status,
}
pub mod Counted
pub mod Answers

-- The routes, with their path segments and bodies. V1 join has the digits that are drawn for it, V2
-- join the client ids, V2 leave the Authorization header, and the status the uptime.
pub data Route : Type 0 where
  at_root at_params at_v2_params at_iceconfig : Route
  at_room at_v2_room : String → Route
  at_join : String → String → Route
  at_v2_join : (ℕ → ℕ) → String → Route
  at_leave delete_bridge : String → String → Route
  at_v2_leave : String → Text → Option Text → Route
  at_message post_bridge : String → String → String → Route
  at_status : ℕ → Route

module _ (e : External) (config : Config) (parse_room_token : String → Option RoomId)
    (string_of : Text → String) (failed : String → String) {S : Type 0} (a : RoomAuthority S) where
  -- The room link and the WebSocket address that V2 join answers with.
  unfoldable pub links : String → Request → Result (String × String) String
  unfolding request_context build_v2_room_parameters
  links roomid request =
      map_ok
        (λ (host, url).
          let p = build_v2_room_parameters e.must_json config host url (codes roomid) in
          (string_of p.room_link, string_of p.wss_url))
        (request_context e config request)

  abbrev pub answered : Inner S × Response → Inner S × Option Response
  answered (s, r) = (s, some r)

  -- `none` is a handler that panics, after which the server goes on.
  unfoldable pub serve : Route → Request → Inner S → Inner S × Option Response
  unfolding main_page room_page v2_room_page join v2_join_handler leave v2_leave message get_params
      v2_params ice_config_page status bridge_post bridge_delete links
  serve at_root request s = answered (main_page e config request s)
  serve (at_room roomid) request s = answered (room_page e config a roomid request s)
  serve (at_v2_room roomid) request s =
      answered (v2_room_page e config parse_room_token roomid request s)
  serve (at_join client roomid) request s = answered (join e config a client roomid request s)
  serve (at_v2_join client_id roomid) request s =
      v2_join_handler a parse_room_token client_id roomid (links roomid request) s
  serve (at_leave roomid clientid) request s = answered (leave a roomid clientid s)
  serve (at_v2_leave roomid clientid authorization) request s =
      answered (v2_leave a parse_room_token string_of roomid clientid authorization s)
  serve (at_message roomid clientid body) request s = answered (message a roomid clientid body s)
  serve at_params request s = answered (get_params e config request s)
  serve at_v2_params request s = answered (v2_params e config request s)
  serve at_iceconfig request s = answered (ice_config_page e config s)
  serve (at_status up_time_sec) request s = answered (status e config a up_time_sec s)
  serve (post_bridge roomid clientid body) request s =
      answered (bridge_post a failed roomid clientid body s)
  serve (delete_bridge roomid clientid) request s = answered (bridge_delete a roomid clientid s)

  unfoldable pub serve_all : List (Route × Request) → Inner S → Inner S × List (Option Response)
  unfolding serve
  serve_all [] s = (s, [])
  serve_all ((route, request) ∷ calls) s =
      let (s', response) = serve route request s in
      let (s'', responses) = serve_all calls s' in (s'', response ∷ responses)

-- ===== src/Room/Pages.antt =====
-- The pages of room_server.rs, its parameters, V1 join and status.
use apprtc.Prelude.{
  ℕ, String, Text, codes, Option, some, none, List, [], ◌∷◌, ◌++◌, map, Bool, true, false, ◌&&◌,
  ◌||◌, Result, ok, err, leb, unwrap_or, if◌then◌else◌,
}
use Prim.Native.String.{◌++◌ as str_append}
use apprtc.RoomId.{RoomId}
use apprtc.Std.Split.{text_eq}
use apprtc.Params.{
  Config, Url, Value, RoomParameters, build_room_parameters, build_v2_room_parameters, ice_config,
}
use apprtc.Room.Server.{
  RoomAuthority, Response, result, html, params, json, joined, Inner, http_error,
}
use apprtc.Room.Server
pub mod Counted

-- The libraries: parsing of URLs, JSON, and the rendering of the templates.
pub record External : Type 0 where
  pub parse_url : Text → Result Url String
  pub must_json : Value → Text
  pub render_index : RoomParameters → Result Text String
  pub render_full : RoomParameters → Result Text String

-- A request: the Host header as far as it is text, and the URI.
pub record Request : Type 0 where
  pub host : Option Text
  pub uri : Text

abbrev pub max_room_capacity : ℕ
max_room_capacity = 2

module _ (e : External) (config : Config) where
  unfoldable pub request_context : Request → Result (Text × Url) String
  request_context request =
      let host = unwrap_or request.host (codes "localhost") in
      elim (e.parse_url (codes "http://" ++ (host ++ request.uri))) [
        | ok url ↦ ok (host, url)
        | err error ↦ err (str_append "Invalid request URL: " error)
      ]

  -- The `match` on what was rendered; `failed` is the text before the error.
  unfoldable pub rendered :
      {S : Type 0} → String → Result Text String → Inner S → Inner S × Response
  unfolding http_error
  rendered failed (ok body) s = (s, html body)
  rendered failed (err error) s = http_error (str_append failed error) s

  -- The `match` on the request's context.
  abbrev pub with_context :
      {S : Type 0} → Request → Inner S → (Text → Url → Inner S × Response) → Inner S × Response
  with_context request s f = elim (request_context request) [
    | ok (host, url) ↦ f host url
    | err error ↦ http_error error s
  ]

  unfoldable pub main_page : {S : Type 0} → Request → Inner S → Inner S × Response
  unfolding request_context rendered http_error build_room_parameters
  main_page request s = with_context request s (λ host url.
      rendered "Failed to render index: "
        (e.render_index (build_room_parameters e.must_json config host url [] [] none)) s)

  unfoldable pub v2_room_page :
      {S : Type 0} → (String → Option RoomId) → String → Request → Inner S → Inner S × Response
  unfolding request_context rendered http_error build_v2_room_parameters
  v2_room_page parse_room_token roomid request s = elim (parse_room_token roomid) [
    | none ↦ (s, result "INVALID_ROOM_ID")
    | some _ ↦ with_context request s (λ host url.
        rendered "Failed to render V2 page: "
          (e.render_index (build_v2_room_parameters e.must_json config host url (codes roomid))) s)
  ]

  unfoldable pub get_params : {S : Type 0} → Request → Inner S → Inner S × Response
  unfolding request_context http_error build_room_parameters
  get_params request s =
      with_context request s
        (λ host url. (s, params (build_room_parameters e.must_json config host url [] [] none)))

  unfoldable pub v2_params : {S : Type 0} → Request → Inner S → Inner S × Response
  unfolding request_context http_error build_v2_room_parameters
  v2_params request s =
      with_context request s
        (λ host url. (s, params (build_v2_room_parameters e.must_json config host url [])))

  unfoldable pub ice_config_page : {S : Type 0} → Inner S → Inner S × Response
  unfolding ice_config
  ice_config_page s = (s, json (ice_config config))

  -- Whether a pair of the query asks for the loopback.
  unfoldable pub is_loopback : List (Text × Text) → Bool
  unfolding text_eq
  is_loopback [] = false
  is_loopback ((key, value) ∷ pairs) =
      (text_eq key (codes "debug") && text_eq value (codes "loopback")) || is_loopback pairs

  module _ {S : Type 0} (a : RoomAuthority S) where
    unfoldable pub room_page : String → Request → Inner S → Inner S × Response
    unfolding request_context rendered http_error build_room_parameters
    room_page roomid request s = with_context request s (λ host url.
        let (authority, outcome) = a.occupancy roomid s.authority in
        let s' : Inner S = record s { authority = authority } in
        elim outcome [
          | err error ↦ http_error error s'
          | ok occupancy ↦
              let p = build_room_parameters e.must_json config host url (codes roomid) [] none in
              rendered "Failed to render page: "
                (if leb max_room_capacity occupancy then e.render_full p else e.render_index p) s'
        ])

    -- `client` is the eight digits that `generate_random` draws.
    unfoldable pub join : String → String → Request → Inner S → Inner S × Response
    unfolding request_context http_error build_room_parameters is_loopback
    join client roomid request s = with_context request s (λ host url.
        let (authority, outcome) =
          a.admit roomid client (is_loopback url.query_pairs) s.authority in
        (
          record s { authority = authority },
          elim outcome [
            | err error ↦ joined error none
            | ok admission ↦ joined "SUCCESS" (
                some
                  (record (build_room_parameters e.must_json config host url (codes roomid)
                    (codes client) (some admission.is_initiator)) {
                      messages = map codes admission.messages;
                    }))
          ],
        ))

    unfoldable pub status : ℕ → Inner S → Inner S × Response
    unfolding http_error
    status up_time_sec s =
        let (authority, outcome) = a.status s.authority in
        let s' : Inner S = record s { authority = authority } in
        elim outcome [
          | err error ↦ http_error error s'
          | ok snapshot ↦ (
            s',
            Server.status (record {
              up_time_sec = up_time_sec;
              open_ws = snapshot.websocket_connections;
              total_ws = snapshot.total_websocket_connections;
              ws_errs = snapshot.websocket_errors;
              http_errs = s.http_errors;
            }),
          )
        ]

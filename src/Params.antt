-- ===== src/Params.antt =====
-- params.rs and config.rs: what the room server tells a page about itself and its room. A text is its
-- code points, JSON is what `json!` builds of it, and `must_json` of serde_json is a parameter.
use apprtc.Prelude.{
  ℕ, Text, codes, Option, some, none, List, [], ◌∷◌, ◌++◌, map, Bool, true, false, eqb,
  if◌then◌else◌,
}
use apprtc.Std.Split.{split, filter_nonempty, trim_end_matches, strip_prefix, text_eq}
pub mod Link
mod Tests

pub record IceServer : Type 0 where
  pub urls : List Text
  pub username : Text
  pub credential : Text

-- The fields of `Config` that the parameters are made of.
pub record Config : Type 0 where
  pub host : Text
  pub force_tls : Bool
  pub signaling_ws_url : Text
  pub ice_server_override : List IceServer
  pub ice_server_urls : List Text
  pub ice_server_base_url : Text
  pub ice_server_api_key : Text
  pub header_message : Text
  pub bypass_join_confirmation : Bool

-- What the code reads of a `Url`: its query and the pairs in it.
pub record Url : Type 0 where
  pub query : Option Text
  pub query_pairs : List (Text × Text)

mutual
  pub data Value : Type 0 where
    bool : Bool → Value
    string : Text → Value
    array : Values → Value
    object : Fields → Value

  pub data Values : Type 0 where
    no_values : Values
    value : Value → Values → Values

  pub data Fields : Type 0 where
    no_fields : Fields
    field : Text → Value → Fields → Fields

pub record RoomParameters : Type 0 where
  pub signaling_version : ℕ
  pub client_id : Text
  pub room_id : Text
  pub room_link : Text
  pub wss_url : Text
  pub wss_post_url : Text
  pub ice_server_url : Text
  pub ice_server_transports : Text
  pub header_message : Text
  pub is_initiator : Text
  pub is_loopback : Text
  pub pc_config : Text
  pub pc_constraints : Text
  pub offer_options : Text
  pub media_constraints : Text
  pub bypass_join_confirmation : Text
  pub version_info : Text
  pub include_loopback_js : Text
  pub messages : List Text
  pub error_messages : List Text
  pub warning_messages : List Text

abbrev pub is_empty : Text → Bool
is_empty [] = true
is_empty (_ ∷ _) = false

unfoldable pub find_pair : Text → List (Text × Text) → Text
unfolding text_eq
find_pair key [] = []
find_pair key ((k, v) ∷ pairs) = let rest = find_pair key pairs in if text_eq k key then v else rest

unfoldable pub query_get : Url → Text → Text
unfolding find_pair
query_get url key = find_pair key url.query_pairs

unfoldable pub bool_str : Bool → Text
bool_str true = codes "true"
bool_str false = codes "false"

unfoldable pub self_origin : Config → Text → Text × Text × Text
self_origin config host =
    let name = if is_empty config.host then host else config.host in
    if config.force_tls
    then (codes "https", codes "wss", name)
    else (codes "http", codes "ws", name)

abbrev pub strings : List Text → Values
strings [] = no_values
strings (s ∷ ss) = value (string s) (strings ss)

abbrev pub nonempty_field : Text → Text → Fields → Fields
nonempty_field key [] rest = rest
nonempty_field key (c ∷ s) rest = field key (string (c ∷ s)) rest

-- `Serialize` of an IceServer, which leaves empty credentials out.
unfoldable pub ice_server_value : IceServer → Value
ice_server_value server = object (
    field (codes "urls") (array (strings server.urls)) (
      nonempty_field (codes "username") server.username
        (nonempty_field (codes "credential") server.credential no_fields)))

unfoldable pub ice_servers : List IceServer → Values
unfolding ice_server_value
ice_servers [] = no_values
ice_servers (server ∷ servers) = value (ice_server_value server) (ice_servers servers)

unfoldable pub pc_config : Config → Text → Value
unfolding ice_servers
pc_config config it = object (
    field (codes "iceServers") (array (ice_servers config.ice_server_override)) (
      field (codes "bundlePolicy") (string (codes "max-bundle")) (
        field (codes "rtcpMuxPolicy") (string (codes "require"))
          (nonempty_field (codes "iceTransports") it no_fields))))

unfoldable pub ice_server_url : Text → Text → Text
ice_server_url [] key = []
ice_server_url (c ∷ base) key = (c ∷ base) ++ codes "/v1alpha/iceconfig?key=" ++ key

-- `base` of the ICE server: from the query, the configuration or this server's origin.
unfoldable pub ice_server_base : Config → Url → Text → Text
unfolding query_get
ice_server_base config url origin =
    let asked = query_get url (codes "ts") in
    if is_empty asked
    then (if is_empty config.ice_server_base_url then origin else config.ice_server_base_url)
    else asked

-- The query as it is put after a room link.
unfoldable pub link_query : Option Text → Text
link_query none = []
link_query (some []) = []
link_query (some (c ∷ q)) = b'?' ∷ c ∷ q

-- "{scheme}://{host}" and what follows it.
abbrev pub at_host : Text → Text → Text → Text
at_host scheme host rest = scheme ++ (codes "://" ++ (host ++ rest))

unfoldable pub room_link : Text → Text → Url → Text → Text
unfolding link_query
room_link scheme host url room_id =
    if is_empty room_id
    then []
    else at_host scheme host (codes "/r/" ++ (room_id ++ link_query url.query))

abbrev pub initiator_str : Option Bool → Text
initiator_str none = []
initiator_str (some b) = bool_str b

unfoldable pub wss_url : Config → Text → Text → Text
unfolding trim_end_matches
wss_url config scheme host =
    if is_empty config.signaling_ws_url
    then at_host scheme host (codes "/ws")
    else trim_end_matches (λ c. eqb c b'/') config.signaling_ws_url

abbrev pub loopback_script : Text
loopback_script = codes "<script src=\"/js/loopback.js\"></script>"

-- `replacen(from, to, 1)`
unfoldable pub replace_first : Text → Text → Text → Text
unfolding strip_prefix
replace_first from to [] = elim (strip_prefix from []) [ none ↦ [] | some rest ↦ to ++ rest ]
replace_first from to (c ∷ s) =
    let later = replace_first from to s in
    elim (strip_prefix from (c ∷ s)) [ none ↦ c ∷ later | some rest ↦ to ++ rest ]

module _ (must_json : Value → Text) where
  unfoldable pub build_room_parameters :
      Config → Text → Url → Text → Text → Option Bool → RoomParameters
  unfolding self_origin wss_url query_get pc_config ice_server_base ice_server_url room_link text_eq
  build_room_parameters config request_host url room client initiator =
      let (http_scheme, ws_scheme, host) = self_origin config request_host in
      let origin = at_host http_scheme host [] in
      let loopback = text_eq (query_get url (codes "debug")) (codes "loopback") in
      record {
        signaling_version = 1;
        client_id = client;
        room_id = room;
        room_link = room_link http_scheme host url room;
        wss_url = wss_url config ws_scheme host;
        wss_post_url = origin;
        ice_server_url =
            ice_server_url (ice_server_base config url origin) config.ice_server_api_key;
        ice_server_transports = query_get url (codes "tt");
        header_message = config.header_message;
        is_initiator = initiator_str initiator;
        is_loopback = must_json (bool loopback);
        pc_config = must_json (pc_config config (query_get url (codes "it")));
        pc_constraints = must_json (object (field (codes "optional") (array no_values) no_fields));
        offer_options = codes "{}";
        media_constraints = must_json (
            object
              (field (codes "audio") (bool true) (field (codes "video") (bool true) no_fields)));
        bypass_join_confirmation = must_json (bool config.bypass_join_confirmation);
        version_info = codes "null";
        include_loopback_js = if loopback then loopback_script else [];
        messages = [];
        error_messages = [];
        warning_messages = [];
      }

  unfoldable pub build_v2_room_parameters : Config → Text → Url → Text → RoomParameters
  unfolding build_room_parameters replace_first
  build_v2_room_parameters config request_host url room =
      let params = build_room_parameters config request_host url room [] none in
      record params {
        signaling_version = 2;
        wss_post_url = [];
        is_loopback = codes "false";
        include_loopback_js = [];
        room_link =
            if is_empty room
            then params.room_link
            else replace_first (codes "/r/") (codes "/v2/r/") params.room_link;
      }

unfoldable pub ice_config : Config → Value
unfolding ice_servers
ice_config config = elim config.ice_server_override [
  | server ∷ servers ↦
      object (field (codes "iceServers") (array (ice_servers (server ∷ servers))) no_fields)
  | [] ↦
      let listed : Values = elim config.ice_server_urls [
        | [] ↦ no_values
        | url ∷ urls ↦
            value (object (field (codes "urls") (array (strings (url ∷ urls))) no_fields)) no_values
      ] in
      object (field (codes "iceServers") (array listed) no_fields)
]

unfoldable pub trim_collider_path : Text → List Text
unfolding split filter_nonempty
trim_collider_path p = filter_nonempty (split (λ c. eqb c b'/') p)

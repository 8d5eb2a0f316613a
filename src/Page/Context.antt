-- ===== src/Page/Context.antt =====
-- `context_for` of templates.rs: what a page is rendered with.
use apprtc.Prelude.{ℕ, Text, All}
use apprtc.Page.Escape.{escape, IsInert, Reads, escape-Reads}
use apprtc.Params.{Value, RoomParameters, array, strings}

-- The values of the context; `must_json` is `serde_json::to_string`.
pub record Context : Type 0 where
  pub room_id : Text
  pub room_link : Text
  pub header_message : Text
  pub wss_url : Text
  pub wss_post_url : Text
  pub signaling_version : ℕ
  pub ice_server_url : Text
  pub ice_server_transports : Text
  pub error_messages : Text
  pub warning_messages : Text
  pub is_loopback : Text
  pub media_constraints : Text
  pub offer_options : Text
  pub pc_config : Text
  pub pc_constraints : Text
  pub bypass_join_confirmation : Text
  pub version_info : Text
  pub include_loopback_js : Text

unfoldable pub context_for : (Value → Text) → RoomParameters → Context
unfolding escape
context_for must_json p = record {
  room_id = escape p.room_id;
  room_link = escape p.room_link;
  header_message = escape p.header_message;
  wss_url = escape p.wss_url;
  wss_post_url = escape p.wss_post_url;
  signaling_version = p.signaling_version;
  ice_server_url = escape p.ice_server_url;
  ice_server_transports = escape p.ice_server_transports;
  error_messages = must_json (array (strings p.error_messages));
  warning_messages = must_json (array (strings p.warning_messages));
  is_loopback = p.is_loopback;
  media_constraints = p.media_constraints;
  offer_options = p.offer_options;
  pc_config = p.pc_config;
  pc_constraints = p.pc_constraints;
  bypass_join_confirmation = p.bypass_join_confirmation;
  version_info = p.version_info;
  include_loopback_js = p.include_loopback_js;
}

-- A value that ends no quoted attribute and no element, and that HTML reads as the text.
abbrev pub IsSafe : Text → Text → Type 0
IsSafe value text = All IsInert value × Reads value text

-- Whatever the parameters of a page are, each of the seven that are plain texts is put into the page
-- without quotes and angle brackets, so that it ends no quoted attribute and no element; and the two
-- that stand in the text and in the attributes of the page, the room link and the header message, are
-- read there by HTML as the parameters. What a script reads in its string literals is not stated.
pub context_for-IsSafe :
    (must_json : Value → Text) (p : RoomParameters)
    → IsSafe (context_for must_json p).room_link p.room_link
      × IsSafe (context_for must_json p).header_message p.header_message
      × All IsInert (context_for must_json p).room_id
      × All IsInert (context_for must_json p).wss_url
      × All IsInert (context_for must_json p).wss_post_url
      × All IsInert (context_for must_json p).ice_server_url
      × All IsInert (context_for must_json p).ice_server_transports
unfolding context_for
context_for-IsSafe must_json p = (
  escape-Reads p.room_link,
  escape-Reads p.header_message,
  (escape-Reads p.room_id).0,
  (escape-Reads p.wss_url).0,
  (escape-Reads p.wss_post_url).0,
  (escape-Reads p.ice_server_url).0,
  (escape-Reads p.ice_server_transports).0,
)

-- ===== src/Page/Tests.antt =====
-- The theorem about templates.rs at a page whose room and query have a tag and quotes.
use apprtc.Prelude.{Text, All, codes, some, none, [], ◌∷◌, true, false, refl, ◌≡◌}
use apprtc.Page.Escape.{IsInert}
use apprtc.Params.{Config, Url, Value, RoomParameters, build_room_parameters}
use apprtc.Page.Context.{context_for, IsSafe, context_for-IsSafe}

abbrev json : Value → Text
json v = codes "null"

abbrev config : Config
config = record {
  host = [];
  force_tls = true;
  signaling_ws_url = [];
  ice_server_override = [];
  ice_server_urls = [];
  ice_server_base_url = [];
  ice_server_api_key = [];
  header_message = codes "<b>hi</b>";
  bypass_join_confirmation = false;
}

abbrev url : Url
url = record { query = some (codes "tt='"); query_pairs = (codes "tt", codes "'") ∷ [] }

abbrev page : RoomParameters
page = build_room_parameters json config (codes "a") url (codes "<b>") [] none

context_for-IsSafe_example :
    IsSafe (context_for json page).room_link page.room_link
    × IsSafe (context_for json page).header_message page.header_message
    × All IsInert (context_for json page).room_id
    × All IsInert (context_for json page).wss_url
    × All IsInert (context_for json page).wss_post_url
    × All IsInert (context_for json page).ice_server_url
    × All IsInert (context_for json page).ice_server_transports
context_for-IsSafe_example = context_for-IsSafe json page

escaped_room : (context_for json page).room_id ≡ codes "&lt;b&gt;"
unfolding context_for build_room_parameters
escaped_room = refl

-- ===== src/Params/Tests.antt =====
-- The theorem about room links at concrete pages.
use apprtc.Prelude.{Text, codes, ◌≡◌, refl, some, [], ◌∷◌, ◌++◌, true, false, arith}
use apprtc.Std.Split.{split, filter_nonempty, text_eq}
use apprtc.Params.{
  Config, Url, Value, self_origin, link_query, at_host, build_v2_room_parameters, query_get,
  find_pair, trim_collider_path,
}
use apprtc.Params.Link.{room_link-build_v2, room_link-host_r}

abbrev json : Value → Text
json v = codes "null"

abbrev config : Config
config = record {
  host = [];
  force_tls = true;
  signaling_ws_url = [];
  ice_server_override = [];
  ice_server_urls = [];
  ice_server_base_url = [];
  ice_server_api_key = [];
  header_message = [];
  bypass_join_confirmation = false;
}

abbrev url : Url
url = record {
  query = some (codes "debug=loopback");
  query_pairs = (codes "debug", codes "loopback") ∷ [];
}

room_link-build_v2_example :
    (build_v2_room_parameters json config (codes "a:80") url (codes "42")).room_link
    ≡ at_host
        (self_origin config (codes "a:80")).0
        (self_origin config (codes "a:80")).2
        (codes "/v2/r/" ++ (codes "42" ++ link_query (some (codes "debug=loopback"))))
unfolding self_origin
room_link-build_v2_example =
    room_link-build_v2 json config (codes "a:80") url (codes "42") (λ e. ground (arith, e))
      (ground arith) (λ e. ground (arith, e))

host_r_link :
    (build_v2_room_parameters json config (codes "r") url (codes "42")).room_link
    ≡ codes "https://v2/r/r/42?debug=loopback"
unfolding self_origin link_query
host_r_link =
    room_link-host_r json config (codes "r") url (codes "42") (λ e. ground (arith, e)) refl

debug_pair : query_get url (codes "debug") ≡ codes "loopback"
unfolding query_get find_pair text_eq
debug_pair = refl

collider_path : trim_collider_path (codes "/a//b") ≡ codes "a" ∷ codes "b" ∷ []
unfolding trim_collider_path split filter_nonempty
collider_path = refl

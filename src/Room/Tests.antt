-- ===== src/Room/Tests.antt =====
-- The theorems about room_server.rs at concrete requests.
use apprtc.Prelude.{
  List, ◌∷◌, false, ◌+◌, ◌%◌, true, ℕ, zero, suc, String, Text, codes, ◌<◌, ◌≡◌, ◌⊎◌, ◌↔◌, refl,
  Option, some, none, [], Result, ok, err,
}
use apprtc.RoomId.{RoomId}
use apprtc.Std.Parse.{u64_mod}
use apprtc.Std.Decimal.{decimal}
use apprtc.Grpc.Wire.{V2Admission}
use apprtc.Grpc.Wire
use apprtc.Room.Server.{RoomAuthority, Inner, Response, result}
use apprtc.Params.{Config}
use apprtc.Room.Pages.{External, Request}
use apprtc.Room.Router.{Route, at_root, at_params, at_leave, serve_all}
use apprtc.Room.Router.Counted.{total_errors, http_errors-serve_all}
use apprtc.Room.Join.{attempts, client_id_attempts}
use apprtc.Room.Join.Attempts.{Decides, attempts-first}
use apprtc.Room.Handlers.{v2_leave, canonical_u64}
use apprtc.Room.Handlers.Canonical.{canonical_u64_iff}
use apprtc.Room.Handlers.Errors.{v2_leave-checked, IsClientId, IsBearer}

abbrev admit : ℕ → ℕ × Result V2Admission String
admit zero = (1, err "DUPLICATE_CLIENT")
admit (suc zero) = (2, err "DUPLICATE_CLIENT")
admit n = (
  n,
  ok (record {
    mode = Wire.WireMode.sfu;
    signal_epoch = 3;
    admission_token = "5f";
    is_initiator = none;
  }),
)

-- An authority that counts its calls: it admits a client from the third call on.
abbrev authority : RoomAuthority ℕ
authority = record {
  admit = λ room client loopback n. (n, ok (record { is_initiator = true; messages = [] }));
  remove = λ room client n. (n, err "CLIENT_NOT_FOUND");
  occupancy = λ room n. (n, ok 0);
  inject = λ room client body n. (n, ok tt);
  admit_v2 = λ room client n. admit n;
  remove_v2 = λ room client token n. (0, ok tt);
  status = λ n. (n, err "UNAVAILABLE");
}

abbrev room : RoomId
room = record { bytes = [] }

attempts-first_example :
    Decides authority (λ n. n) room 0 (attempts authority (λ n. n) room client_id_attempts 1 0)
attempts-first_example = attempts-first authority (λ n. n) room 0

canonical_u64_iff_example :
    (canonical_u64 (codes "907") ≡ some 907) ↔ ((codes "907" ≡ decimal 907) × (907 < u64_mod))
canonical_u64_iff_example = canonical_u64_iff (codes "907") 907

abbrev state : Inner ℕ
state = record { authority = 2; http_errors = 4 }

abbrev token_of : Text → String
token_of t = "token"

abbrev parse : String → Option RoomId
parse token = some room

abbrev answered : Inner ℕ × Response
answered = v2_leave authority parse token_of "42" (codes "7") (some (codes "Bearer t")) state

v2_leave-checked_example :
    (answered.0 ≡ state)
      × (((parse "42" ≡ none) × (answered.1 ≡ result "INVALID_ROOM_ID"))
          ⊎ (((id : ℕ) → IsClientId (codes "7") id → ⊥) × (answered.1 ≡ result "INVALID_CLIENT_ID"))
          ⊎ (((token : Text) → IsBearer (some (codes "Bearer t")) token → ⊥)
              × (answered.1 ≡ result "UNAUTHORIZED")))
    ⊎ ((r : RoomId) × (id : ℕ) × (token : Text) × (parse "42" ≡ some r)
        × IsClientId (codes "7") id
        × IsBearer (some (codes "Bearer t")) token
        × (answered.0.authority ≡ (authority.remove_v2 r id (token_of token) 2).0))
v2_leave-checked_example =
    v2_leave-checked authority parse token_of "42" (codes "7") (some (codes "Bearer t")) state

-- The index does not render; what is full does.
abbrev external : External
external = record {
  parse_url = λ t. ok (record { query = none; query_pairs = [] });
  must_json = λ v. codes "null";
  render_index = λ p. err "no template";
  render_full = λ p. ok (codes "full");
}

abbrev config : Config
config = record {
  host = [];
  force_tls = false;
  signaling_ws_url = [];
  ice_server_override = [];
  ice_server_urls = [];
  ice_server_base_url = [];
  ice_server_api_key = [];
  header_message = [];
  bypass_join_confirmation = false;
}

abbrev request : Request
request = record { host = none; uri = codes "/" }

abbrev calls : List (Route × Request)
calls = (at_root, request) ∷ (at_params, request) ∷ (at_leave "42" "7", request) ∷ []

http_errors-serve_all_example :
    (serve_all external config parse token_of (λ error. error) authority calls state).0.http_errors
    ≡ (4
        + total_errors
            (serve_all external config parse token_of (λ error. error) authority calls state).1)
      % u64_mod
http_errors-serve_all_example =
    http_errors-serve_all external config parse token_of (λ error. error) authority calls state refl

two_errors :
    total_errors (serve_all external config parse token_of (λ error. error) authority calls state).1
    ≡ 2
unfolding serve_all
two_errors = refl

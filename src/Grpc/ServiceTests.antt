-- ===== src/Grpc/ServiceTests.antt =====
-- AppRTC over its client and the service, at concrete requests.
use apprtc.Prelude.{
  ℕ, String, Text, codes, ◌+◌, ◌≡◌, ◌≢◌, refl, Bool, true, false, Option, some, none, List, [], ◌∷◌,
  ok, All, length, arith, eq_iff,
}
use mathlib.Core.Bool.{false≢true}
use apprtc.RoomId.{RoomId}
use apprtc.Params.{Config}
use apprtc.Grpc.Operations.{
  AuthorityOperation, AuthorityResult, RoomMode, GrpcStatus, Hashed, unavailable,
}
use apprtc.Grpc.Client.{Texts, GrpcAuthority}
use apprtc.Grpc.Service.{Authority, World, channel}
use apprtc.Grpc.Service.Direct.{direct_authority, direct_inject, direct_admit_v2, direct_remove}
use apprtc.Grpc.Service.Matched.{IsRoom, remote}
use apprtc.Grpc.Service.Fresh.{started, serve_all-connect}
use apprtc.Grpc.Client.Connect.{Transport, IsEndpoint, webpki_roots, connect, connect-IsEndpoint}
use apprtc.Room.Server.{Inner, Response}
use apprtc.Room.Pages.{External, Request}
use apprtc.Room.Router.{Route, at_leave, at_v2_join, at_message, serve_all}
use apprtc.Room.Router.Answers.{serve_all-answers}
use apprtc.Room.Simulates.Handlers.{inner}

abbrev texts : Texts
texts = record {
  grpc_error = λ operation status. operation;
  mismatch = λ expected actual. "mismatch";
  missing_result = λ operation. "missing";
  code_name = λ code. none;
}

-- An authority that counts the operations that it performs.
abbrev perform : AuthorityOperation → ℕ → ℕ × AuthorityResult
perform (AuthorityOperation.remove room client) n = (n + 1, AuthorityResult.removed)
perform (AuthorityOperation.admit_v2 room client token now) n =
    (n + 1, AuthorityResult.admitted_v2 RoomMode.sfu n token none)
perform _ n = (n + 1, AuthorityResult.error "ROOM_NOT_FOUND")

abbrev authority : Authority ℕ
authority = record { perform = perform; now = λ n. n; token = λ n. "5f" }

abbrev hash : List Hashed → ℕ
hash values = 0

abbrev expired : GrpcStatus
expired = record { code = unavailable; message = "expired" }

abbrev room : RoomId
room = record { bytes = 1 ∷ 2 ∷ 3 ∷ 4 ∷ 5 ∷ 6 ∷ 7 ∷ 8 ∷ 9 ∷ 10 ∷ 11 ∷ 12 ∷ 13 ∷ 14 ∷ 15 ∷ 16 ∷ [] }

abbrev any_room : RoomId → Bool
any_room id = true

abbrev parse : String → Option RoomId
parse token = some room

abbrev token_of : Text → String
token_of t = "token"

abbrev external : External
external = record {
  parse_url = λ t. ok (record { query = none; query_pairs = [] });
  must_json = λ v. codes "null";
  render_index = λ p. ok (codes "index");
  render_full = λ p. ok (codes "full");
}

abbrev config : Config
config = record {
  host = [];
  force_tls = false;
  signaling_ws_url = [];
  ice_server_override = [];
  ice_server_urls = [];
  ice_server_base_url = [];
  ice_server_api_key = [];
  header_message = [];
  bypass_join_confirmation = false;
}

abbrev request : Request
request = record { host = none; uri = codes "/" }

abbrev calls : List (Route × Request)
calls =
    (at_leave "42" "7", request)
    ∷ (at_v2_join (λ n. n) "t", request)
    ∷ (at_message "42" "7" "hi", request)
    ∷ []

abbrev client : GrpcAuthority
client = record { instance_id = "apprtc-1"; next_request_id = 1 }

-- A transport whose endpoints are their URLs.
abbrev transport : Transport String
transport = record {
  parse_url = λ url. ok (record { scheme = "https"; host_str = some "host" });
  from_shared = λ url. ok url;
  tls_config = λ verifier domain endpoint. ok endpoint;
}

named : client.instance_id ≢ ""
named e = false≢true ((eq_iff "apprtc-1" "").1 e)

parse-IsRoom : (token : String) (id : RoomId) → parse token ≡ some id → IsRoom any_room id
parse-IsRoom token id h = ground (arith, refl {a = length room.bytes})

abbrev over_grpc : Inner (GrpcAuthority × World ℕ) × List (Option Response)
over_grpc =
    serve_all external config parse token_of (λ error. error)
      (remote texts authority hash expired any_room) calls (inner (client, started 0) 4)

abbrev over_authority : Inner ℕ × List (Option Response)
over_authority =
    serve_all external config parse token_of (λ error. error) (direct_authority texts authority)
      calls (inner 0 4)

serve_all-connect_example :
    (over_grpc.1 ≡ over_authority.1)
    × (over_grpc.0.http_errors ≡ over_authority.0.http_errors)
    × (over_grpc.0.authority.1.authority ≡ over_authority.0.authority)
unfolding connect
serve_all-connect_example =
    serve_all-connect texts authority hash expired any_room external config parse token_of
      (λ error. error) calls 4 0 transport "apprtc-1" "https://host" false "https://host" client
      refl named (omega arith) parse-IsRoom

connect-IsEndpoint_example :
    IsEndpoint transport webpki_roots "https://host" "https://host"
    × (client ≡ record { instance_id = "apprtc-1"; next_request_id = 1 })
unfolding connect
connect-IsEndpoint_example =
    connect-IsEndpoint transport "apprtc-1" "https://host" "https://host" client refl

serve_all-answers_example : All (λ r. r ≢ none) over_grpc.1
serve_all-answers_example =
    serve_all-answers texts (channel authority hash expired any_room) external config parse token_of
      (λ error. error) calls (inner (client, started 0) 4)

-- Three operations reach the authority, and the last of the requests is refused.
three_operations : over_authority.0.authority ≡ 3
unfolding serve_all direct_inject direct_admit_v2 direct_remove
three_operations = refl

-- ===== src/Startup/Tests.antt =====
-- An AppRTC server that starts, at concrete options.
use apprtc.Prelude.{
  ℕ, String, Text, codes, ◌≡◌, ◌≢◌, refl, subst, some, none, List, [], ◌∷◌, ◌++◌, Result, ok, err,
  true, false, if◌then◌else◌, arith, Bool-cases, inl, inr,
}
use apprtc.Std.Decimal.{decimal}
use apprtc.Std.Split.{text_eq}
use apprtc.Params.{Url, Value, build_room_parameters, build_v2_room_parameters}
use apprtc.Tls.{Files, Rustls}
use apprtc.Grpc.Client.Connect.{Transport}
use apprtc.Startup.{
  Cli, WebUrl, public_host, signaling_url, System, Server, configure, main, config,
}
use apprtc.Startup.Sfu
use apprtc.Startup.Pages.{IsUrlParser, Names, main-pages}

abbrev public : WebUrl
public = record {
  scheme = codes "https";
  host_str = some (codes "a.org");
  port = some 8443;
  path = codes "/";
  query = none;
  fragment = none;
  text = codes "https://a.org:8443/";
}

abbrev signaling : WebUrl
signaling = record {
  scheme = codes "wss";
  host_str = some (codes "s.org");
  port = none;
  path = codes "/ws";
  query = none;
  fragment = none;
  text = codes "wss://s.org/ws";
}

-- A parser that knows two URLs.
abbrev parse_url : Text → Result WebUrl String
parse_url t =
    if text_eq t (codes "https://a.org:8443")
    then ok public
    else if text_eq t (codes "wss://s.org/ws")
    then ok signaling
    else err "relative URL without a base"

parse_url-known :
    (P : WebUrl → Type 0) (t : Text) (u : WebUrl)
    → parse_url t ≡ ok u
    → P public
    → P signaling
    → P u
parse_url-known P t u h p s = elim (Bool-cases (text_eq t (codes "https://a.org:8443"))) [
  | inl a ↦ subst P (ground (arith, a, h)) p
  | inr a ↦ elim (Bool-cases (text_eq t (codes "wss://s.org/ws"))) [
    | inl b ↦ subst P (ground (arith, a, b, h)) s
    | inr b ↦ absurd (ground (arith, a, b, h))
  ]
]

parser : IsUrlParser parse_url
parser = record {
  host = λ {t} {u} {h} parsed known named.
      parse_url-known (λ v. v.host_str ≡ some h → h ≢ []) t u parsed (λ e f. ground (arith, e, f))
        (λ e f. ground (arith, e, f)) named;
  text = λ {t} {u} parsed q f.
      parse_url-known (λ v. (front : Text) × (v.text ≡ front ++ v.path)) t u parsed
        (codes "https://a.org:8443", refl) (codes "wss://s.org", refl);
}

abbrev system : System ℕ ℕ ℕ
system = record {
  parse_url = parse_url;
  load_templates = λ root. ok 0;
  parse_address = λ host_ip port. ok port;
  bind = λ address. ok address;
}

abbrev transport : Transport String
transport = record {
  parse_url = λ url. ok (record { scheme = "http"; host_str = some "127.0.0.1" });
  from_shared = λ url. ok url;
  tls_config = λ verifier domain endpoint. ok endpoint;
}

abbrev rustls : Rustls ℕ ℕ ℕ
rustls = record {
  certs = λ pem. ok pem;
  key = λ pem. ok (some 1);
  with_single_cert = λ certificates key. ok key;
}

abbrev files : Files
files = record { read = λ kind path. err "no such file"; bundled = λ kind. 7 ∷ [] }

abbrev cli : Cli
cli = record {
  host_ip = "127.0.0.1";
  port = 8080;
  web_root = "web";
  public_url = codes "https://a.org:8443";
  ws_url = codes "wss://s.org/ws/";
  grpc_url = "http://127.0.0.1:50051";
  insecure_tls = false;
  tls = true;
  certificate = "";
  private_key = "";
  ice_server_urls = [];
  ice_server_base_url = [];
  ice_server_api_key = [];
  header_message = [];
  bypass_join_confirmation = false;
}

abbrev url : Url
url = record { query = none; query_pairs = [] }

abbrev json : Value → Text
json v = codes "null"

abbrev server : Server ℕ ℕ String ℕ
server = record {
  config = config cli (codes "a.org:8443") public (codes "wss://s.org/ws");
  templates = 0;
  channel = "http://127.0.0.1:50051";
  authority = record { instance_id = "apprtc-1"; next_request_id = 1 };
  listener = 8080;
  tls = some 1;
}

main-pages_example :
    Names parse_url cli
      (codes "42")
      url
      (build_room_parameters json server.config (codes "evil") url (codes "42") (codes "7") none)
      (build_v2_room_parameters json server.config (codes "evil") url (codes "42"))
unfolding main configure public_host signaling_url decimal config
main-pages_example =
    main-pages json system transport rustls files "apprtc-1" cli server (codes "evil") (codes "42")
      (codes "7") url none parser refl (λ e. ground (arith, e)) (ground arith)
      (λ e. ground (arith, e))

path_refused :
    signaling_url (record signaling { path = codes "/" })
    ≡ err "--ws-url must be a ws:// or wss:// URL ending in /ws"
unfolding signaling_url
path_refused = refl

-- A worker behind NAT with three ports, on host 1, advertising host 2.
abbrev sfu_cli : Sfu.Cli ℕ
sfu_cli = record {
  host_ip = 1;
  port = 8080;
  tls = false;
  redirect_url = "";
  certificate = "";
  private_key = "";
  media_public_ip = some 2;
  media_port_min = 3478;
  media_port_max = 3480;
  grpc_url = "http://127.0.0.1:50051";
  insecure_tls = false;
  max_rooms = 1000;
  max_clients = 10000;
  instance_id = "";
}

abbrev sfu_config : Sfu.Config ℕ
sfu_config = record {
  host_ip = 1;
  media_ip = 2;
  media_port_min = 3478;
  media_port_max = 3480;
  grpc_url = "http://127.0.0.1:50051";
  insecure_tls = false;
  worker = record {
    instance_id = "sfu-0f";
    capacity = record { max_rooms = 1000; max_clients = 10000 };
  };
}

sfu_configured : Sfu.configure sfu_cli "0f" ≡ sfu_config
unfolding Sfu.configure
sfu_configured = refl

no_redirect : Sfu.redirect rustls files (λ address. ok tt) sfu_cli ≡ none
unfolding Sfu.redirect
no_redirect = refl

service_fails : Sfu.main_result (Sfu.service_ended (ok tt)) ≡ err "SFU service stopped unexpectedly"
unfolding Sfu.main_result
service_fails = refl

abbrev shards : List (Sfu.ShardSocket ℕ ℕ)
shards =
    record { socket = 3478; advertised_addr = (2, 3478) }
    ∷ record { socket = 3479; advertised_addr = (2, 3479) }
    ∷ record { socket = 3480; advertised_addr = (2, 3480) }
    ∷ []

-- ===== src/Startup.antt =====
-- bin/apprtc.rs: from the command line to the server that listens. Reading the command line, the URL
-- parser, the templates, sockets and TLS belong to libraries and the system; an error is its text. The
-- logger is left out.
use apprtc.Prelude.{
  ℕ, String, Text, codes, Option, some, none, List, [], ◌∷◌, ◌++◌, Result, ok, err, ◌>>=◌, ok_or,
  Bool, true, false, ◌&&◌, ◌||◌, not, eqb, if◌then◌else◌,
}
use apprtc.Std.Decimal.{decimal}
use apprtc.Std.Split.{trim_end_matches, text_eq}
use apprtc.Params.{Config}
use apprtc.Tls.{Files, Rustls, tls_config}
use apprtc.Grpc.Client.{GrpcAuthority}
use apprtc.Grpc.Client.Connect.{Transport, connect}
pub mod Parts
pub mod Pages
pub mod Sfu
mod Tests

pub record Cli : Type 0 where
  pub host_ip : String
  pub port : ℕ
  pub web_root : String
  pub public_url : Text
  pub ws_url : Text
  pub grpc_url : String
  pub insecure_tls : Bool
  pub tls : Bool
  pub certificate : String
  pub private_key : String
  pub ice_server_urls : List Text
  pub ice_server_base_url : Text
  pub ice_server_api_key : Text
  pub header_message : Text
  pub bypass_join_confirmation : Bool

-- A `Url` as this file reads it; `text` is what it displays as.
pub record WebUrl : Type 0 where
  pub scheme : Text
  pub host_str : Option Text
  pub port : Option ℕ
  pub path : Text
  pub query : Option Text
  pub fragment : Option Text
  pub text : Text

abbrev pub is_http : WebUrl → Bool
is_http public = text_eq public.scheme (codes "http") || text_eq public.scheme (codes "https")

abbrev pub with_port : Text → Option ℕ → Text
with_port host none = host
with_port host (some port) = host ++ (b':' ∷ decimal port)

-- The check of --public-url, and the host that pages name.
unfoldable pub public_host : WebUrl → Result Text String
unfolding text_eq
public_host public =
    if is_http public
    then (do
      host ← ok_or public.host_str "--public-url has no host"
      ok (with_port host public.port))
    else err "--public-url must use http or https"

abbrev is_none : Option Text → Bool
is_none none = true
is_none (some _) = false

abbrev pub is_signaling : WebUrl → Bool
is_signaling url =
    (text_eq url.scheme (codes "ws") || text_eq url.scheme (codes "wss"))
    && not (is_none url.host_str)
    && text_eq url.path (codes "/ws")
    && is_none url.query
    && is_none url.fragment

-- The check of --ws-url, and the URL as pages name it.
unfoldable pub signaling_url : WebUrl → Result Text String
unfolding text_eq
signaling_url url =
    if is_signaling url
    then ok url.text
    else err "--ws-url must be a ws:// or wss:// URL ending in /ws"

-- The configuration that `main` gives to the room server; `..Default::default()` has no override of the
-- ICE servers.
unfoldable pub config : Cli → Text → WebUrl → Text → Config
unfolding text_eq
config cli host public ws_url = record {
  host = host;
  force_tls = text_eq public.scheme (codes "https");
  signaling_ws_url = ws_url;
  ice_server_override = [];
  ice_server_urls = cli.ice_server_urls;
  ice_server_base_url = cli.ice_server_base_url;
  ice_server_api_key = cli.ice_server_api_key;
  header_message = cli.header_message;
  bypass_join_confirmation = cli.bypass_join_confirmation;
}

-- What the system and the libraries give: templates `T`, addresses `A` and listeners `L`.
pub record System (T A L : Type 0) : Type 0 where
  pub parse_url : Text → Result WebUrl String
  pub load_templates : String → Result T String
  -- "{host_ip}:{port}"
  pub parse_address : String → ℕ → Result A String
  pub bind : A → Result L String

-- The server that serves: the room server's configuration, templates and authority with its channel,
-- the listener, and the configuration of TLS if connections are over TLS.
pub record Server (T L E S : Type 0) : Type 0 where
  pub config : Config
  pub templates : T
  pub channel : E
  pub authority : GrpcAuthority
  pub listener : L
  pub tls : Option S

module _ {T A L E C K S : Type 0} (system : System T A L) (transport : Transport E)
    (rustls : Rustls C K S) (files : Files) where
  -- How connections are served.
  unfoldable pub serve_tls : Cli → Result (Option S) String
  unfolding tls_config
  serve_tls cli =
      if cli.tls
      then (do s ← tls_config rustls files cli.certificate cli.private_key; ok (some s))
      else ok none

  -- Both URLs are checked before anything is opened.
  unfoldable pub configure : Cli → Result Config String
  unfolding public_host signaling_url config trim_end_matches
  configure cli = do
    public ← system.parse_url cli.public_url
    host ← public_host public
    parsed ← system.parse_url (trim_end_matches (λ c. eqb c b'/') cli.ws_url)
    ws_url ← signaling_url parsed
    ok (config cli host public ws_url)

  -- `instance_id` is what the client of the authority draws.
  unfoldable pub main : String → Cli → Result (Server T L E S) String
  unfolding configure connect serve_tls
  main instance_id cli = do
    config ← configure cli
    (channel, authority) ← connect transport instance_id cli.grpc_url cli.insecure_tls
    templates ← system.load_templates cli.web_root
    address ← system.parse_address cli.host_ip cli.port
    listener ← system.bind address
    tls ← serve_tls cli
    ok (record {
      config = config;
      templates = templates;
      channel = channel;
      authority = authority;
      listener = listener;
      tls = tls;
    })

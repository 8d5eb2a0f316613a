-- ===== src/Startup/Sfu.antt =====
-- bin/sfu.rs: what the SFU executable makes of its command line, the server that redirects browsers,
-- and how it ends. Reading the command line, random numbers, sockets and signals belong to libraries and
-- the system; the logger is left out.
use apprtc.Prelude.{
  ℕ, String, map, List, [], ◌∷◌, Option, some, none, Result, ok, err, ◌>>=◌, unwrap_or, Bool,
  str_eq, if◌then◌else◌,
}
use Prim.Native.String.{◌++◌ as str_append}
use apprtc.Tls.{Files, Rustls, tls_config}
use apprtc.Sfu.Session.{Worker}
use apprtc.Sfu.Reconnect.{start}
use apprtc.Grpc.Client.Connect.{Transport, grpc_endpoint}

-- `I` is an IP address.
pub record Cli (I : Type 0) : Type 0 where
  pub host_ip : I
  pub port : ℕ
  pub tls : Bool
  pub redirect_url : String
  pub certificate : String
  pub private_key : String
  pub media_public_ip : Option I
  pub media_port_min : ℕ
  pub media_port_max : ℕ
  pub grpc_url : String
  pub insecure_tls : Bool
  pub max_rooms : ℕ
  pub max_clients : ℕ
  pub instance_id : String

-- `Config` of sfu_server.rs; the worker is what a session says of it.
pub record Config (I : Type 0) : Type 0 where
  pub host_ip : I
  pub media_ip : I
  pub media_port_min : ℕ
  pub media_port_max : ℕ
  pub grpc_url : String
  pub insecure_tls : Bool
  pub worker : Worker

-- `drawn` is a random number in 32 hexadecimal digits.
unfoldable pub configure : {I : Type 0} → Cli I → String → Config I
configure cli drawn = record {
  host_ip = cli.host_ip;
  media_ip = unwrap_or cli.media_public_ip cli.host_ip;
  media_port_min = cli.media_port_min;
  media_port_max = cli.media_port_max;
  grpc_url = cli.grpc_url;
  insecure_tls = cli.insecure_tls;
  worker = record {
    instance_id = if str_eq cli.instance_id "" then str_append "sfu-" drawn else cli.instance_id;
    capacity = record { max_rooms = cli.max_rooms; max_clients = cli.max_clients };
  };
}

-- The redirecting server: where it listens, to where it sends every request, and how it serves.
pub record Redirect (I S : Type 0) : Type 0 where
  pub address : I × ℕ
  pub location : String
  pub tls : Option S

module _ {I C K S : Type 0} (rustls : Rustls C K S) (files : Files) where
  -- Up to the point where it serves; `bind` opens its socket.
  unfoldable pub run_redirect :
      (I × ℕ → Result (Unit {0}) String) → Cli I → Result (Redirect I S) String
  unfolding tls_config
  run_redirect bind cli = do
    _ ← bind (cli.host_ip, cli.port)
    tls ←
        if cli.tls
        then (do s ← tls_config rustls files cli.certificate cli.private_key; ok (some s))
        else ok none
    ok (record { address = (cli.host_ip, cli.port); location = cli.redirect_url; tls = tls })

  -- The redirecting server is optional.
  unfoldable pub redirect :
      (I × ℕ → Result (Unit {0}) String) → Cli I → Option (Result (Redirect I S) String)
  unfolding run_redirect
  redirect bind cli = if str_eq cli.redirect_url "" then none else some (run_redirect bind cli)

-- What ends the executable: Ctrl-C, after which the service and the redirecting server, if there is one,
-- end with a result; or the service by itself.
pub data Ended : Type 0 where
  interrupted :
      Result (Unit {0}) String
      → Result (Unit {0}) String
      → Option (Result (Unit {0}) String)
      → Ended
  service_ended : Result (Unit {0}) String → Ended

unfoldable pub main_result : Ended → Result (Unit {0}) String
main_result (interrupted signal service redirect) = do
  _ ← signal
  _ ← service
  elim redirect [ none ↦ ok tt | some r ↦ r ]
main_result (service_ended service) = do _ ← service; err "SFU service stopped unexpectedly"

-- `run` of sfu_server.rs up to its sessions: a shard has the socket of a port, and the address that it
-- advertises.
pub record ShardSocket (I L : Type 0) : Type 0 where
  pub socket : L
  pub advertised_addr : I × ℕ

-- Every socket is bound before a shard is started.
unfoldable pub bind_sockets :
    {I L : Type 0} → (I × ℕ → Result L String) → I → List ℕ → Result (List (ℕ × L)) String
bind_sockets bind host_ip [] = ok []
bind_sockets bind host_ip (port ∷ ports) = do
  socket ← bind (host_ip, port)
  sockets ← bind_sockets bind host_ip ports
  ok ((port, socket) ∷ sockets)

abbrev pub shard_socket : {I L : Type 0} → I → ℕ × L → ShardSocket I L
shard_socket media_ip (port, socket) = record {
  socket = socket;
  advertised_addr = (media_ip, port);
}

unfoldable pub prepare :
    {I L E : Type 0}
    → Transport E
    → (I × ℕ → Result L String)
    → Config I
    → Result (E × List (ShardSocket I L)) String
unfolding start grpc_endpoint bind_sockets
prepare transport bind config = do
  ports ← start config.worker config.media_port_min config.media_port_max
  endpoint ← grpc_endpoint transport config.grpc_url config.insecure_tls
  sockets ← bind_sockets bind config.host_ip ports
  ok (endpoint, map (shard_socket config.media_ip) sockets)

-- The shards of ports advertise these.
abbrev pub addresses : {I L : Type 0} → List (ShardSocket I L) → List (I × ℕ)
addresses shards = map (λ s. s.advertised_addr) shards

-- ===== src/Lib.antt =====
-- AppRTC: the room, signaling and SFU servers of this crate, modelled and proved.
--
-- The program has three servers. The room server (src/room_server.rs, with the parameters of its pages
-- in src/params.rs) answers the browser over HTTP and asks the signaling authority about rooms through
-- the gRPC client (src/grpc_client.rs). The signaling server owns the authority, which is the Collider
-- of the `signaling` crate behind a channel: one event loop (src/signaling_server.rs) serializes the
-- commands of the browsers' WebSockets (src/ws_server.rs) and of the gRPC service
-- (src/grpc_server.rs), which serves room servers and SFU workers. An SFU worker
-- (src/sfu_server.rs) registers over that service, carries out the commands of signaling on its media
-- shards, each of which holds an engine of the `sfu` crate, and reports events back. V2 rooms are
-- named by UUIDs (src/room_id.rs).
--
-- Files, by the part of the program that they are about:
--
--   Prelude       names of the libraries passed on; lists, results, Boolean tests; Prelude/HashMap is
--                 `std::collections::HashMap` as an association list with its laws
--   Std           Std/Parse is `str::parse::<u64>`, Std/Decimal the decimal `Display` of u64, Std/Split the
--                 methods of `str` that take a text apart
--   Params        src/params.rs and src/config.rs; Params/Link the room link of a V2 page
--   Proto         the messages between signaling and SFU workers
--   Page          src/templates.rs: Page/Escape escape, Page/Context context_for
--   RoomId        src/room_id.rs: room_id_to_bytes, room_id_from_bytes
--   Sfu           src/sfu_server.rs
--     Engine      the `sfu` engine, JSON and session descriptions: the record External, a parameter
--     Shard       the state of a shard: its engine and its projection of members; command_error
--     Signal      AppSignal and apply_signal
--     Sync        sync_room; Sync/Lookup and Sync/Post what it leaves in the projection
--     Commands    apply_command; Commands/Fencing, Commands/Members and Commands/Refines its theorems
--     Cache       cache_command; Metrics update_metrics, replace_contribution and next_nonzero
--     MediaLoop   the command branch of media_loop; MediaLoop/Run all of it, MediaLoop/Balance its totals
--     Events      drain_engine
--     Dispatch    dispatch_command, command_room_id and shard_index
--     Session     run_session: registration, the loop over its inputs, queue_health
--     Reconnect   run: its checks, and its sessions one after another
--   Grpc          src/grpc_server.rs and src/grpc_client.rs
--     Operations  AuthorityOperation, AuthorityResult and operation_fingerprint
--     RequestCache  RequestCache and the two sections of `execute` that hold its lock
--     Claims      concurrent calls of `execute` as a step relation over these sections
--     Execute     `execute` as one call
--     Wire, Handlers, Unary  the unary methods: what each asks of the authority and what it tells
--     Stream      encode_sfu_output; Stream/Decode decode_sfu_input, decode_signal and sfu_context;
--                 Stream/Session open_sfu_session, whose task carries these messages
--     Client      GrpcAuthority: the request context and the reading of each response; Client/Connect
--                 connect and grpc_endpoint, Client/Authority the methods of the trait RoomAuthority
--     Service     the service as what the client calls: Service/Direct the trait over the authority itself,
--                 Service/Carried a call that reaches the authority, Service/Seen what its caller reads,
--                 Service/Methods and Service/MethodsV2 each method, Service/Refines and Service/Fresh all requests
--   Driver        src/signaling_server.rs: the commands and handle_command
--     Loop        drain_outputs, drain_authority_responses and run; Loop/Kept what a round keeps
--     Ledger, Answered  which operations wait for an answer and which were given; Answered/Due and
--                 Answered/Round the answers of one round
--     Released    the sockets that the driver holds; Released/Traffic over the commands of all connections
--   Startup       src/bin/apprtc.rs: from the options to the server that listens; Startup/Parts what it is
--                 made of, Startup/Pages what its pages say of it; Startup/Sfu is src/bin/sfu.rs and the
--                 start of `run` in src/sfu_server.rs
--   Tls           src/tls.rs: tls_pem and tls_config
--   Ws            src/ws_server.rs
--     Http        read_http_head, HttpRequest and the answer to a request; Http/Parsed its round trip
--     Session     ws_session; Session/Trace what the driver gets from it
--     Accept      run and handle_connection; Accept/Numbers the numbers of connections, Accept/Sockets the
--                 connections and the driver
--   Room          src/room_server.rs
--     Server      the trait RoomAuthority, responses, http_error
--     Join        v2_join with its attempts
--     Handlers    leave, message, bridge_post, bridge_delete, v2_leave, canonical_u64, bearer_token
--     Pages       request_context, main_page, room_page, v2_room_page, params, join, status
--     Router      the routes; Router/Counted the count of HTTP errors over any requests, Router/Answers
--                 that requests are answered
--     Simulates   the handlers over two authorities: Simulates/Handlers and Simulates/Pages each,
--                 Simulates/Router all
--
-- A struct is a record, an enum a data type, and a handler a function from its state to the new state
-- and its outcome; an error path is a value of Result. A map is an association list: nothing that is
-- proved depends on the order in which the code walks a `HashMap`, except where a sequence of effects
-- is described as the list of what is walked. A u64 is a number with its bound or its wrap-around
-- written out. Integers of the machine's word are taken to have 64 bits.
--
-- Code that is not in this repository is a parameter. The engine of a shard is any state with
-- `handle_event`; where a theorem relies on it, the hypothesis is that it keeps membership as it is
-- told to. The decoders of JSON, of session descriptions and of room tokens, the hasher of the
-- fingerprints and the driver that `execute` asks are functions that may be anything. The Collider
-- is a record of its methods over any state; where a theorem is about the answers of a round, the
-- hypothesis is that polling gives its responses in order, whenever an operation comes to have one,
-- and where its sockets are concerned that it does not fail at a deadline; that its loops of polling
-- end is the hypothesis that a poll takes an element off a queue. Whether a channel takes a message
-- is a test of what was put into channels before. Parsing of URLs, the text of JSON, the rendering
-- of templates and the lossy reading of UTF-8 are functions of the page's or the request's
-- parameters.
--
-- The parts are composed where they meet. The room server takes the trait RoomAuthority as a record of its
-- methods; the gRPC client fills it, over any channel, and the channel is in turn filled by the service of
-- the signaling server before any authority. The same record filled by the authority itself is what the two
-- are compared with. The commands that WebSocket connections send meet in the driver's queue: each
-- connection's commands are in their order there, and nothing else is assumed of how they mix.
--
-- Concurrency. Calls of `execute` are interleaved at the sections that hold the lock, and a call may
-- be dropped between them. The `select!` of a session, of the event loop or of a WebSocket is a list
-- of inputs in the order in which they are taken. A waiting call is not resumed in the model: when
-- the call that it waits for completes it takes the lock anew, which is another attempt. What the
-- shards and the session of a worker share, its totals and the counter of event ids, changes between
-- inputs by what the others are said to have done.
--
-- Loops. The walks over members, pending events and queues are structural. The eviction loop of the
-- request cache has no result when its queue runs out while there are too many entries, which is where
-- the code would spin; a cache in order never comes to that. `v2_join` has eight attempts, and the
-- decimal of a number n is written with n + 1 rounds of fuel, and it has at most that many digits.
-- The counter of connections starts at 1.
-- The loop that draws a request id is given two rounds, since a counter of 64 bits passes 0 once. The
-- loops of the driver that poll the Collider take fuel, and there is always enough: as many rounds as its
-- queues are long, and one more. A session of a browser or of a worker has no result while it waits for
-- another input.
--
-- Not modelled: sockets, timers, threads, TLS handshakes, WebSocket framing, logging, the reading of
-- command lines and the wiring of src/bin/signaling.rs; the rendering of the HTML pages and the
-- static files; the media sockets of an SFU worker; the browser application. Of a gRPC channel the
-- timeouts are left out. The moments that inputs of the Collider carry are left out: only the
-- Collider reads them.
mod Prelude
pub mod Driver
pub mod Grpc
pub mod Page
pub mod Proto
pub mod RoomId
pub mod Room
pub mod Sfu
pub mod Std
pub mod Startup
pub mod Tls
pub mod Ws
pub mod Params

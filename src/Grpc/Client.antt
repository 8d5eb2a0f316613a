-- ===== src/Grpc/Client.antt =====
-- GrpcAuthority of grpc_client.rs. The channel is a parameter of each method: what comes back for its
-- request. `Texts` has what `format!` makes of statuses and numbers, and the generated names of codes.
use apprtc.Prelude.{
  ℕ, zero, suc, String, ◌+◌, ◌%◌, ◌<◌, ◌≢◌, ◌≡◌, Option, some, none, List, Result, ok, err, ◌>>=◌,
  Bool, true, false, ok_or, unwrap_or, str_eq, eqb, ltb, if◌then◌else◌, arith, ◌&&◌,
}
use apprtc.Std.Parse.{u64_mod}
use apprtc.Proto.{RequestContext, ResponseContext, ProtoError, ErrorCode, app_id_apprtc}
use apprtc.Grpc.Operations.{GrpcStatus}
use apprtc.Grpc.Wire.{
  WireMode, p2p, sfu, RpcResult, value, RpcResponse, V1Admission, V2Admission, Occupancy, Status,
}
pub mod Through
pub mod Authority
pub mod Connect

pub record Texts : Type 0 where
  -- "signaling {operation} failed: {error}"
  pub grpc_error : String → GrpcStatus → String
  -- "signaling response request_id mismatch: expected {expected}, received {actual}"
  pub mismatch : ℕ → ℕ → String
  -- "signaling {operation} response missing result"
  pub missing_result : String → String
  -- `ErrorCode::try_from(code)` and `as_str_name`
  pub code_name : ErrorCode → Option String

pub record GrpcAuthority : Type 0 where
  pub instance_id : String
  pub next_request_id : ℕ

pub record StatusSnapshot : Type 0 where
  pub rooms : ℕ
  pub clients : ℕ
  pub websocket_connections : ℕ
  pub total_websocket_connections : ℕ
  pub websocket_errors : ℕ

-- The loop of `context`, with fuel: `fetch_add` until the number drawn is not 0.
unfoldable pub draw : ℕ → ℕ → Option (ℕ × ℕ)
draw zero counter = none
draw (suc fuel) counter =
    let rest = draw fuel ((counter + 1) % u64_mod) in
    if eqb counter 0 then rest else some (counter, (counter + 1) % u64_mod)

-- Two rounds are enough for every counter, and the id that they draw is not 0.
pub draw-two :
    (counter : ℕ)
    → counter < u64_mod
    → (id : ℕ) × (next : ℕ) × (draw 2 counter ≡ some (id, next)) × (id ≢ 0) × (next < u64_mod)
unfolding draw
draw-two zero h = (1, 2, ground arith, ground arith, omega arith)
draw-two (suc n) h = (suc n, (suc n + 1) % u64_mod, ground arith, ground arith, omega arith)

unfoldable pub context : GrpcAuthority → GrpcAuthority × RequestContext
unfolding draw
context g =
    let (id, next) = unwrap_or (draw 2 g.next_request_id) (0, g.next_request_id) in
    (
      record g { next_request_id = next },
      record { app_id = app_id_apprtc; instance_id = g.instance_id; request_id = id },
    )

module _ (texts : Texts) where
  unfoldable pub response_request_id : Option ResponseContext → ℕ → Result (Unit {0}) String
  response_request_id none expected = err "signaling response missing context"
  response_request_id (some c) expected =
      if eqb c.request_id expected then ok tt else err (texts.mismatch expected c.request_id)

  unfoldable pub domain_error : ProtoError → String
  domain_error e =
      if str_eq e.reason ""
      then unwrap_or (texts.code_name e.code) "UNKNOWN_SIGNALING_ERROR"
      else e.reason

  -- The part that all methods share: the status of a failed call, the id of the response, and then
  -- its result.
  unfoldable pub receive :
      {A B : Type 0}
      → String
      → ℕ
      → (Option (RpcResult A) → Result B String)
      → Result (RpcResponse A) GrpcStatus
      → Result B String
  unfolding response_request_id
  receive operation request_id read (err status) = err (texts.grpc_error operation status)
  receive operation request_id read (ok response) =
      response_request_id response.context request_id >>= λ _. read response.result

  unfoldable pub read_admit_v1 : Option (RpcResult V1Admission) → Result V1Admission String
  unfolding domain_error
  read_admit_v1 (some (value admitted)) = ok admitted
  read_admit_v1 (some (RpcResult.error e)) = err (domain_error e)
  read_admit_v1 none = err "signaling admission response missing result"

  unfoldable pub operation_result :
      String → Option (RpcResult (Unit {0})) → Result (Unit {0}) String
  unfolding domain_error
  operation_result operation (some (value _)) = ok tt
  operation_result operation (some (RpcResult.error e)) = err (domain_error e)
  operation_result operation none = err (texts.missing_result operation)

  -- `usize::try_from`, for a usize of 64 bits.
  unfoldable pub to_usize : ℕ → String → Result ℕ String
  to_usize n message = if ltb n u64_mod then ok n else err message

  unfoldable pub read_occupancy : Option (RpcResult Occupancy) → Result ℕ String
  unfolding domain_error to_usize
  read_occupancy (some (value occupancy)) =
      to_usize occupancy.member_count "occupancy count exceeds usize"
  read_occupancy (some (RpcResult.error e)) = err (domain_error e)
  read_occupancy none = err "signaling occupancy response missing result"

  unfoldable pub is_p2p : WireMode → Bool
  is_p2p p2p = true
  is_p2p _ = false

  unfoldable pub is_none : Option Bool → Bool
  is_none none = true
  is_none (some _) = false

  unfoldable pub read_occupancy_v2 : Option (RpcResult Occupancy) → Result ℕ String
  unfolding domain_error to_usize is_p2p
  read_occupancy_v2 (some (value occupancy)) =
      if is_p2p occupancy.mode
      then to_usize occupancy.member_count "occupancy count exceeds usize"
      else err "UNSUPPORTED_ROOM_MODE"
  read_occupancy_v2 (some (RpcResult.error e)) = err (domain_error e)
  read_occupancy_v2 none = err "signaling V2 occupancy response missing result"

  -- The mode that a V2 admission may have.
  unfoldable pub admissible : WireMode → Result (Unit {0}) String
  admissible (WireMode.unknown _) = err "UNSUPPORTED_ROOM_MODE"
  admissible p2p = ok tt
  admissible sfu = ok tt
  admissible _ = err "ROOM_TRANSITION"

  unfoldable pub read_admit_v2 : Option (RpcResult V2Admission) → Result V2Admission String
  unfolding domain_error admissible is_p2p is_none
  read_admit_v2 (some (value admitted)) = admissible admitted.mode >>= λ _.
      if is_p2p admitted.mode && is_none admitted.is_initiator
      then err "P2P admission missing is_initiator"
      else if str_eq admitted.admission_token ""
      then err "V2 admission missing admission_token"
      else ok admitted
  read_admit_v2 (some (RpcResult.error e)) = err (domain_error e)
  read_admit_v2 none = err "signaling V2 admission response missing result"

  unfoldable pub read_status : Option (RpcResult Status) → Result StatusSnapshot String
  unfolding domain_error to_usize
  read_status (some (value status)) =
      to_usize status.v1_rooms "room count exceeds usize" >>= λ rooms.
      to_usize status.clients "client count exceeds usize" >>= λ clients.
      to_usize status.browser_websocket_connections "WebSocket count exceeds usize" >>= λ opened.
      ok (record {
        rooms = rooms;
        clients = clients;
        websocket_connections = opened;
        total_websocket_connections = status.total_browser_websocket_connections;
        websocket_errors = status.browser_websocket_errors;
      })
  read_status (some (RpcResult.error e)) = err (domain_error e)
  read_status none = err "signaling status response missing result"

  -- A method: draw a context, make the request of it, send it and read what comes back. `W` is what is
  -- behind the channel.
  unfoldable pub method :
      {R A B W : Type 0}
      → String
      → (RequestContext → R)
      → (Option (RpcResult A) → Result B String)
      → (R → W → W × Result (RpcResponse A) GrpcStatus)
      → GrpcAuthority × W
      → (GrpcAuthority × W) × Result B String
  unfolding context receive
  method operation request read rpc (g, w) =
      let (g', c) = context g in
      let (w', response) = rpc (request c) w in
      ((g', w'), receive operation c.request_id read response)

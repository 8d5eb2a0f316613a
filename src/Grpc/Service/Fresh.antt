-- ===== src/Grpc/Service/Fresh.antt =====
-- AppRTC with a client that has just connected, and a service that has just started.
use apprtc.Prelude.{
  ℕ, String, Text, ◌+◌, ◌*◌, ◌<◌, ◌≡◌, ◌≢◌, refl, sym, subst, Option, some, List, ok, Bool, inl,
  arith, length,
}
use apprtc.Prelude.HashMap
use apprtc.RoomId.{RoomId}
use apprtc.Std.Parse.{u64_mod}
use apprtc.Params.{Config}
use apprtc.Grpc.Operations.{GrpcStatus, Hashed}
use apprtc.Grpc.Execute.{new_service}
use apprtc.Grpc.Client.{Texts, GrpcAuthority}
use apprtc.Grpc.Client.Connect.{Transport, connect, connect-new}
use apprtc.Grpc.Service.{Authority, World}
use apprtc.Grpc.Service.Carried.{IsReady}
use apprtc.Grpc.Service.Direct.{direct_authority}
use apprtc.Grpc.Service.Matched.{IsRoom, remote}
use apprtc.Grpc.Service.Refines.{serve_all-remote}
use apprtc.Room.Join.{client_id_attempts}
use apprtc.Room.Pages.{External, Request}
use apprtc.Room.Router.{Route, serve_all}
use apprtc.Room.Simulates.Handlers.{inner}

-- A service that has just started, before the authority in a state.
abbrev pub started : {A : Type 0} → A → World A
started a = record { service = new_service; authority = a }

IsReady-new :
    {A : Type 0} (left : ℕ) (instance_id : String) (a : A)
    → instance_id ≢ ""
    → left + 1 < u64_mod
    → IsReady left (record { instance_id = instance_id; next_request_id = 1 }, started a) a
unfolding HashMap.get
IsReady-new left instance_id a named h = record {
  named = named;
  started = omega arith;
  ahead = omega (arith, h);
  cache = record { listed = refl; distinct = tt; bounded = omega arith; disjoint = λ k. inl refl };
  unused = λ n i. record { uncached = refl; idle = refl };
  authority = refl;
}

-- AppRTC over a gRPC client that has just connected, to a service that has just started, answers any
-- sequence of requests as AppRTC over the signaling authority itself would: the responses are the
-- same, as many HTTP errors are counted, and the authority ends in the same state, so that each
-- operation reaches it once, in order, and its result comes back. The instance id is not empty, there
-- are at most 2 ^ 64 - 2 calls, eight for each request, the decoder of room tokens yields room ids only,
-- and the authority answers each operation under its id.
pub serve_all-connect :
    {A E : Type 0} (texts : Texts) (x : Authority A) (hash : List Hashed → ℕ) (expired : GrpcStatus)
    (is_room_uuid : RoomId → Bool) (e : External) (config : Config)
    (parse_room_token : String → Option RoomId) (string_of : Text → String)
    (failed : String → String) (calls : List (Route × Request)) (h : ℕ) (a : A)
    (transport : Transport E) (instance_id url : String) (insecure_tls : Bool) (channel : E)
    (g : GrpcAuthority)
    → connect transport instance_id url insecure_tls ≡ ok (channel, g)
    → instance_id ≢ ""
    → length calls * client_id_attempts + 1 < u64_mod
    → ((token : String) (id : RoomId) → parse_room_token token ≡ some id → IsRoom is_room_uuid id)
    → let p =
        serve_all e config parse_room_token string_of failed
          (remote texts x hash expired is_room_uuid)
          calls
          (inner (g, started a) h) in
      let q =
        serve_all e config parse_room_token string_of failed
          (direct_authority texts x)
          calls
          (inner a h) in
      (p.1 ≡ q.1)
      × (p.0.http_errors ≡ q.0.http_errors)
      × (p.0.authority.1.authority ≡ q.0.authority)
serve_all-connect texts x hash expired is_room_uuid e config parse_room_token string_of failed calls
      h a transport instance_id url insecure_tls channel g connected named few parsed =
    serve_all-remote texts x hash expired is_room_uuid e config parse_room_token string_of failed
      calls h g (started a) parsed
      (subst (λ i. IsReady (length calls * client_id_attempts) (i, started a) a)
        (sym (connect-new transport instance_id url insecure_tls channel g connected))
        (IsReady-new (length calls * client_id_attempts) instance_id a named few))

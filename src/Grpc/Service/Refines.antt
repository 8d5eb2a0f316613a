-- ===== src/Grpc/Service/Refines.antt =====
-- AppRTC over the client of grpc_client.rs and the service of grpc_server.rs, against AppRTC over the
-- signaling authority itself.
use apprtc.Prelude.{
  ℕ, String, Text, Bool, ◌+◌, ◌*◌, ◌≡◌, sym, subst, Option, some, List, arith, length,
}
use apprtc.RoomId.{RoomId}
use apprtc.Params.{Config}
use apprtc.Grpc.Operations.{GrpcStatus, Hashed}
use apprtc.Grpc.Client.{Texts, GrpcAuthority}
use apprtc.Grpc.Service.{Authority, World}
use apprtc.Grpc.Service.Carried.{IsReady}
use apprtc.Grpc.Service.Direct.{direct_authority}
use apprtc.Grpc.Service.Matched.{IsRoom, remote}
use apprtc.Grpc.Service.Methods.{
  admit-IsMatched, remove-IsMatched, occupancy-IsMatched, inject-IsMatched, status-IsMatched,
}
use apprtc.Grpc.Service.MethodsV2.{admit_v2-IsMatched, remove_v2-IsMatched}
use apprtc.Room.Join.{client_id_attempts}
use apprtc.Room.Pages.{External, Request}
use apprtc.Room.Router.{Route, serve_all}
use apprtc.Room.Simulates.{IsMatched, Simulates}
use apprtc.Room.Simulates.Handlers.{inner}
use apprtc.Room.Simulates.Router.{serve_all-IsAlike}

IsReady-fewer :
    {A : Type 0} (n : ℕ) (s : GrpcAuthority × World A) (a : A) → IsReady (n + 1) s a → IsReady n s a
IsReady-fewer n s a r = record {
  named = r.named;
  started = r.started;
  ahead = omega (arith, r.ahead);
  cache = r.cache;
  unused = r.unused;
  authority = r.authority;
}

-- It is enough to look at the state of the authority in the service.
on_authority :
    {A V : Type 0} (n : ℕ) (s : GrpcAuthority × World A) (a : A) (p : (GrpcAuthority × World A) × V)
    (f : A → A × V)
    → IsReady (n + 1) s a
    → (IsReady (n + 1) s s.1.authority → IsMatched (IsReady n) p (f s.1.authority))
    → IsMatched (IsReady n) p (f a)
on_authority n s a p f r each =
    subst (λ b. IsMatched (IsReady n) p (f b)) r.authority
      (each (subst (IsReady (n + 1) s) (sym r.authority) r))

module _ {A : Type 0} (texts : Texts) (x : Authority A) (hash : List Hashed → ℕ)
    (expired : GrpcStatus) (is_room_uuid : RoomId → Bool) where
  remote-Simulates :
      Simulates
        (IsRoom is_room_uuid)
        IsReady
        (remote texts x hash expired is_room_uuid)
        (direct_authority texts x)
  remote-Simulates = record {
    fewer = IsReady-fewer;
    admit = λ room client loopback n s a r.
        on_authority n s a _ ((direct_authority texts x).admit room client loopback) r
          (admit-IsMatched texts x hash expired is_room_uuid room client loopback n s);
    remove = λ room client n s a r.
        on_authority n s a _ ((direct_authority texts x).remove room client) r
          (remove-IsMatched texts x hash expired is_room_uuid room client n s);
    occupancy = λ room n s a r.
        on_authority n s a _ ((direct_authority texts x).occupancy room) r
          (occupancy-IsMatched texts x hash expired is_room_uuid room n s);
    inject = λ room client message n s a r.
        on_authority n s a _ ((direct_authority texts x).inject room client message) r
          (inject-IsMatched texts x hash expired is_room_uuid room client message n s);
    admit_v2 = λ room client n s a v r.
        on_authority n s a _ ((direct_authority texts x).admit_v2 room client) r
          (admit_v2-IsMatched texts x hash expired is_room_uuid room client n s v);
    remove_v2 = λ room client token n s a v r.
        on_authority n s a _ ((direct_authority texts x).remove_v2 room client token) r
          (remove_v2-IsMatched texts x hash expired is_room_uuid room client token n s v);
    status = λ n s a r.
        on_authority n s a _ ((direct_authority texts x).status) r
          (status-IsMatched texts x hash expired is_room_uuid n s);
  }

  -- AppRTC over its gRPC client and the service answers any sequence of requests as AppRTC over the
  -- signaling authority itself: the responses are the same, as many HTTP errors are counted, and the
  -- authority ends in the same state, so each operation reaches it once and in order. The client has
  -- a name, its counter does not come round within eight calls for each request, none of the numbers
  -- from its next one on is in the request cache, which is in order, and the decoder of room tokens
  -- yields room ids only.
  pub serve_all-remote :
      (e : External) (config : Config) (parse_room_token : String → Option RoomId)
      (string_of : Text → String) (failed : String → String) (calls : List (Route × Request))
      (h : ℕ) (g : GrpcAuthority) (w : World A)
      → ((token : String) (id : RoomId) → parse_room_token token ≡ some id → IsRoom is_room_uuid id)
      → IsReady (length calls * client_id_attempts) (g, w) w.authority
      → let p =
          serve_all e config parse_room_token string_of failed
            (remote texts x hash expired is_room_uuid)
            calls
            (inner (g, w) h) in
        let q =
          serve_all e config parse_room_token string_of failed
            (direct_authority texts x)
            calls
            (inner w.authority h) in
        (p.1 ≡ q.1)
        × (p.0.http_errors ≡ q.0.http_errors)
        × (p.0.authority.1.authority ≡ q.0.authority)
  serve_all-remote e config parse_room_token string_of failed calls h g w parsed r =
      let (after, counted, same) =
        serve_all-IsAlike e config parse_room_token string_of failed (IsRoom is_room_uuid) IsReady
          (remote texts x hash expired is_room_uuid) (direct_authority texts x) remote-Simulates
          parsed calls 0 h (g, w) w.authority
          (subst (λ i. IsReady i (g, w) w.authority) (omega arith) r) in
      (same, counted, after.authority)

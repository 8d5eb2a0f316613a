-- ===== src/Grpc/Service/Matched.antt =====
-- A method of GrpcAuthority of grpc_client.rs over the service of grpc_server.rs.
use apprtc.Prelude.{
  ℕ, String, ◌+◌, ◌≡◌, sym, ◌∙◌, ap, subst, Option, some, List, Result, ok, err, Bool, true, false,
  length, if◌then◌else◌,
}
use apprtc.RoomId.{RoomId}
use apprtc.Proto.{RequestContext}
use apprtc.Grpc.Operations.{AuthorityOperation, AuthorityResult, GrpcStatus, Hashed}
use apprtc.Grpc.Wire.{RpcResult, RpcResponse}
use apprtc.Grpc.Handlers.{app_context}
use apprtc.Grpc.Unary.{Asked}
use apprtc.Grpc.Client.{Texts, GrpcAuthority, method}
use apprtc.Grpc.Client.Authority.{grpc_authority}
use apprtc.Grpc.Service.{Authority, World, serve, channel}
use apprtc.Grpc.Service.Carried.{IsReady, seen, method-asked, method-refused}
use apprtc.Grpc.Service.Direct.{perform_and}
use apprtc.Room.Server.{RoomAuthority}
use apprtc.Room.Simulates.{IsMatched}

-- A room id that is read back from its bytes.
abbrev pub IsRoom : (RoomId → Bool) → RoomId → Type 0
IsRoom is_room_uuid room = (length room.bytes ≡ 16) × (is_room_uuid room ≡ true)

module _ {A : Type 0} (texts : Texts) (x : Authority A) (hash : List Hashed → ℕ)
    (expired : GrpcStatus) (is_room_uuid : RoomId → Bool) where
  -- The client, the service and the authority as one RoomAuthority.
  abbrev pub remote : RoomAuthority (GrpcAuthority × World A)
  remote = grpc_authority texts (channel x hash expired is_room_uuid)

  -- A method, whose request is refused or asks for an operation, against what it is meant to do.
  pub matched :
      {R B V : Type 0} (name : String) (request : RequestContext → R)
      (read : Option (RpcResult B) → Result V String)
      (rpc : R → World A → World A × Result (RpcResponse B) GrpcStatus)
      (asked : RequestContext → Asked) (tell : AuthorityResult → Result (RpcResult B) GrpcStatus)
      (see : AuthorityResult → Result V String) (refused : Bool) (failure : GrpcStatus)
      (operation : AuthorityOperation) (n : ℕ) (s : GrpcAuthority × World A) (a : A)
      → ((r : AuthorityResult) → seen texts name read (tell r) ≡ see r)
      → ((c : RequestContext) → rpc (request c) s.1 ≡ serve x hash expired (asked c) tell s.1)
      → ((c : RequestContext)
          → app_context (some c) ≡ ok c
          → asked c ≡ (if refused then err failure else ok (c, operation)))
      → IsReady (n + 1) s a
      → IsMatched (IsReady n) (method texts name request read rpc s) (
          if refused
          then (a, err (texts.grpc_error name failure))
          else perform_and texts x operation see a)
  matched name request read rpc asked tell see true failure operation n s a sees sent asks r =
      let (s', e, ready) =
        method-refused x hash expired texts name request read rpc failure tell n s a
          (λ c good. sent c ∙ ap (λ i. serve x hash expired i tell s.1) (asks c good)) r in
      (subst (λ i. IsReady n i a) (sym (ap (λ p. p.0) e)) ready, ap (λ p. p.1) e)
  matched name request read rpc asked tell see false failure operation n s a sees sent asks r =
      let (s', e, ready) =
        method-asked x hash expired texts name request read rpc operation tell n s a
          (λ c good. sent c ∙ ap (λ i. serve x hash expired i tell s.1) (asks c good)) r in
      (
        subst (λ i. IsReady n i (x.perform operation a).0) (sym (ap (λ p. p.0) e)) ready,
        ap (λ p. p.1) e ∙ sees (x.perform operation a).1,
      )

-- ===== src/Grpc/Client/Through.antt =====
-- What passes through the service from the signaling authority to a caller of GrpcAuthority.
use apprtc.Prelude.{
  ℕ, String, ◌<◌, ◌≡◌, ◌≢◌, ◌⊎◌, refl, inl, inr, some, none, ok, err, arith, eq_iff,
}
use apprtc.Std.Parse.{u64_mod}
use apprtc.Grpc.Operations.{AuthorityResult, RoomMode}
use apprtc.Grpc.Wire.{V2Admission}
use apprtc.Grpc.Handlers.{app_context, proto_room_mode}
use apprtc.Grpc.Unary.{
  tell_admit_v1, tell_operation, tell_occupancy_v1, tell_occupancy_v2, tell_admit_v2, tell_status,
  respond,
}
use apprtc.Grpc.Client.{
  Texts, GrpcAuthority, context, draw-two, receive, read_admit_v1, operation_result, read_occupancy,
  read_occupancy_v2, read_admit_v2, read_status,
}

-- Every context that a client with a name and a counter of 64 bits draws is accepted by the server:
-- it has a request id other than 0, and the client is fit to draw the next one.
pub app_context-context :
    (g : GrpcAuthority)
    → g.instance_id ≢ ""
    → g.next_request_id < u64_mod
    → (app_context (some (context g).1) ≡ ok (context g).1)
      × ((context g).1.request_id ≢ 0)
      × ((context g).0.next_request_id < u64_mod)
unfolding app_context context
app_context-context g named h =
    let (id, next, drawn, nonzero, fits) = draw-two g.next_request_id h in
    ground (arith, drawn, nonzero, fits, (eq_iff g.instance_id "").0)

module _ (texts : Texts) (id : ℕ) where
  -- The reason for which the authority refuses an operation reaches the caller of the client unchanged,
  -- by every method, where it is not empty.
  pub receive-error :
      (operation reason : String)
      → reason ≢ ""
      → (receive texts operation id
            (read_admit_v1 texts)
            (respond id (tell_admit_v1 (AuthorityResult.error reason)))
          ≡ err reason)
        × (receive texts operation id
              (operation_result texts operation)
              (respond id (tell_operation (AuthorityResult.error reason)))
            ≡ err reason)
        × (receive texts operation id
              (read_occupancy texts)
              (respond id (tell_occupancy_v1 (AuthorityResult.error reason)))
            ≡ err reason)
        × (receive texts operation id
              (read_admit_v2 texts)
              (respond id (tell_admit_v2 (AuthorityResult.error reason)))
            ≡ err reason)
        × (receive texts operation id
              (read_occupancy_v2 texts)
              (respond id (tell_occupancy_v2 (AuthorityResult.error reason)))
            ≡ err reason)
        × (receive texts operation id
              (read_status texts)
              (respond id (tell_status (AuthorityResult.error reason)))
            ≡ err reason)
  unfolding receive respond read_admit_v1 operation_result read_occupancy read_admit_v2
      read_occupancy_v2 read_status tell_admit_v1 tell_operation tell_occupancy_v1 tell_admit_v2
      tell_occupancy_v2 tell_status
  receive-error operation reason named =
      let differs = (eq_iff reason "").0 in
      (
        ground (arith, named, differs),
        ground (arith, named, differs),
        ground (arith, named, differs),
        ground (arith, named, differs),
        ground (arith, named, differs),
        ground (arith, named, differs),
      )

  -- A V2 admission that the client accepts is the one that the authority gave, with the same epoch,
  -- token and role; its mode is P2P or SFU, its token is not empty, and in a P2P room the role is known.
  pub receive-admit_v2 :
      (operation : String) (result : AuthorityResult) (a : V2Admission)
      → receive texts operation id (read_admit_v2 texts) (respond id (tell_admit_v2 result)) ≡ ok a
      → (mode : RoomMode) × (result
          ≡ AuthorityResult.admitted_v2 mode a.signal_epoch a.admission_token a.is_initiator)
        × (a.mode ≡ proto_room_mode mode)
        × (((mode ≡ RoomMode.p2p) × (a.is_initiator ≢ none)) ⊎ (mode ≡ RoomMode.sfu))
        × (a.admission_token ≢ "")
  unfolding receive respond read_admit_v2 tell_admit_v2
  receive-admit_v2 operation (AuthorityResult.admitted_v2 RoomMode.p2p epoch token initiator) a h =
      let empty = (eq_iff token "").1 in
      (RoomMode.p2p, ground arith, ground arith, inl (refl, ground arith), ground (arith, empty))
  receive-admit_v2 operation (AuthorityResult.admitted_v2 RoomMode.sfu epoch token initiator) a h =
      let empty = (eq_iff token "").1 in
      (RoomMode.sfu, ground arith, ground arith, inr refl, ground (arith, empty))
  receive-admit_v2 operation (AuthorityResult.admitted_v2 RoomMode.upgrading _ _ _) a h =
      absurd (ground arith)
  receive-admit_v2 operation (AuthorityResult.admitted_v2 RoomMode.failed _ _ _) a h =
      absurd (ground arith)
  receive-admit_v2 operation (AuthorityResult.error reason) a h = absurd (ground arith)
  receive-admit_v2 operation (AuthorityResult.admitted _ _) a h = absurd (ground arith)
  receive-admit_v2 operation AuthorityResult.removed a h = absurd (ground arith)
  receive-admit_v2 operation AuthorityResult.injected a h = absurd (ground arith)
  receive-admit_v2 operation AuthorityResult.removed_v2 a h = absurd (ground arith)
  receive-admit_v2 operation (AuthorityResult.occupancy _) a h = absurd (ground arith)
  receive-admit_v2 operation (AuthorityResult.occupancy_v2 _ _) a h = absurd (ground arith)
  receive-admit_v2 operation (AuthorityResult.status _) a h = absurd (ground arith)

-- ===== src/Grpc/Service/Seen.antt =====
-- What a caller of grpc_client.rs reads from what the methods of grpc_server.rs tell, against what it is
-- meant to see of the authority's result.
use apprtc.Prelude.{
  ℕ, String, eq_iff, ◌≡◌, refl, sym, subst, String-discrete, Result, ok, err, arith,
}
use apprtc.Grpc.Operations.{AuthorityResult, RoomMode}
use apprtc.Grpc.Handlers.{domain_error, error_code, saturated}
use apprtc.Grpc.Unary.{tell_admit_v1, tell_operation, tell_occupancy_v1, tell_admit_v2, tell_status}
use apprtc.Grpc.Client.{
  Texts, to_usize, read_admit_v1, operation_result, read_occupancy, read_admit_v2, read_status,
}
use apprtc.Grpc.Client
use apprtc.Grpc.Service.Carried.{seen}
use apprtc.Grpc.Service.Direct.{
  refusal, capped, see_admit, see_operation, see_occupancy, see_admit_v2, see_status,
}

abbrev refused : (V : Type 0) → String → Result V String
refused V reason = err reason

module _ (texts : Texts) where
  refusal_lem :
      (V : Type 0) (reason : String)
      → refused V (Client.domain_error texts (domain_error reason)) ≡ refusal texts reason
  unfolding Client.domain_error domain_error error_code
  refusal_lem V reason = elim (String-discrete reason "") [
    | yes same ↦
        subst (λ i. refused V (Client.domain_error texts (domain_error i)) ≡ refusal texts i)
          (sym same) refl
    | no differs ↦ ground (arith, (eq_iff reason "").0, differs)
  ]

  to_usize-saturated :
      (n : ℕ) (message : String) → to_usize texts (saturated n) message ≡ ok (capped texts n)
  unfolding to_usize saturated
  to_usize-saturated n message = ground arith

  pub see_admit-tell :
      (r : AuthorityResult)
      → seen texts "admit_v1" (read_admit_v1 texts) (tell_admit_v1 r) ≡ see_admit texts r
  unfolding seen read_admit_v1 tell_admit_v1 see_admit
  see_admit-tell (AuthorityResult.error reason) = refusal_lem _ reason
  see_admit-tell (AuthorityResult.admitted _ _) = refl
  see_admit-tell AuthorityResult.removed = refl
  see_admit-tell AuthorityResult.injected = refl
  see_admit-tell AuthorityResult.removed_v2 = refl
  see_admit-tell (AuthorityResult.occupancy _) = refl
  see_admit-tell (AuthorityResult.admitted_v2 _ _ _ _) = refl
  see_admit-tell (AuthorityResult.occupancy_v2 _ _) = refl
  see_admit-tell (AuthorityResult.status _) = refl

  pub see_operation-tell :
      (operation : String) (r : AuthorityResult)
      → seen texts operation (operation_result texts operation) (tell_operation r)
        ≡ see_operation texts operation r
  unfolding seen operation_result tell_operation see_operation
  see_operation-tell operation (AuthorityResult.error reason) = refusal_lem _ reason
  see_operation-tell operation (AuthorityResult.admitted _ _) = refl
  see_operation-tell operation AuthorityResult.removed = refl
  see_operation-tell operation AuthorityResult.injected = refl
  see_operation-tell operation AuthorityResult.removed_v2 = refl
  see_operation-tell operation (AuthorityResult.occupancy _) = refl
  see_operation-tell operation (AuthorityResult.admitted_v2 _ _ _ _) = refl
  see_operation-tell operation (AuthorityResult.occupancy_v2 _ _) = refl
  see_operation-tell operation (AuthorityResult.status _) = refl

  pub see_occupancy-tell :
      (r : AuthorityResult)
      → seen texts "occupancy_v1" (read_occupancy texts) (tell_occupancy_v1 r)
        ≡ see_occupancy texts r
  unfolding seen read_occupancy tell_occupancy_v1 see_occupancy
  see_occupancy-tell (AuthorityResult.error reason) = refusal_lem _ reason
  see_occupancy-tell (AuthorityResult.occupancy count) =
      to_usize-saturated count "occupancy count exceeds usize"
  see_occupancy-tell (AuthorityResult.admitted _ _) = refl
  see_occupancy-tell AuthorityResult.removed = refl
  see_occupancy-tell AuthorityResult.injected = refl
  see_occupancy-tell AuthorityResult.removed_v2 = refl
  see_occupancy-tell (AuthorityResult.admitted_v2 _ _ _ _) = refl
  see_occupancy-tell (AuthorityResult.occupancy_v2 _ _) = refl
  see_occupancy-tell (AuthorityResult.status _) = refl

  pub see_admit_v2-tell :
      (r : AuthorityResult)
      → seen texts "admit_v2" (read_admit_v2 texts) (tell_admit_v2 r) ≡ see_admit_v2 texts r
  unfolding seen read_admit_v2 tell_admit_v2 see_admit_v2
  see_admit_v2-tell (AuthorityResult.error reason) = refusal_lem _ reason
  see_admit_v2-tell (AuthorityResult.admitted_v2 RoomMode.p2p epoch token initiator) = ground arith
  see_admit_v2-tell (AuthorityResult.admitted_v2 RoomMode.sfu epoch token initiator) = ground arith
  see_admit_v2-tell (AuthorityResult.admitted_v2 RoomMode.upgrading _ _ _) = refl
  see_admit_v2-tell (AuthorityResult.admitted_v2 RoomMode.failed _ _ _) = refl
  see_admit_v2-tell (AuthorityResult.admitted _ _) = refl
  see_admit_v2-tell AuthorityResult.removed = refl
  see_admit_v2-tell AuthorityResult.injected = refl
  see_admit_v2-tell AuthorityResult.removed_v2 = refl
  see_admit_v2-tell (AuthorityResult.occupancy _) = refl
  see_admit_v2-tell (AuthorityResult.occupancy_v2 _ _) = refl
  see_admit_v2-tell (AuthorityResult.status _) = refl

  pub see_status-tell :
      (r : AuthorityResult)
      → seen texts "get_status" (read_status texts) (tell_status r) ≡ see_status texts r
  unfolding seen read_status tell_status see_status
  see_status-tell (AuthorityResult.error reason) = refusal_lem _ reason
  see_status-tell (AuthorityResult.status report) =
      rw (to_usize-saturated report.rooms "room count exceeds usize") (
        rw (to_usize-saturated report.clients "client count exceeds usize") (
          rw (to_usize-saturated report.websocket_connections "WebSocket count exceeds usize")
            refl))
  see_status-tell (AuthorityResult.admitted _ _) = refl
  see_status-tell AuthorityResult.removed = refl
  see_status-tell AuthorityResult.injected = refl
  see_status-tell AuthorityResult.removed_v2 = refl
  see_status-tell (AuthorityResult.occupancy _) = refl
  see_status-tell (AuthorityResult.admitted_v2 _ _ _ _) = refl
  see_status-tell (AuthorityResult.occupancy_v2 _ _) = refl

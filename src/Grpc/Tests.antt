-- ===== src/Grpc/Tests.antt =====
-- The theorems about grpc_server.rs and grpc_client.rs at concrete requests.
use apprtc.Prelude.{
  ℕ, String, ◌≡◌, ◌≢◌, ◌⊎◌, ◌↔◌, refl, inl, some, none, List, [], ◌∷◌, ok, err, arith, length,
  eq_iff,
}
use mathlib.Core.Bool.{false≢true}
use apprtc.Prelude.HashMap
use apprtc.Proto.{RequestContext, app_id_apprtc}
use apprtc.Grpc.Operations.{AuthorityOperation, AuthorityResult, Hashed, RoomMode, hashed}
use apprtc.Grpc.Operations.Fingerprint.{lasting, hashed_iff}
use apprtc.Grpc.RequestCache.{
  RequestKey, RequestKey-discrete, RequestCache, InFlightRequest, empty_cache, enter, finish,
  waiting, request_cache_capacity,
}
use apprtc.Grpc.RequestCache.Bounded.{IsCache}
use apprtc.Grpc.Claims.{
  Server, Step, Steps, IsServer, started, started_server, stopped, Steps-IsServer,
}
use apprtc.Grpc.Claims.Abandoned.{enter-cancelled}
use apprtc.Grpc.Execute.{Reply, answered, GrpcSignalingService, returned, execute}
use apprtc.Grpc.Execute.Once.{IsFree, answer, execute-free, execute-twice}
use apprtc.Grpc.Wire.{V2Admission}
use apprtc.Grpc.Wire
use apprtc.Grpc.Handlers.{proto_room_mode}
use apprtc.Grpc.Unary.{
  tell_admit_v1, tell_operation, tell_occupancy_v1, tell_occupancy_v2, tell_admit_v2, tell_status,
  respond,
}
use apprtc.Grpc.Client.{
  Texts, GrpcAuthority, receive, read_admit_v1, operation_result, read_occupancy, read_occupancy_v2,
  read_admit_v2, read_status,
}
use apprtc.Grpc.Client.Through.{receive-error, receive-admit_v2}
use apprtc.RoomId.{RoomId}

abbrev key : RequestKey
key = record { instance_id = "apprtc-1"; request_id = 7 }

empty-IsCache : IsCache 2 empty_cache
unfolding HashMap.get
empty-IsCache = record {
  listed = refl;
  distinct = tt;
  bounded = omega arith;
  disjoint = λ k. inl refl;
}

abbrev remembered : RequestCache
remembered = record {
  entries = (key, record { operation_fingerprint = 5; result = AuthorityResult.removed }) ∷ [];
  in_flight = [];
  order = key ∷ [];
}

finish-remembered : finish 2 key 5 (ok AuthorityResult.removed) empty_cache ≡ some remembered
unfolding finish
finish-remembered = refl

-- One call claims the key and is cancelled, and another one comes.
abbrev claimed_once : Server
claimed_once = started key 5 started_server

runs-claimed_once : claimed_once.running key ≡ 1
unfolding started started_server RequestKey-discrete
runs-claimed_once = refl

abbrev cancelled_once : Server
cancelled_once = record { cache = claimed_once.cache; running = stopped key claimed_once }

claimed-Steps : Steps 2 started_server claimed_once
claimed-Steps = Steps.then_one Steps.none_yet (Step.attempt key 5)

Steps-IsServer_example : IsServer 2 cancelled_once
Steps-IsServer_example =
    Steps-IsServer 2 {s = cancelled_once} (omega arith)
      (Steps.then_one claimed-Steps (Step.cancel key (omega (arith, runs-claimed_once))))

abbrev claim : InFlightRequest
claim = record { operation_fingerprint = 5 }

in_flight-claimed_once :
    HashMap.get RequestKey-discrete claimed_once.cache.in_flight key ≡ some claim
unfolding started started_server RequestKey-discrete
in_flight-claimed_once = refl

enter-cancelled_example : enter key 5 (started key 5 cancelled_once).cache ≡ waiting
enter-cancelled_example =
    enter-cancelled 2 key claim {s = claimed_once} {t = started key 5 cancelled_once} (omega arith)
      (Steps-IsServer 2 (omega arith) claimed-Steps) in_flight-claimed_once runs-claimed_once
      (Steps.then_one Steps.none_yet (Step.attempt key 5))

abbrev request : RequestContext
request = record { app_id = app_id_apprtc; instance_id = "apprtc-1"; request_id = 7 }

abbrev driver : ℕ → AuthorityOperation → Reply
driver id operation = answered id AuthorityResult.removed

abbrev service : GrpcSignalingService
service = record { request_cache = empty_cache; next_authority_request_id = 1 }

abbrev hash : List Hashed → ℕ
hash = length

service-IsCache : IsCache request_cache_capacity empty_cache
unfolding HashMap.get
service-IsCache = record {
  listed = refl;
  distinct = tt;
  bounded = omega arith;
  disjoint = λ k. inl refl;
}

service-IsFree : IsFree request service
unfolding HashMap.get
service-IsFree = record { uncached = refl; idle = refl }

abbrev removal : AuthorityOperation
removal = AuthorityOperation.remove "42" "7"

execute-free_example :
    (s : GrpcSignalingService) × (execute hash driver request removal service
      ≡ returned s (answer hash driver removal service))
    × IsCache request_cache_capacity s.request_cache
execute-free_example =
    execute-free hash driver request removal service service-IsCache service-IsFree

abbrev served : GrpcSignalingService
served = record {
  request_cache = record {
    entries = (key, record { operation_fingerprint = 3; result = AuthorityResult.removed }) ∷ [];
    in_flight = [];
    order = key ∷ [];
  };
  next_authority_request_id = 2;
}

execute-removal :
    execute hash driver request removal service ≡ returned served (ok AuthorityResult.removed)
unfolding execute RequestKey-discrete
execute-removal = refl

-- The authority would now refuse the removal.
execute-twice_example :
    execute hash
      (λ id _. answered id (AuthorityResult.error "CLIENT_NOT_FOUND"))
      request
      removal
      served
    ≡ returned served (ok AuthorityResult.removed)
execute-twice_example =
    execute-twice hash driver request removal removal
      (λ id _. answered id (AuthorityResult.error "CLIENT_NOT_FOUND")) service served
      AuthorityResult.removed service-IsCache service-IsFree refl execute-removal

abbrev room : RoomId
room = record { bytes = [] }

abbrev first_try : AuthorityOperation
first_try = AuthorityOperation.admit_v2 room 7 "5f" 100

abbrev retry : AuthorityOperation
retry = AuthorityOperation.admit_v2 room 7 "a0" 200

hashed_iff_example : (hashed first_try ≡ hashed retry) ↔ (lasting first_try ≡ lasting retry)
hashed_iff_example = hashed_iff first_try retry

abbrev authority : GrpcAuthority
authority = record { instance_id = "apprtc-1"; next_request_id = 0 }

named : authority.instance_id ≢ ""
named e = false≢true ((eq_iff "apprtc-1" "").1 e)

abbrev reason : String
reason = "FULL"

full : reason ≢ ""
full e = false≢true ((eq_iff "FULL" "").1 e)

abbrev texts : Texts
texts = record {
  grpc_error = λ operation status. operation;
  mismatch = λ expected actual. "mismatch";
  missing_result = λ operation. "missing";
  code_name = λ code. none;
}

abbrev admission : V2Admission
admission = record {
  mode = Wire.WireMode.sfu;
  signal_epoch = 3;
  admission_token = "5f";
  is_initiator = none;
}

receive-admit_v2_example :
    (mode : RoomMode) × (AuthorityResult.admitted_v2 RoomMode.sfu 3 "5f" none
      ≡ AuthorityResult.admitted_v2 mode 3 "5f" none)
    × (Wire.WireMode.sfu ≡ proto_room_mode mode)
    × (((mode ≡ RoomMode.p2p) × (admission.is_initiator ≢ none)) ⊎ (mode ≡ RoomMode.sfu))
    × (admission.admission_token ≢ "")
unfolding receive respond read_admit_v2 tell_admit_v2
receive-admit_v2_example =
    receive-admit_v2 texts 7 "admit_v2" (AuthorityResult.admitted_v2 RoomMode.sfu 3 "5f" none)
      admission refl

receive-error_example :
    (receive texts "status" 7
        (read_admit_v1 texts)
        (respond 7 (tell_admit_v1 (AuthorityResult.error "FULL")))
      ≡ err "FULL")
    × (receive texts "status" 7
          (operation_result texts "status")
          (respond 7 (tell_operation (AuthorityResult.error "FULL")))
        ≡ err "FULL")
    × (receive texts "status" 7
          (read_occupancy texts)
          (respond 7 (tell_occupancy_v1 (AuthorityResult.error "FULL")))
        ≡ err "FULL")
    × (receive texts "status" 7
          (read_admit_v2 texts)
          (respond 7 (tell_admit_v2 (AuthorityResult.error "FULL")))
        ≡ err "FULL")
    × (receive texts "status" 7
          (read_occupancy_v2 texts)
          (respond 7 (tell_occupancy_v2 (AuthorityResult.error "FULL")))
        ≡ err "FULL")
    × (receive texts "status" 7
          (read_status texts)
          (respond 7 (tell_status (AuthorityResult.error "FULL")))
        ≡ err "FULL")
receive-error_example = receive-error texts 7 "status" "FULL" full

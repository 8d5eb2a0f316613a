-- ===== src/Room/Router/Answers.antt =====
-- Every request is answered: the `unreachable!` of `v2_join` in room_server.rs is never reached over the
-- client of grpc_client.rs.
use apprtc.Prelude.{
  ℕ, zero, suc, String, Text, ◌+◌, ◌≡◌, ◌≢◌, ◌⊎◌, inl, inr, refl, subst, Option, some, none, List,
  [], ◌∷◌, Result, ok, err, All, arith, Option-cases, Result-cases, Bool-cases, str_eq, ltb, ◌&&◌,
}
use apprtc.RoomId.{RoomId, room_id_to_bytes}
use apprtc.Params.{Config}
use apprtc.Grpc.Operations.{GrpcStatus}
use apprtc.Grpc.Wire.{AdmitV2Request, WireMode, V2Admission, RpcResult, value, RpcResponse}
use apprtc.Grpc.Client.{
  Texts, GrpcAuthority, context, method, admissible, read_admit_v2, response_request_id, receive,
}
use apprtc.Grpc.Client.Authority.{Channel, grpc_authority, admit_v2}
use apprtc.Room.Server.{Inner}
use apprtc.Room.Join.{
  Joined, admitted, rejected, exhausted, mode_name, attempts, client_id_attempts, join_response,
  v2_join_handler,
}
use apprtc.Room.Pages.{External, Request}
use apprtc.Room.Router.{
  Route, at_root, at_room, at_v2_room, at_join, at_v2_join, at_leave, at_v2_leave, at_message,
  at_params, at_v2_params, at_iceconfig, at_status, post_bridge, delete_bridge, links, serve,
  serve_all,
}

-- An admission in a mode that has a name.
abbrev pub IsNamed : V2Admission → Type 0
IsNamed admission = (admission.mode ≡ WireMode.p2p) ⊎ (admission.mode ≡ WireMode.sfu)

abbrev IsJoined : Joined → Type 0
IsJoined (admitted client admission) = IsNamed admission
IsJoined _ = Unit

join_response-answers :
    (roomid : String) (links : String × String) (j : Joined)
    → IsJoined j
    → join_response roomid links j ≢ none
unfolding join_response mode_name
join_response-answers roomid links (admitted client admission) (inl e) =
    rw (e, join_response) (λ i. ground arith)
join_response-answers roomid links (admitted client admission) (inr e) =
    rw (e, join_response) (λ i. ground arith)
join_response-answers roomid links (rejected error) j = λ i. ground arith
join_response-answers roomid links exhausted j = λ i. ground arith

module _ (texts : Texts) where
  admissible-IsNamed :
      (mode : WireMode)
      → admissible texts mode ≡ ok tt
      → (mode ≡ WireMode.p2p) ⊎ (mode ≡ WireMode.sfu)
  unfolding admissible
  admissible-IsNamed WireMode.p2p h = inl refl
  admissible-IsNamed WireMode.sfu h = inr refl
  admissible-IsNamed WireMode.upgrading h = absurd (ground arith)
  admissible-IsNamed WireMode.failed h = absurd (ground arith)
  admissible-IsNamed WireMode.unset h = absurd (ground arith)
  admissible-IsNamed (WireMode.unknown n) h = absurd (ground arith)

  read_admit_v2-IsNamed :
      (told : Option (RpcResult V2Admission)) (admission : V2Admission)
      → read_admit_v2 texts told ≡ ok admission
      → IsNamed admission
  unfolding read_admit_v2
  read_admit_v2-IsNamed (some (value given)) admission h =
      elim (Result-cases (admissible texts given.mode)) [
        | inl (u, e) ↦
            let same : given ≡ admission = ground (arith, e, h) in
            subst IsNamed same (admissible-IsNamed given.mode e)
        | inr (error, e) ↦ absurd (ground (arith, e, h))
      ]
  read_admit_v2-IsNamed (some (RpcResult.error e)) admission h = absurd (ground arith)
  read_admit_v2-IsNamed none admission h = absurd (ground arith)

  receive-IsNamed :
      (operation : String) (id : ℕ) (response : Result (RpcResponse V2Admission) GrpcStatus)
      (admission : V2Admission)
      → receive texts operation id (read_admit_v2 texts) response ≡ ok admission
      → IsNamed admission
  unfolding receive
  receive-IsNamed operation id (err status) admission h = absurd (ground arith)
  receive-IsNamed operation id (ok response) admission h =
      elim (Result-cases (response_request_id texts response.context id)) [
        | inl (u, e) ↦ read_admit_v2-IsNamed response.result admission (ground (arith, e, h))
        | inr (error, e) ↦ absurd (ground (arith, e, h))
      ]

  module _ {W : Type 0} (channel : Channel W) where
    admit_v2-IsNamed :
        (room : RoomId) (client : ℕ) (s : GrpcAuthority × W) (admission : V2Admission)
        → (admit_v2 texts channel room client s).1 ≡ ok admission
        → IsNamed admission
    unfolding admit_v2 method context
    admit_v2-IsNamed room client s admission h =
        let c = (context s.0).1 in
        let request : AdmitV2Request = record {
          context = some c;
          room_id = room_id_to_bytes room;
          client_id = client;
        } in
        receive-IsNamed "admit_v2" c.request_id (channel.admit_v2 request s.1).1 admission h

    attempts-IsJoined :
        (client_id : ℕ → ℕ) (room : RoomId) (left attempt : ℕ) (s : GrpcAuthority × W)
        → IsJoined (attempts (grpc_authority texts channel) client_id room left attempt s).1
    unfolding attempts
    attempts-IsJoined client_id room zero attempt s = tt
    attempts-IsJoined client_id room (suc left) attempt s =
        let (s', outcome) = admit_v2 texts channel room (client_id attempt) s in
        let rest = attempts-IsJoined client_id room left (attempt + 1) s' in
        elim (Result-cases outcome) [
          | inl (admission, e) ↦
              rw (e, attempts) (admit_v2-IsNamed room (client_id attempt) s admission e)
          | inr (error, e) ↦
              elim (Bool-cases
                (str_eq error "DUPLICATE_CLIENT" && ltb attempt client_id_attempts)) [
                  | inl again ↦ rw (e, attempts) (rw (again, attempts) rest)
                  | inr done ↦ rw (e, attempts) (rw (done, attempts) tt)
                ]
        ]

    v2_join_handler-answers :
        (parse_room_token : String → Option RoomId) (client_id : ℕ → ℕ) (roomid : String)
        (request : Result (String × String) String) (s : Inner (GrpcAuthority × W))
        → (v2_join_handler
            (grpc_authority texts channel)
            parse_room_token
            client_id
            roomid
            request
            s).1
          ≢ none
    unfolding v2_join_handler
    v2_join_handler-answers parse_room_token client_id roomid request s =
        elim (Option-cases (parse_room_token roomid)) [
          | inl p ↦ rw (p, v2_join_handler) (λ i. ground arith)
          | inr (room, p) ↦ elim (Result-cases request) [
            | inr (message, q) ↦
                rw (p, v2_join_handler) (rw (q, v2_join_handler) (λ i. ground arith))
            | inl (links, q) ↦
                rw (p, v2_join_handler)
                  (rw (q, v2_join_handler)
                    (join_response-answers roomid links _
                      (attempts-IsJoined client_id room client_id_attempts 1 s.authority)))
          ]
        ]

    module _ (e : External) (config : Config) (parse_room_token : String → Option RoomId)
        (string_of : Text → String) (failed : String → String) where
      serve-answers :
          (route : Route) (request : Request) (s : Inner (GrpcAuthority × W))
          → (serve e config parse_room_token string_of failed
              (grpc_authority texts channel)
              route
              request
              s).1
            ≢ none
      unfolding serve
      serve-answers (at_v2_join client_id roomid) request s =
          v2_join_handler-answers parse_room_token client_id roomid _ s
      serve-answers at_root request s = λ i. ground arith
      serve-answers (at_room roomid) request s = λ i. ground arith
      serve-answers (at_v2_room roomid) request s = λ i. ground arith
      serve-answers (at_join client roomid) request s = λ i. ground arith
      serve-answers (at_leave roomid clientid) request s = λ i. ground arith
      serve-answers (at_v2_leave roomid clientid authorization) request s = λ i. ground arith
      serve-answers (at_message roomid clientid body) request s = λ i. ground arith
      serve-answers at_params request s = λ i. ground arith
      serve-answers at_v2_params request s = λ i. ground arith
      serve-answers at_iceconfig request s = λ i. ground arith
      serve-answers (at_status up_time_sec) request s = λ i. ground arith
      serve-answers (post_bridge roomid clientid body) request s = λ i. ground arith
      serve-answers (delete_bridge roomid clientid) request s = λ i. ground arith

      -- Over the gRPC client, and whatever the service behind its channel sends back, AppRTC answers
      -- every request of any sequence: no handler comes to its `unreachable!`.
      pub serve_all-answers :
          (calls : List (Route × Request)) (s : Inner (GrpcAuthority × W))
          → All
              (λ r. r ≢ none)
              (serve_all e config parse_room_token string_of failed
                (grpc_authority texts channel)
                calls
                s).1
      unfolding serve_all
      serve_all-answers [] s = tt
      serve_all-answers ((route, request) ∷ calls) s =
          (serve-answers route request s, serve_all-answers calls _)

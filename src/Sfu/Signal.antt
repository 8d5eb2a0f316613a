-- ===== src/Sfu/Signal.antt =====
-- `apply_signal` of sfu_server.rs: a browser's signaling message, handed to the engine.
use apprtc.Prelude.{
  ℕ, String, codes, Option, some, none, Result, ok, err, ok_or, and_then, or, unwrap_or, str_eq,
  Bool, true, false, ◌||◌, if◌then◌else◌,
}
use apprtc.Proto.{invalid_signal, SfuSignal}
use apprtc.RoomId.{RoomId}
use apprtc.Sfu.Engine.{External, AppSignal, session_description, ice_candidate, IceCandidate}
use apprtc.Sfu.Shard.{Failure}
use apprtc.Std.Parse.{parse_u64}

-- `RTCIceCandidateInit::default()`: the empty candidate that ends the trickle.
abbrev pub end_of_candidates : IceCandidate
end_of_candidates = record { candidate = ""; sdp_mid = none; sdp_mline_index = none }

-- What `map_err` makes of the engine's answer: the engine is changed either way.
abbrev pub or_reject : {E : Type 0} → E × Bool → String → E × Result (Unit {0}) Failure
or_reject (e, true) reason = (e, ok tt)
or_reject (e, false) reason = (e, err (invalid_signal, reason))

-- The request that a description answers or opens.
unfoldable pub description_request_id : Bool → Option String → Option ℕ → ℕ → Result ℕ Failure
description_request_id true requestid sdp_request_id command_request_id =
    ok_or (or (and_then requestid (λ s. parse_u64 (codes s))) sdp_request_id)
      (invalid_signal, "answer missing requestid")
description_request_id false requestid sdp_request_id command_request_id =
    ok (unwrap_or sdp_request_id command_request_id)

module _ {E V S : Type 0} (x : External E V S) where
  -- The branch for "offer" and "answer".
  unfoldable pub apply_description :
      E → ℕ → RoomId → SfuSignal → AppSignal → V → E × Result (Unit {0}) Failure
  unfolding description_request_id
  apply_description e command_request_id room signal envelope value = elim (x.description value) [
    | none ↦ (e, err (invalid_signal, "invalid session description"))
    | some sdp ↦
        elim (description_request_id (x.is_answer sdp) envelope.requestid signal.sdp_request_id
          command_request_id) [
            | err failure ↦ (e, err failure)
            | ok request_id ↦
                or_reject
                  (x.handle_event e (session_description request_id room signal.client_id sdp))
                  "session description rejected"
          ]
  ]

  -- The `match` on the message's kind.
  unfoldable pub apply_envelope :
      E → ℕ → RoomId → SfuSignal → AppSignal → V → E × Result (Unit {0}) Failure
  unfolding apply_description
  apply_envelope e command_request_id room signal envelope value =
      if str_eq envelope.kind "offer" || str_eq envelope.kind "answer"
      then apply_description e command_request_id room signal envelope value
      else if str_eq envelope.kind "candidate"
      then or_reject
          (x.handle_event e (
            ice_candidate command_request_id room signal.client_id (record {
              candidate = envelope.candidate;
              sdp_mid = envelope.id;
              sdp_mline_index = envelope.label;
            })))
          "ICE candidate rejected"
      else if str_eq envelope.kind "end-of-candidates"
      then or_reject
          (x.handle_event e
            (ice_candidate command_request_id room signal.client_id end_of_candidates))
          "end of candidates rejected"
      else if str_eq envelope.kind "bye"
      then (e, ok tt)
      else (e, err (invalid_signal, "unknown signaling message type"))

  unfoldable pub apply_signal : E → ℕ → RoomId → SfuSignal → E × Result (Unit {0}) Failure
  unfolding apply_envelope
  apply_signal e command_request_id room signal = elim (x.from_str signal.message_json) [
    | none ↦ (e, err (invalid_signal, "invalid signaling JSON"))
    | some value ↦ elim (x.app_signal value) [
      | none ↦ (e, err (invalid_signal, "invalid signaling message"))
      | some envelope ↦ apply_envelope e command_request_id room signal envelope value
    ]
  ]

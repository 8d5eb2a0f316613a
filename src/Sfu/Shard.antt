-- ===== src/Sfu/Shard.antt =====
-- The state that one media shard keeps between commands: the engine, and the projection of the room
-- members that signaling has placed on it.
use apprtc.Prelude.{ℕ, String, some, none, Result, ok, err, false, ℕ_discrete}
use apprtc.Prelude.HashMap.{HashMap}
use apprtc.Proto
use apprtc.Proto.{ErrorCode, Payload, SfuCommandResult, ProtoError}
use apprtc.Sfu.Engine.{Key}

-- A member's lifecycle and the epoch of its room's assignment.
abbrev pub Stamp : Type 0
Stamp = ℕ × ℕ

unfoldable pub Stamp-discrete : Discrete Stamp
unfolding ℕ_discrete
Stamp-discrete = hlevel ℕ_discrete

abbrev pub Projection : Type 0
Projection = HashMap Key Stamp

pub record Shard (E : Type 0) : Type 0 where
  pub engine : E
  pub projection : Projection

-- `Err((code, reason))` of `apply_command`.
abbrev pub Failure : Type 0
Failure = ErrorCode × String

abbrev pub invalid_room_id : Failure
invalid_room_id = (ErrorCode.invalid_request, "room_id must be the 16 bytes of a UUIDv8")

unfoldable pub command_error : ℕ → Failure → SfuCommandResult
command_error request_id (code, reason) = record {
  request_id = request_id;
  result = some (
      Proto.CommandOutcome.error
        (record { code = code; reason = reason; retryable = false; retry_after_ms = none }));
}

-- The last `match` of `apply_command`.
unfoldable pub command_result : ℕ → Result Payload Failure → SfuCommandResult
unfolding command_error
command_result request_id (ok payload) = record {
  request_id = request_id;
  result = some (Proto.CommandOutcome.ok (some payload));
}
command_result request_id (err failure) = command_error request_id failure

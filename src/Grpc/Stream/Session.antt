-- ===== src/Grpc/Stream/Session.antt =====
-- `open_sfu_session` of grpc_server.rs: the registration of an SFU worker, and the task that carries
-- messages between its stream and the driver, over the inputs of its `select!` in their order.
use apprtc.Prelude.{
  ℕ, String, ◌+◌, ◌%◌, Option, some, none, List, [], ◌∷◌, ◌++◌, Bool, true, false, ◌||◌, Result, ok,
  err, ◌>>=◌, ok_or, eqb, if◌then◌else◌,
}
use Prim.Native.Nat.{max}
use apprtc.RoomId.{RoomId}
use apprtc.Std.Parse.{u64_mod}
use apprtc.Proto.{
  RequestContext, RegisterSfu, SfuCapacity, SfuToSignaling, SignalingToSfu, register,
}
use apprtc.Grpc.Operations.{GrpcStatus, invalid_argument, unavailable, deadline_exceeded}
use apprtc.Grpc.Handlers.{invalid}
use apprtc.Grpc.Stream.{StreamInput, StreamOutput, encode_sfu_output}
use apprtc.Grpc.Stream.Decode.{sfu_context, decode_sfu_input}
use apprtc.Driver.{DriverCommand}
pub mod Trace

-- `signaling::sfu::Input`: a registration, a message of a worker, or its end, for a connection and an
-- instance. The registration has the request id.
pub data SfuInput : Type 0 where
  registering : ℕ → String → ℕ → SfuCapacity → SfuInput
  from_worker : ℕ → String → StreamInput → SfuInput
  gone : ℕ → String → SfuInput

-- What the first read of the stream gives.
pub data First : Type 0 where
  timed_out ended : First
  failed : GrpcStatus → First
  message : Option SfuToSignaling → First

unfoldable pub first_message : First → Result (Option SfuToSignaling) GrpcStatus
first_message timed_out =
    err (record { code = deadline_exceeded; message = "timed out waiting for RegisterSfu" })
first_message (failed status) = err status
first_message ended = invalid "missing RegisterSfu"
first_message (message m) = ok m

unfoldable pub register_of : Option SfuToSignaling → Result RegisterSfu GrpcStatus
register_of (some (register r)) = ok r
register_of _ = invalid "RegisterSfu must be the first message"

unfoldable pub check_capacity : SfuCapacity → Result SfuCapacity GrpcStatus
check_capacity c =
    if eqb c.max_rooms 0 || eqb c.max_clients 0
    then invalid "SFU capacity limits must be nonzero"
    else ok c

unfoldable pub registration : First → Result (RequestContext × SfuCapacity) GrpcStatus
unfolding first_message register_of sfu_context check_capacity
registration first = first_message first >>= λ m. register_of m >>= λ r.
    sfu_context r.context >>= λ context.
    ok_or r.capacity (record { code = invalid_argument; message = "missing SFU capacity" })
    >>= λ capacity. check_capacity capacity >>= λ checked. ok (context, checked)

-- An input of the task: what the stream of the worker gives, or what the driver has put into the
-- session's channel, or its end. The Boolean says whether the worker's stream takes what is then sent.
pub data Input : Type 0 where
  incoming : Option SfuToSignaling → Bool → Input
  incoming_end incoming_failed : Input
  output : Option StreamOutput → Bool → Input

-- `commands` are those that the driver has got, `wire` what the worker has.
pub record Carried : Type 0 where
  pub commands : List (DriverCommand SfuInput)
  pub wire : List (Result SignalingToSfu GrpcStatus)

-- A round goes on or stops the loop, or it panics.
pub data Round : Type 0 where
  goes_on stops : Carried → Round
  panics : Round

-- How the task stands after some inputs.
pub data Task : Type 0 where
  waiting panicked : Task
  finished : Carried → Task

abbrev pub wire_send : Result SignalingToSfu GrpcStatus → Bool → Carried → Carried
wire_send m taken s = if taken then record s { wire = s.wire ++ m ∷ [] } else s

module _ (accepts : List (DriverCommand SfuInput) → DriverCommand SfuInput → Bool)
    (is_room_uuid : RoomId → Bool) (user : ℕ) where
  unfoldable pub send : DriverCommand SfuInput → Carried → Carried × Bool
  send c s =
      if accepts s.commands c
      then (record s { commands = s.commands ++ c ∷ [] }, true)
      else (s, false)

  abbrev pub go_if : Carried × Bool → Round
  go_if (s, true) = goes_on s
  go_if (s, false) = stops s

  unfoldable pub carry_in : ℕ → String → Result StreamInput GrpcStatus → Bool → Carried → Round
  unfolding send
  carry_in connection instance_id (ok i) taken s =
      go_if (send (DriverCommand.sfu_input (from_worker connection instance_id i)) s)
  carry_in connection instance_id (err status) taken s = stops (wire_send (err status) taken s)

  unfoldable pub encoded : Option SignalingToSfu → Bool → Carried → Round
  encoded none taken s = panics
  encoded (some m) taken s = go_if (wire_send (ok m) taken s, taken)

  unfoldable pub carry_out : Option StreamOutput → Bool → Carried → Round
  unfolding encoded encode_sfu_output
  carry_out none taken s = stops s
  carry_out (some StreamOutput.close) taken s = stops s
  carry_out (some o) taken s = encoded (encode_sfu_output user o) taken s

  unfoldable pub round : ℕ → String → Input → Carried → Round
  unfolding carry_in carry_out decode_sfu_input
  round connection instance_id (incoming m taken) s =
      carry_in connection instance_id (decode_sfu_input is_room_uuid m) taken s
  round connection instance_id incoming_end s = stops s
  round connection instance_id incoming_failed s = stops s
  round connection instance_id (output o taken) s = carry_out o taken s

  -- The task: its loop, and the end of the session that it tells the driver.
  unfoldable pub run_task : ℕ → String → List Input → Carried → Task
  unfolding round send
  run_task connection instance_id [] s = waiting
  run_task connection instance_id (i ∷ rest) s = elim (round connection instance_id i s) [
    | goes_on s' ↦ run_task connection instance_id rest s'
    | stops s' ↦ finished (send (DriverCommand.sfu_input (gone connection instance_id)) s').0
    | panics ↦ panicked
  ]

  -- `next` is `next_sfu_connection_id`, `channel` the channel of the session's outputs. What comes back
  -- is the counter, and the status or the task.
  unfoldable pub open_sfu_session : First → List Input → ℕ → ℕ → ℕ × Result Task GrpcStatus
  unfolding registration run_task send
  open_sfu_session first inputs channel next = elim (registration first) [
    | err status ↦ (next, err status)
    | ok (context, capacity) ↦
        let connection = max next 1 in
        let (s, sent) =
          send
            (DriverCommand.sfu_connected
              (registering connection context.instance_id context.request_id capacity) channel)
            (record { commands = []; wire = [] }) in
        (
          (next + 1) % u64_mod,
          if sent
              then ok (run_task connection context.instance_id inputs s)
              else err (record { code = unavailable; message = "signaling authority stopped" }),
        )
  ]

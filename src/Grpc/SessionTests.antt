-- ===== src/Grpc/SessionTests.antt =====
-- The theorem about open_sfu_session at one worker.
use apprtc.Prelude.{◌+◌, ◌%◌, ◌≡◌, refl, some, none, List, [], ◌∷◌, ◌++◌, Bool, true, ok}
use Prim.Native.Nat.{max}
use apprtc.RoomId.{RoomId}
use apprtc.Std.Parse.{u64_mod}
use apprtc.Proto.{RequestContext, SfuCapacity, SfuToSignaling, CommandOutcome, app_id_sfu}
use apprtc.Driver.{DriverCommand}
use apprtc.Grpc.Stream.{StreamOutput}
use apprtc.Grpc.Stream.Decode.{sfu_context, is_sfu, decode_sfu_input, decode_result_value}
use apprtc.Grpc.Stream.Session.{
  SfuInput, registering, gone, First, message, registration, first_message, register_of,
  check_capacity, Input, incoming, incoming_end, output, Carried, finished, open_sfu_session,
}
use apprtc.Grpc.Stream.Session.Trace.{heard, carried, commands-open_sfu_session}

abbrev accepts : List (DriverCommand SfuInput) → DriverCommand SfuInput → Bool
accepts cs c = true

abbrev any_room : RoomId → Bool
any_room r = true

abbrev worker : RequestContext
worker = record { app_id = app_id_sfu; instance_id = "sfu-1"; request_id = 9 }

abbrev capacity : SfuCapacity
capacity = record { max_rooms = 4; max_clients = 8 }

abbrev first : First
first =
    message
      (some (SfuToSignaling.register (record { context = some worker; capacity = some capacity })))

-- The worker is told that it is registered and reports an outcome; the stream ends before another one.
abbrev inputs : List Input
inputs =
    output (some (StreamOutput.registered 9 1000 true)) true
    ∷ incoming
        (some (
          SfuToSignaling.command_result
            (record { request_id = 3; result = some (CommandOutcome.ok none) })))
        true
    ∷ incoming_end
    ∷ incoming none true
    ∷ []

commands-open_sfu_session_example :
    (r : Carried) × (open_sfu_session accepts any_room 1 first inputs 70 5
      ≡ ((5 + 1) % u64_mod, ok (finished r)))
    × (r.commands
        ≡ DriverCommand.sfu_connected (registering (max 5 1) "sfu-1" 9 capacity) 70
          ∷ (carried (max 5 1) "sfu-1" (heard any_room inputs)
              ++ DriverCommand.sfu_input (gone (max 5 1) "sfu-1") ∷ []))
unfolding registration first_message register_of sfu_context is_sfu check_capacity decode_sfu_input
    decode_result_value
commands-open_sfu_session_example =
    commands-open_sfu_session accepts (λ cs c. refl) any_room 1 first inputs 70 5 worker capacity
      refl refl

-- ===== src/Grpc/Stream/Session/Trace.antt =====
-- What the driver gets from one session of an SFU worker.
use apprtc.Prelude.{
  ℕ, String, ◌+◌, ◌%◌, ◌≡◌, refl, sym, subst, ◌∙◌, ap, Option, some, none, List, [], ◌∷◌, ◌++◌, map,
  Bool, true, false, not, ◌||◌, arith, Bool-cases, Result, ok, err, inl, inr,
}
use Prim.Native.Nat.{max}
use mathlib.Core.List.{append_assoc, append-nil}
use apprtc.RoomId.{RoomId}
use apprtc.Std.Parse.{u64_mod}
use apprtc.Proto.{RequestContext, SfuCapacity, SfuToSignaling, SignalingToSfu}
use apprtc.Grpc.Operations.{GrpcStatus}
use apprtc.Grpc.Stream.{StreamInput, StreamOutput, encode_sfu_output}
use apprtc.Grpc.Stream.Decode.{decode_sfu_input}
use apprtc.Driver.{DriverCommand}
use apprtc.Grpc.Stream.Session.{
  SfuInput, registering, from_worker, gone, First, registration, Input, incoming, incoming_end,
  incoming_failed, output, Carried, Round, goes_on, stops, finished, send, go_if, carry_in,
  carry_out, encoded, round, run_task, open_sfu_session,
}

abbrev failed : Result StreamInput GrpcStatus → Bool
failed (ok _) = false
failed (err _) = true

abbrev input_of : Result StreamInput GrpcStatus → List StreamInput
input_of (ok i) = i ∷ []
input_of (err _) = []

module _ (is_room_uuid : RoomId → Bool) where
  abbrev decoded : Option SfuToSignaling → Result StreamInput GrpcStatus
  decoded = decode_sfu_input is_room_uuid

  -- Whether the session is over with an input.
  abbrev pub ends : Input → Bool
  ends (incoming m _) = failed (decoded m)
  ends incoming_end = true
  ends incoming_failed = true
  ends (output none _) = true
  ends (output (some StreamOutput.close) _) = true
  ends (output (some _) taken) = not taken

  abbrev pub input_in : Input → List StreamInput
  input_in (incoming m _) = input_of (decoded m)
  input_in _ = []

  -- What the worker says that can be read, up to the input that ends the session.
  abbrev pub heard : List Input → List StreamInput
  heard [] = []
  heard (i ∷ rest) =
      let after = heard rest in input_in i ++ elim (ends i) [ Bool.true ↦ [] | Bool.false ↦ after ]

  abbrev pub closes : List Input → Bool
  closes [] = false
  closes (i ∷ rest) = ends i || closes rest

-- The commands that carry what a worker says.
abbrev pub carried : ℕ → String → List StreamInput → List (DriverCommand SfuInput)
carried connection instance_id =
    map (λ i. DriverCommand.sfu_input (from_worker connection instance_id i))

carried-append :
    (connection : ℕ) (instance_id : String) (xs ys : List StreamInput)
    → carried connection instance_id (xs ++ ys)
      ≡ carried connection instance_id xs ++ carried connection instance_id ys
carried-append connection instance_id [] ys = refl
carried-append connection instance_id (x ∷ xs) ys =
    ap (◌∷◌ (DriverCommand.sfu_input (from_worker connection instance_id x)))
      (carried-append connection instance_id xs ys)

-- A round that goes on, or stops, with the commands `cs`.
abbrev Leaves : Bool → List (DriverCommand SfuInput) → Round → Type 0
Leaves true cs r = (s : Carried) × (r ≡ stops s) × (s.commands ≡ cs)
Leaves false cs r = (s : Carried) × (r ≡ goes_on s) × (s.commands ≡ cs)

module _ (accepts : List (DriverCommand SfuInput) → DriverCommand SfuInput → Bool)
    (open_driver : (cs : List (DriverCommand SfuInput)) (c : DriverCommand SfuInput)
      → accepts cs c ≡ true)
    (is_room_uuid : RoomId → Bool) (user : ℕ) where
  send_taken :
      (c : DriverCommand SfuInput) (s : Carried)
      → send accepts is_room_uuid user c s ≡ (record s { commands = s.commands ++ c ∷ [] }, true)
  unfolding send
  send_taken c s = rw (open_driver s.commands c) refl

  Leaves-carry_in :
      (connection : ℕ) (instance_id : String) (r : Result StreamInput GrpcStatus) (taken : Bool)
      (s : Carried)
      → Leaves
          (failed r)
          (s.commands ++ carried connection instance_id (input_of r))
          (carry_in accepts is_room_uuid user connection instance_id r taken s)
  unfolding carry_in
  Leaves-carry_in connection instance_id (ok i) taken s =
      let c : DriverCommand SfuInput =
        DriverCommand.sfu_input (from_worker connection instance_id i) in
      (
        record s { commands = s.commands ++ c ∷ [] },
        ap (go_if accepts is_room_uuid user) (send_taken c s),
        refl,
      )
  Leaves-carry_in connection instance_id (err status) true s =
      (record s { wire = s.wire ++ err status ∷ [] }, refl, sym (append-nil s.commands))
  Leaves-carry_in connection instance_id (err status) false s =
      (s, refl, sym (append-nil s.commands))

  Leaves-encoded :
      (m : SignalingToSfu) (taken : Bool) (s : Carried)
      → Leaves (not taken) (s.commands ++ []) (encoded accepts is_room_uuid user (some m) taken s)
  unfolding encoded
  Leaves-encoded m true s =
      (record s { wire = s.wire ++ ok m ∷ [] }, refl, sym (append-nil s.commands))
  Leaves-encoded m false s = (s, refl, sym (append-nil s.commands))

  -- A close is taken out before it would be encoded.
  Leaves-carry_out :
      (o : Option StreamOutput) (taken : Bool) (s : Carried)
      → Leaves
          (ends is_room_uuid (output o taken))
          (s.commands ++ [])
          (carry_out accepts is_room_uuid user o taken s)
  unfolding carry_out encode_sfu_output
  Leaves-carry_out none taken s = (s, refl, sym (append-nil s.commands))
  Leaves-carry_out (some StreamOutput.close) taken s = (s, refl, sym (append-nil s.commands))
  Leaves-carry_out (some (StreamOutput.registered n t b)) taken s = Leaves-encoded _ taken s
  Leaves-carry_out (some (StreamOutput.registration_error n e)) taken s = Leaves-encoded _ taken s
  Leaves-carry_out (some (StreamOutput.command n c)) taken s = Leaves-encoded _ taken s
  Leaves-carry_out (some (StreamOutput.event_ack n)) taken s = Leaves-encoded _ taken s

  Leaves-round :
      (connection : ℕ) (instance_id : String) (i : Input) (s : Carried)
      → Leaves
          (ends is_room_uuid i)
          (s.commands ++ carried connection instance_id (input_in is_room_uuid i))
          (round accepts is_room_uuid user connection instance_id i s)
  unfolding round
  Leaves-round connection instance_id (incoming m taken) s =
      Leaves-carry_in connection instance_id (decoded is_room_uuid m) taken s
  Leaves-round connection instance_id incoming_end s = (s, refl, sym (append-nil s.commands))
  Leaves-round connection instance_id incoming_failed s = (s, refl, sym (append-nil s.commands))
  Leaves-round connection instance_id (output o taken) s = Leaves-carry_out o taken s

  commands-run_task :
      (connection : ℕ) (instance_id : String) (inputs : List Input) (s : Carried)
      → closes is_room_uuid inputs ≡ true
      → (r : Carried) × (run_task accepts is_room_uuid user connection instance_id inputs s
          ≡ finished r)
        × (r.commands
            ≡ s.commands
              ++ (carried connection instance_id (heard is_room_uuid inputs)
                  ++ DriverCommand.sfu_input (gone connection instance_id) ∷ []))
  unfolding run_task
  commands-run_task connection instance_id [] s h = absurd (ground (arith, h))
  commands-run_task connection instance_id (i ∷ rest) s h =
      let ran = Leaves-round connection instance_id i s in
      let after = round accepts is_room_uuid user connection instance_id i s in
      let last : DriverCommand SfuInput = DriverCommand.sfu_input (gone connection instance_id) in
      let said = carried connection instance_id (input_in is_room_uuid i) in
      let later = carried connection instance_id (heard is_room_uuid rest) in
      elim (Bool-cases (ends is_room_uuid i)) [
        | inl e ↦
            let (s', stopped, grown) = subst (λ b. Leaves b (s.commands ++ said) after) e ran in
            (
              record s' { commands = s'.commands ++ last ∷ [] },
              rw (stopped, run_task) (ap (λ q. finished q.0) (send_taken last s')),
              rw e (
                  ap (λ t. t ++ last ∷ []) grown
                  ∙ (append_assoc s.commands said (last ∷ [])
                      ∙ ap (λ t. s.commands ++ (carried connection instance_id t ++ last ∷ []))
                          (sym (append-nil (input_in is_room_uuid i))))),
            )
        | inr e ↦
            let (s', went, grown) = subst (λ b. Leaves b (s.commands ++ said) after) e ran in
            let (r, done, trace) =
              commands-run_task connection instance_id rest s'
                (sym (ap (λ b. b || closes is_room_uuid rest) e) ∙ h) in
            (
              r,
              rw (went, run_task) done,
              rw e (
                  trace
                  ∙ (ap (λ t. t ++ (later ++ last ∷ [])) grown
                      ∙ (append_assoc s.commands said (later ++ last ∷ [])
                          ∙ ap (λ t. s.commands ++ t)
                              (sym (append_assoc said later (last ∷ []))
                                ∙ ap (λ t. t ++ last ∷ [])
                                    (sym (
                                      carried-append connection instance_id
                                        (input_in is_room_uuid i) (heard is_room_uuid rest))))))),
            )
      ]

  -- Where the registration is in order, the driver takes every command and one of the inputs ends the
  -- session, the method opens the session and its task ends without a panic. The driver has then got:
  -- the registration under the connection's id, every message of the worker that can be decoded up to
  -- that input, each once and in their order, and last, once, that the worker is gone.
  pub commands-open_sfu_session :
      (first : First) (inputs : List Input) (channel next : ℕ) (context : RequestContext)
      (capacity : SfuCapacity)
      → registration first ≡ ok (context, capacity)
      → closes is_room_uuid inputs ≡ true
      → (r : Carried) × (open_sfu_session accepts is_room_uuid user first inputs channel next
          ≡ ((next + 1) % u64_mod, ok (finished r)))
        × (r.commands
            ≡ DriverCommand.sfu_connected
                (registering (max next 1) context.instance_id context.request_id capacity)
                channel
              ∷ (carried (max next 1) context.instance_id (heard is_room_uuid inputs)
                  ++ DriverCommand.sfu_input (gone (max next 1) context.instance_id) ∷ []))
  unfolding open_sfu_session
  commands-open_sfu_session first inputs channel next context capacity e h =
      let connection = max next 1 in
      let c : DriverCommand SfuInput =
        DriverCommand.sfu_connected
          (registering connection context.instance_id context.request_id capacity) channel in
      let s : Carried = record { commands = []; wire = [] } in
      let (r, done, trace) =
        commands-run_task connection context.instance_id inputs (record s { commands = c ∷ [] })
          h in
      (
        r,
        rw (e, send_taken c s, open_sfu_session) (ap (λ t. ((next + 1) % u64_mod, ok t)) done),
        trace,
      )

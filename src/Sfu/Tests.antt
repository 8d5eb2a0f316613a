-- ===== src/Sfu/Tests.antt =====
-- An engine that keeps a set of members, and the theorems about sfu_server.rs at concrete commands.
use apprtc.Prelude.{ℕ, ◌≡◌, refl, ite, ap, some, none, List, [], ◌∷◌, Bool, true, false, arith}
use apprtc.Prelude.HashMap.{HashMap, get-insert, get-remove}
use apprtc.Prelude.HashMap
use apprtc.Proto.{Member, LeaveMember, Command, SfuCommand, SyncRoom, Payload, SfuCommandResult}
use apprtc.RoomId.{RoomId, RoomId-discrete, room_id_from_bytes}
use apprtc.Sfu.Engine.{External, KeepsMembers, SfuEvent, Key, Key-discrete}
use apprtc.Sfu.Shard.{Shard}
use apprtc.Sfu.Sync.{contains_key, sync_room}
use apprtc.Sfu.Sync.Lookup.{stamped, last_lifecycle}
use apprtc.Sfu.Sync.Post.{get-sync_room}
use apprtc.Sfu.Commands.{dispatch}
use apprtc.Sfu.Commands.Fencing.{IsStale, dispatch-IsStale}
use apprtc.Sfu.Commands.Members.{Agrees, Agrees-dispatch}
use apprtc.Sfu.Cache.{command_cache_capacity, empty_cache, cache_command}
use apprtc.Sfu.Cache.Bounded.{IsCache, cache_command-IsCache}
use apprtc.Sfu.Metrics.{Metrics}
use apprtc.Sfu.MediaLoop.{MediaLoop, handle_media_command}
use apprtc.Sfu.MediaLoop.Replay.{handle_media_command-twice}

abbrev Members : Type 0
Members = HashMap Key ℕ

handle : Members → SfuEvent (Unit {0}) → Members × Bool
unfolding HashMap.insert HashMap.remove Key-discrete
handle e (SfuEvent.join request_id room client) =
    (HashMap.insert Key-discrete e (room, client) 0, true)
handle e (SfuEvent.leave request_id room client reason) =
    (HashMap.remove Key-discrete e (room, client), true)
handle e _ = (e, true)

abbrev example_engine : External Members (Unit {0}) (Unit {0})
example_engine = record {
  is_room_uuid = λ _. true;
  handle_event = handle;
  from_str = λ _. some tt;
  app_signal = λ _.
      some (record { kind = "bye"; candidate = ""; id = none; label = none; requestid = none });
  description = λ _. none;
  is_answer = λ _. false;
  reason_name = λ _. "User";
}

member : Members → Key → Bool
member = contains_key Key-discrete

example_laws : KeepsMembers example_engine member
unfolding handle member contains_key
example_laws = record {
  joined = λ e q room client k h. ground (arith, get-insert Key-discrete e (room, client) k 0);
  left = λ e q room client reason k h. ground (arith, get-remove Key-discrete e (room, client) k);
  refused = λ e event k h. refused e event k h;
  described = λ e q room client sdp k. refl;
  trickled = λ e q room client c k. refl;
}
  where
    refused :
        (e : Members) (event : SfuEvent (Unit {0})) (k : Key)
        → (handle e event).1 ≡ false
        → member (handle e event).0 k ≡ member e k
    refused e (SfuEvent.join _ _ _) k h = cc
    refused e (SfuEvent.leave _ _ _ _) k h = cc
    refused e _ k h = cc

abbrev room_bytes : List ℕ
room_bytes = 0 ∷ 1 ∷ 2 ∷ 3 ∷ 4 ∷ 5 ∷ 0x80 ∷ 7 ∷ 0x80 ∷ 9 ∷ 10 ∷ 11 ∷ 12 ∷ 13 ∷ 14 ∷ 15 ∷ []

abbrev room : RoomId
room = record { bytes = room_bytes }

abbrev alice : Member
alice = record { room_id = room_bytes; client_id = 1; lifecycle_id = 10; assignment_epoch = 3 }

abbrev bob : Member
bob = record { room_id = room_bytes; client_id = 2; lifecycle_id = 20; assignment_epoch = 3 }

-- Alice and Bob are placed.
abbrev placed : Shard Members
placed = record {
  engine = ((room, 1), 0) ∷ ((room, 2), 0) ∷ [];
  projection = ((room, 1), (10, 3)) ∷ ((room, 2), (20, 3)) ∷ [];
}

-- Bob leaves a room that is synchronized to Alice and Carol.
abbrev roster : SyncRoom
roster = record {
  room_id = room_bytes;
  assignment_epoch = 4;
  members =
      record { client_id = 1; lifecycle_id = 11 }
      ∷ record { client_id = 3; lifecycle_id = 30 }
      ∷ [];
}

sync_roster :
    (sync_room example_engine 7 roster placed).0.projection
    ≡ ((room, 1), (11, 4)) ∷ ((room, 3), (30, 4)) ∷ []
unfolding sync_room handle
sync_roster = refl

get-sync_room_example :
    HashMap.get Key-discrete (sync_room example_engine 7 roster placed).0.projection (room, 3)
    ≡ ite
        (RoomId-discrete room room)
        (stamped 4 (last_lifecycle roster.members 3))
        (HashMap.get Key-discrete placed.projection (room, 3))
unfolding sync_room handle
get-sync_room_example =
    get-sync_room example_engine 7 roster placed room room 3
      (Payload.room_synced (record { room_id = room_bytes; assignment_epoch = 4 })) refl refl

abbrev stale_leave : LeaveMember
stale_leave = record {
  room_id = room_bytes;
  client_id = 2;
  lifecycle_id = 20;
  assignment_epoch = 2;
  reason = 1;
}

dispatch-IsStale_example :
    ((dispatch example_engine 8 (some (Command.leave stale_leave)) placed).0 ≡ placed)
    × IsStale (dispatch example_engine 8 (some (Command.leave stale_leave)) placed).1
unfolding room_id_from_bytes HashMap.get Key-discrete
dispatch-IsStale_example =
    dispatch-IsStale example_engine 8 (Command.leave stale_leave) placed room_bytes 2 (20, 2)
      (20, 3) room refl refl refl (λ e. omega (arith, ap (λ (t : ℕ × ℕ). t.1) e))

placed-Agrees : Agrees example_engine member placed
unfolding member contains_key
placed-Agrees k = ground arith

Agrees-dispatch_example :
    member (dispatch example_engine 7 (some (Command.sync_room roster)) placed).0.engine (room, 2)
    ≡ contains_key Key-discrete
        (dispatch example_engine 7 (some (Command.sync_room roster)) placed).0.projection
        (room, 2)
Agrees-dispatch_example =
    Agrees-dispatch example_engine member example_laws 7 (some (Command.sync_room roster)) placed
      placed-Agrees (room, 2)

abbrev answer : SfuCommandResult
answer = record { request_id = 5; result = none }

empty-IsCache : IsCache 2 empty_cache
empty-IsCache = record { listed = refl; distinct = tt; bounded = omega arith }

cache_command-IsCache_example : IsCache 2 (cache_command 2 answer empty_cache)
cache_command-IsCache_example = cache_command-IsCache 2 answer empty_cache empty-IsCache

abbrev started : MediaLoop Members
started = record {
  shard = placed;
  cache = empty_cache;
  contribution = record { metric_rooms = 1; metric_clients = 2 };
}

abbrev totals : Metrics
totals = record { rooms = 4; clients = 9 }

started-IsCache : IsCache command_cache_capacity started.cache
started-IsCache = record { listed = refl; distinct = tt; bounded = omega arith }

abbrev command_of : ℕ → Command → SfuCommand
command_of request_id command = record { request_id = request_id; command = some command }

-- The second command is another one under the same id: it is not carried out.
handle_media_command-twice_example :
    handle_media_command example_engine
      (command_of 7 (Command.join bob))
      (handle_media_command example_engine
        (command_of 7 (Command.sync_room roster))
        started
        totals).0.0
      (handle_media_command example_engine
        (command_of 7 (Command.sync_room roster))
        started
        totals).0.1
    ≡ handle_media_command example_engine (command_of 7 (Command.sync_room roster)) started totals
handle_media_command-twice_example =
    handle_media_command-twice example_engine (command_of 7 (Command.sync_room roster))
      (command_of 7 (Command.join bob)) started totals started-IsCache refl

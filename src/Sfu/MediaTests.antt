-- ===== src/Sfu/MediaTests.antt =====
-- `media_loop` of sfu_server.rs at a Join, a packet and a stop.
use apprtc.Prelude.{ℕ, ◌≡◌, refl, some, none, List, [], ◌∷◌, true, false, arith}
use apprtc.Prelude.HashMap
use apprtc.Proto.{Command, SfuCommand}
use apprtc.Sfu.Engine.{External}
use apprtc.Sfu.Commands.{apply_command}
use apprtc.Sfu.Cache.{empty_cache}
use apprtc.Sfu.Events.{Printer}
use apprtc.Sfu.MediaLoop.Run.{Io, stop, command, received, Taken, Running, media_loop, round}
use apprtc.Sfu.MediaLoop.Balance.{IsSmall, without, media_loop-metrics}

abbrev engine : External ℕ (Unit {0}) (Unit {0})
engine = record {
  is_room_uuid = λ _. true;
  handle_event = λ e event. (e, true);
  from_str = λ _. none;
  app_signal = λ _. none;
  description = λ _. none;
  is_answer = λ _. false;
  reason_name = λ _. "User";
}

abbrev io : Io ℕ (Unit {0})
io = record {
  handle_read = λ e packet. e;
  handle_timeout = λ e. e;
  pumped = λ e. e;
  polled = λ e. [];
  close = λ e. e;
}

abbrev printer : Printer (Unit {0})
printer = record {
  is_offer = λ _. true;
  description_json = λ _ _. "{}";
  candidate_json = λ kind _ _ _. kind;
}

abbrev join : SfuCommand
join = record {
  request_id = 7;
  command = some (
      Command.join (record {
        room_id = 0 ∷ 1 ∷ 2 ∷ 3 ∷ 4 ∷ 5 ∷ 0x80 ∷ 7 ∷ 0x80 ∷ 9 ∷ 10 ∷ 11 ∷ 12 ∷ 13 ∷ 14 ∷ 15 ∷ [];
        client_id = 1;
        lifecycle_id = 10;
        assignment_epoch = 3;
      }));
}

-- The others add a client before the packet comes.
abbrev taken : List Taken
taken =
    record { elsewhere = record { rooms = 0; clients = 0 }; drawn = 0; input = command (some join) }
    ∷ record {
      elsewhere = record { rooms = 0; clients = 1 };
      drawn = 2;
      input = received (some (1 ∷ []));
    }
    ∷ record { elsewhere = record { rooms = 0; clients = 0 }; drawn = 0; input = stop }
    ∷ []

abbrev started : Running ℕ
started = record {
  loop = record {
    shard = record { engine = 0; projection = [] };
    cache = empty_cache;
    contribution = record { metric_rooms = 0; metric_clients = 0 };
  };
  metrics = record { rooms = 4; clients = 9 };
  next_event_id = 1;
  events = [];
  responses = [];
}

takes_all : IsSmall engine io printer (λ m. true) taken started
unfolding round HashMap.get apply_command
takes_all = (omega arith, (omega arith, (omega arith, tt)))

media_loop-metrics_example :
    (r : Running ℕ) × (media_loop engine io printer (λ m. true) taken started ≡ some r)
    × (r.metrics ≡ without taken started.metrics)
media_loop-metrics_example =
    media_loop-metrics engine io printer (λ m. true) taken started refl (omega arith) (omega arith)
      refl takes_all

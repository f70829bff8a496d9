-- ===== src/Tests/CommandHandler.antt =====
-- Commands from the cloud.
use sdv_edge_gateway.Common.{◌≡◌, ◌≤◌, true, false, some, List, [], ◌∷◌, arith}
use sdv_edge_gateway.Common.Int.{pos}
use sdv_edge_gateway.Mqtt.{never, throws}
use sdv_edge_gateway.CommandHandler.{
  CommandHandler, parse_command, contains, Consumed, timeout, message, run,
}
use sdv_edge_gateway.CommandHandler.Dedup.{effects, perform_all, fresh, commands, run_once}
use sdv_edge_gateway.Worker.{idle, in_body}
use sdv_edge_gateway.CommandHandler.Lifecycle.{Session, stop, time_left, stop_bounded}
use sdv_edge_gateway.CommandHandler.Routing.{IsRouted, run-IsRouted}
use sdv_edge_gateway.CommandHandler.Seen.{IsBounded, run-IsBounded}
use sdv_edge_gateway.Tests.Instances.{text_json}

abbrev pub handler : CommandHandler
handler = record {
  ota_queue = record { queue = []; is_shutdown = false };
  can_writer = record {
    interface = "vcan1";
    is_open = true;
    socket_fd = some 3;
    bus = [];
    obtained = 3 ∷ [];
    closed = [];
  };
  seen_ids = [];
  diagnoses = [];
}

abbrev pub lock : Consumed
lock = message "sdv/commands/to/uin/U" "DOOR_LOCK" (pos 16)

abbrev pub update : Consumed
update = message "sdv/commands/to/uin/U" "OTA_TRIGGER" (pos 16)

abbrev session : List Consumed
session = lock ∷ timeout ∷ lock ∷ update ∷ []

run_once_example :
    effects (run text_json "U" handler session)
    ≡ perform_all (effects handler) (fresh [] (commands text_json "U" session))
unfolding parse_command contains
run_once_example = run_once text_json "U" handler session (omega arith)

run-IsRouted_example : IsRouted (run text_json "U" handler session)
run-IsRouted_example =
    run-IsRouted text_json "U" handler session (record { ota_only = tt; triggers_only = tt })

run-IsBounded_example : IsBounded (run text_json "U" handler session).seen_ids
run-IsBounded_example =
    run-IsBounded text_json "U" handler session (record { bounded = omega arith; distinct = tt })

abbrev running : Session
running = record {
  worker = record { running = true; has_thread = true };
  subscribed = [];
  requests = [];
}

-- A message comes after 400 ms of a wait that has lasted 100 ms when `stop` is called.
stop_bounded_example :
    let done = stop "U" (time_left in_body 100 (some 400) 20) never (throws 10) running in
    (done.1 ≤ 3020) × (done.0.worker ≡ idle)
stop_bounded_example = stop_bounded "U" in_body 100 (some 400) 20 never (throws 10) running

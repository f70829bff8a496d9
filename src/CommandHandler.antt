-- ===== src/CommandHandler.antt =====
-- src/gateway/command_handler.cpp and include/gateway/command_handler.hpp.
--
-- The consumer thread is a fold of `consume` over what try_consume_message_for gives it. The
-- documents of nlohmann::json are a parameter. The result of CanWriter::write only reaches the log,
-- and so does a diagnosis, which `diagnoses` records; the other log lines are left out.
pub mod Dedup
pub mod Seen
pub mod Routing
pub mod Lifecycle
pub mod Handover
use sdv_edge_gateway.Common.{
  ◌>>=◌, ℕ, ◌+◌, String, ◌<>◌, str_eq, Bool, true, false, not, ◌&&◌, ◌||◌, Option, none, some, List,
  [], ◌∷◌, ◌++◌, leb, length, if◌then◌else◌,
}
use sdv_edge_gateway.Common.Int.{ℤ}
use sdv_edge_gateway.Types.{
  CommandType, door_lock, door_unlock, engine_start, horn_light, ota_trigger, unknown, Command,
}
use sdv_edge_gateway.Json.{JsonOps}
use sdv_edge_gateway.SafeQueue.{SafeQueue, push}
use sdv_edge_gateway.CanWriter.{CanWriter, write}

abbrev pub max_seen_ids : ℕ
max_seen_ids = 200

-- What handle_diagnosis writes to the log.
pub data Diagnosis : Type 0 where
  diagnosis : (dtc asil driver_msg root_cause : String) → Diagnosis
  bad_json : Diagnosis

pub record CommandHandler : Type 0 where
  pub ota_queue : SafeQueue Command
  pub can_writer : CanWriter
  pub seen_ids : List String
  pub diagnoses : List Diagnosis

-- The two topics that the constructor builds.
abbrev pub topic : String → String
topic uin = "sdv/commands/to/uin/" <> uin

abbrev pub diagnosis_topic : String → String
diagnosis_topic uin = "sdv/Analytics/to/uin/" <> uin <> "/diagnosis"

-- `type_map`, and UNKNOWN for a name that it does not hold.
unfoldable pub command_type : String → CommandType
command_type s =
    if str_eq s "DOOR_LOCK"
    then door_lock
    else if str_eq s "DOOR_UNLOCK"
    then door_unlock
    else if str_eq s "ENGINE_START"
    then engine_start
    else if str_eq s "HORN_LIGHT"
    then horn_light
    else if str_eq s "OTA_TRIGGER"
    then ota_trigger
    else unknown

module _ {J : Type 0} (json : JsonOps J) where
  -- `none`: returns false, and `out` stays as it was.
  unfoldable pub parse_command : String → Option Command
  parse_command payload = do
    j ← json.parse payload
    type_str ← json.at_string j "type"
    correlation_id ← json.value_string j "correlation_id" ""
    args ← json.value j "payload" json.object
    payload_json ← json.dump args
    some (record {
      type = command_type type_str;
      correlation_id = correlation_id;
      payload_json = payload_json;
    })

  read_diagnosis : String → Option Diagnosis
  read_diagnosis payload = do
    j ← json.parse payload
    driver_msg ← json.value_string j "driver_message" ""
    dtc ← json.value_string j "dtc" ""
    asil ← json.value_string j "asil" ""
    root_cause ← json.value_string j "root_cause" ""
    some (diagnosis dtc asil driver_msg root_cause)

  abbrev or_bad_json : Option Diagnosis → Diagnosis
  or_bad_json none = bad_json
  or_bad_json (some d) = d

  unfoldable pub handle_diagnosis : String → CommandHandler → CommandHandler
  unfolding read_diagnosis
  handle_diagnosis payload h = record h {
    diagnoses = h.diagnoses ++ or_bad_json (read_diagnosis payload) ∷ [];
  }

-- `seen_ids_.count`.
unfoldable pub contains : String → List String → Bool
contains id [] = false
contains id (x ∷ xs) = str_eq x id || contains id xs

unfoldable pub already_seen : String → List String → List String × Bool
already_seen id seen =
    if contains id seen
    then (seen, true)
    else (id ∷ (if leb max_seen_ids (length seen) then [] else seen), false)

-- The cases of the switch. `nbytes` is the answer of ::write, should the command reach the bus.
dispatch : CommandType → ℤ → Command → CommandHandler → CommandHandler
dispatch ota_trigger nbytes cmd h = record h { ota_queue = push h.ota_queue cmd }
dispatch unknown nbytes cmd h = h
dispatch type nbytes cmd h = record h {
  can_writer = (write h.can_writer nbytes type cmd.payload_json).0;
}

unfoldable pub route : ℤ → Command → CommandHandler → CommandHandler
unfolding dispatch
route nbytes cmd h = dispatch cmd.type nbytes cmd h

-- One round of the loop: the time ran out, the pointer is null, or a message came.
pub data Consumed : Type 0 where
  timeout : Consumed
  null_message : Consumed
  message : (topic payload : String) (nbytes : ℤ) → Consumed

-- A parsed command: the guard, then its executor.
unfoldable pub accept : ℤ → Command → CommandHandler → CommandHandler
unfolding already_seen route
accept nbytes cmd h =
    let (seen, dup) = already_seen cmd.correlation_id h.seen_ids in
    let h' = record h { seen_ids = seen } in if dup then h' else route nbytes cmd h'

module _ {J : Type 0} (json : JsonOps J) (uin : String) where
  unfoldable pub handle_message : String → String → ℤ → CommandHandler → CommandHandler
  unfolding parse_command
  handle_message msg_topic payload nbytes h =
      if str_eq msg_topic (diagnosis_topic uin)
      then handle_diagnosis json payload h
      else elim (parse_command json payload) [ none ↦ h | some cmd ↦ accept nbytes cmd h ]

  unfoldable pub consume : CommandHandler → Consumed → CommandHandler
  unfolding handle_message
  consume h timeout = h
  consume h null_message = h
  consume h (message msg_topic payload nbytes) = handle_message msg_topic payload nbytes h

  -- The rounds of the loop between `start` and `stop`.
  unfoldable pub run : CommandHandler → List Consumed → CommandHandler
  run h [] = h
  run h (m ∷ ms) = run (consume h m) ms

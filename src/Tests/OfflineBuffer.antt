-- ===== src/Tests/OfflineBuffer.antt =====
-- Messages in a buffer, with a text that is the object itself.
use sdv_edge_gateway.Common.{
  ℕ, ◌+◌, ◌≡◌, ◌⊎◌, refl, String, Bool, Option, none, some, List, [], ◌∷◌, ◌++◌, map, if◌then◌else◌,
  inl, str_eq, true, false, length, take,
}
use sdv_edge_gateway.Common.Assoc.{find}
use sdv_edge_gateway.Types.{TelemetryMsg}
use sdv_edge_gateway.Mqtt.{Value, text, number, int, boolean}
use sdv_edge_gateway.OfflineBuffer.{RapidJson, to_json}
use sdv_edge_gateway.OfflineBuffer.Roundtrip.{IsJson, IsFiniteMsg, read_back}
use sdv_edge_gateway.OfflineBuffer.Database.{
  Bound, int64, payload, Sqlite, delete_sql, OfflineBuffer, store, drain,
}
use sdv_edge_gateway.OfflineBuffer.Capacity.{
  Row, pending, without_oldest, selected, mark, waiting, IsTable, room, pending_of, store-keeps,
}
use sdv_edge_gateway.OfflineBuffer.Replay.{rows_of, drain-replays}
use sdv_edge_gateway.OfflineBuffer.Session.{
  Op, stores, drains, marks, session, waits, Leaves, session-Leaves,
}
use sdv_edge_gateway.Tests.Instances.{whole_double, Anything}

abbrev Object : Type 0
Object = List (String × Value ℕ)

abbrev object_json : RapidJson ℕ Object Object
object_json = record {
  c_str = λ s. s;
  written = λ object. object;
  parse = λ object. some object;
  member = λ object name. find name object;
}

same_number : (v : Option (Value ℕ)) → v ≡ read_back (λ w. w) v
same_number none = refl
same_number (some (text s)) = refl
same_number (some (number w)) = refl
same_number (some (int n)) = refl
same_number (some (boolean b)) = refl

object_json-IsJson : IsJson object_json Anything (λ w. w)
object_json-IsJson = record {
  parse-written = λ object finite. (object, refl, λ name. same_number (find name object));
}

abbrev msg : TelemetryMsg ℕ
msg = record {
  uin = "U";
  vehicle_speed_kmh = 50;
  engine_rpm = 2000;
  engine_coolant_temp_c = 90;
  battery_voltage_v = 13;
  gear = "D";
  timestamp = 9000000123;
  from_buffer = false;
}

abbrev msgs : List (ℕ × TelemetryMsg ℕ)
msgs = (1, msg) ∷ (2, msg) ∷ []

msg-IsFiniteMsg : IsFiniteMsg whole_double object_json Anything (λ w. w) object_json-IsJson msg
msg-IsFiniteMsg = record { speed = tt; rpm = tt; coolant = tt; batt = tt }

abbrev run_statement : List (Row Object) → String → List (Bound Object) → List (Row Object) × Bool
run_statement d sql (payload t ∷ []) = (d ++ waiting (length d + 1) t ∷ [], true)
run_statement d sql (int64 id ∷ []) = (map (mark id) d, true)
run_statement d sql _ = (d, false)

abbrev rows_given : List (Row Object) → String → List (Bound Object) → List (ℕ × Option Object)
rows_given d sql (int64 n ∷ []) = map selected (take n (pending d))
rows_given d sql _ = (length (pending d), none) ∷ []

abbrev table_sql : Sqlite (List (Row Object)) Object
table_sql = record {
  open_v2 = λ path. some [];
  exec = λ d sql. if str_eq sql delete_sql then (without_oldest d, true) else (d, true);
  prepares = λ d sql. true;
  execute = λ d sql args. run_statement d sql args;
  query = λ d sql args. rows_given d sql args;
}

abbrev same : List (Row Object) → List (Row Object)
same d = d

table_sql-IsTable : IsTable table_sql same
table_sql-IsTable = record {
  counts = λ d. refl;
  deletes = λ d. inl (refl, refl);
  inserts = λ d t. inl (refl, length d + 1, refl);
  selects = λ d n. refl;
  updates = λ d id. inl (refl, refl);
}

-- Two messages wait in a buffer for two.
abbrev two_rows : List (Row Object)
two_rows =
    rows_of whole_double object_json Anything (λ w. w) object_json-IsJson table_sql same
      table_sql-IsTable msgs

abbrev buffer : OfflineBuffer (List (Row Object))
buffer = record { db_path = "buffer.db"; max_rows = 2; db = some two_rows }

store-keeps_example :
    let (b', ok) = store whole_double object_json table_sql buffer msg in
    let kept_rows =
      room whole_double object_json table_sql same table_sql-IsTable 2 (pending two_rows) in
    ((ok ≡ true)
      × (id : ℕ) × (pending_of whole_double object_json table_sql same table_sql-IsTable b'
          ≡ kept_rows ++ waiting id (to_json whole_double object_json msg) ∷ []))
    ⊎ ((ok ≡ false)
        × (pending_of whole_double object_json table_sql same table_sql-IsTable b' ≡ kept_rows))
store-keeps_example =
    store-keeps whole_double object_json table_sql same table_sql-IsTable buffer two_rows msg refl
      refl refl

drain-replays_example :
    drain whole_double object_json table_sql buffer 1
    ≡ (1, record msg { timestamp = 9000000000; from_buffer = true }) ∷ []
drain-replays_example =
    drain-replays whole_double object_json Anything (λ w. w) object_json-IsJson table_sql same
      table_sql-IsTable buffer two_rows 1 msgs refl refl refl
      (msg-IsFiniteMsg, (msg-IsFiniteMsg, tt))

-- The first store makes room for its message.
abbrev calls : List (Op ℕ)
calls = stores msg ∷ drains 2 ∷ marks 1 ∷ stores msg ∷ marks 7 ∷ []

session-Leaves_example :
    Leaves whole_double object_json table_sql same table_sql-IsTable 2 calls
      (waits whole_double object_json table_sql same table_sql-IsTable buffer)
      (session whole_double object_json table_sql buffer calls)
session-Leaves_example =
    session-Leaves whole_double object_json table_sql same table_sql-IsTable (λ d. refl) (λ d. refl)
      buffer calls

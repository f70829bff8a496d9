-- ===== src/Gateway/Course/Courses.antt =====
-- The courses that `main` can take, as its sequence of starts and stops and its end.
use sdv_edge_gateway.Common.{
  ℕ, ◌≤◌, ◌<◌, ◌≡◌, ◌⊎◌, Bool, Option, none, some, List, [], ◌∷◌, ◌++◌, map, take, if◌then◌else◌,
}
use sdv_edge_gateway.Gateway.{
  Module, can_writer, can_reader, telemetry_pub, cmd_handler, ota_agent, anomaly_det, Event, starts,
  stops, disconnects,
}
use sdv_edge_gateway.Gateway.Modules.{Modules}
use sdv_edge_gateway.Gateway.Main.{Ended, exits, waits_forever, aborts}

-- The writer before the handler that calls it, and each consumer after its producer.
abbrev start_order : List Module
start_order = can_writer ∷ can_reader ∷ telemetry_pub ∷ cmd_handler ∷ ota_agent ∷ []

-- The consumers first, then the producer and the writer.
abbrev stop_order : List Module
stop_order = anomaly_det ∷ ota_agent ∷ cmd_handler ∷ telemetry_pub ∷ can_reader ∷ can_writer ∷ []

-- C++ destroys local objects in the reverse of the order of their definitions.
abbrev destruction_order : List Module
destruction_order =
    anomaly_det ∷ ota_agent ∷ cmd_handler ∷ telemetry_pub ∷ can_writer ∷ can_reader ∷ []

-- The first starts of step 6, without the detector's.
abbrev pub started : ℕ → List Event
started n = map starts (take n start_order)

-- All of step 6; `detector` tells whether the anomaly detector has started.
abbrev pub all_started : (detector : Bool) → List Event
all_started detector = started 5 ++ (if detector then starts anomaly_det ∷ [] else [])

-- Then the graceful shutdown, and the disconnection.
abbrev pub shut_down : (detector : Bool) → List Event
shut_down detector = (all_started detector ++ map stops stop_order) ++ disconnects ∷ []

-- And then the destructors.
abbrev pub whole_course : (detector : Bool) → List Event
whole_course detector = shut_down detector ++ map stops destruction_order

-- What `main` did once the modules were made, and how it ended: a module refused to start, so the
-- destructors ran; it ended before that, in a start or in the destructors; it did not come back
-- from the shutdown; not from the disconnection or the destructors after it; or it came to its end.
pub data IsCourse (es : List Event) (ended : Ended) : Type 0 where
  refused :
      (n : ℕ)
      → n < 5
      → es ≡ started n ++ map stops destruction_order
      → ended ≡ exits 1
      → IsCourse es ended
  halted :
      (n : ℕ)
      → n ≤ 5
      → es ≡ started n
      → (ended ≡ waits_forever) ⊎ (ended ≡ aborts)
      → IsCourse es ended
  stopping : (d : Bool) → es ≡ all_started d → ended ≡ waits_forever → IsCourse es ended
  leaving : (d : Bool) → es ≡ shut_down d → ended ≡ waits_forever → IsCourse es ended
  finished : (d : Bool) → es ≡ whole_course d → ended ≡ exits 0 → IsCourse es ended

-- The modules are made only after steps 1 to 4; before that, `main` returns 1 or does not return.
abbrev pub HasCourse : Option Modules → Ended → Type 0
HasCourse (some g) ended = IsCourse g.events ended
HasCourse none ended = (ended ≡ exits 1) ⊎ (ended ≡ waits_forever) ⊎ (ended ≡ aborts)

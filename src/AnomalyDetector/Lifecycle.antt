-- ===== src/AnomalyDetector/Lifecycle.antt =====
-- AnomalyDetector::start and ::stop, and the members that they change.
use sdv_edge_gateway.Common.{Bool, true, false}
use sdv_edge_gateway.Worker.{Worker, idle, Started, returned, started_as, spawn, halt}

-- `has_session`: session_ holds the loaded model.
pub record Session : Type 0 where
  pub worker : Worker
  pub has_session : Bool

unfoldable pub init : Session
init = record { worker = idle; has_session = false }

-- `loaded`: the ONNX model could be opened; `emplace` first drops a session that it finds.
unfoldable pub start : (loaded : Bool) → Session → Started Session
start false s = returned (record s { has_session = false }) false
start true s = started_as (λ w. record s { worker = w; has_session = true }) (spawn s.worker)

unfoldable pub stop : Session → Session
stop s = record s { worker = halt s.worker }

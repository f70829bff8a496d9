-- ===== src/TelemetryPublisher/Lifecycle.antt =====
-- TelemetryPublisher::start and ::stop.
use sdv_edge_gateway.Common.{Bool, true, false}
use sdv_edge_gateway.Worker.{Worker, Started, returned, spawn, halt}

-- `connected` is what is_connected answers.
unfoldable pub start : (connected : Bool) → Worker → Started Worker
start false w = returned w false
start true w = spawn w

unfoldable pub stop : Worker → Worker
stop w = halt w

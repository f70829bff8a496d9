-- ===== src/OtaAgent/Lifecycle.antt =====
-- The class OtaAgent: its constructor, start and stop. What its thread does is in the parent.
use sdv_edge_gateway.Common.{String}
use sdv_edge_gateway.Worker.{Worker, idle, Started, started_as, spawn, halt}
use sdv_edge_gateway.OtaAgent.{Config}

-- The members, without the references to the queue and to the client.
pub record OtaAgent : Type 0 where
  pub config : Config
  pub worker : Worker

-- The default arguments of the constructor.
abbrev pub default_config : (uin : String) → Config
default_config uin = record {
  uin = uin;
  firmware_path = "/tmp/sdv_firmware_new.bin";
  backup_path = "/tmp/sdv_firmware_backup.bin";
  installed_path = "/opt/sdv/gateway";
}

unfoldable pub init : Config → OtaAgent
init config = record { config = config; worker = idle }

unfoldable pub start : OtaAgent → Started OtaAgent
start a = started_as (λ w. record a { worker = w }) (spawn a.worker)

unfoldable pub stop : OtaAgent → OtaAgent
stop a = record a { worker = halt a.worker }

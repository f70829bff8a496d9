-- ===== src/Types.antt =====
-- include/common/types.hpp: the data that the gateway's threads pass to one another.
-- `W` stands for `double`. Times are numbers of milliseconds.
use sdv_edge_gateway.Common.{ℕ, String, Bool, List}

-- A CAN frame as SocketCAN delivers it; `bytes` is `data[8]`.
pub record CanFrame : Type 0 where
  pub can_id : ℕ  -- uint32
  pub dlc : ℕ  -- uint8
  pub bytes : List ℕ
  pub timestamp : ℕ

pub record DecodedSignal (W : Type 0) : Type 0 where
  pub name : String
  pub value : W
  pub unit : String
  pub timestamp : ℕ

pub record TelemetryMsg (W : Type 0) : Type 0 where
  pub uin : String
  pub vehicle_speed_kmh : W
  pub engine_rpm : W
  pub engine_coolant_temp_c : W
  pub battery_voltage_v : W
  pub gear : String
  pub timestamp : ℕ
  pub from_buffer : Bool

pub data CommandType : Type 0 where
  door_lock door_unlock engine_start horn_light ota_trigger unknown : CommandType

pub record Command : Type 0 where
  pub type : CommandType
  pub correlation_id : String
  pub payload_json : String

pub data OtaState : Type 0 where
  idle manifest_received downloading verifying installing complete failed rolled_back : OtaState

pub record OtaStatus : Type 0 where
  pub state : OtaState
  pub fw_version : String
  pub error_msg : String
  pub progress_pct : ℕ

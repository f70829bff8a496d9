-- ===== src/Mqtt.antt =====
-- What the gateway uses of mqtt::async_client, which is third-party code. Each answer of the broker
-- is an argument of the operation that waits for it. A publish is modelled by the message handed to
-- the client: the publishers catch and log its exception and go on alike.
use sdv_edge_gateway.Common.{ℕ, String, Bool, true, false, List, leb, if◌then◌else◌}

-- How a token that is waited for ends: after some milliseconds, never, or by an mqtt::exception after
-- some milliseconds.
pub data Ack : Type 0 where
  answered : ℕ → Ack
  never : Ack
  throws : ℕ → Ack

-- `wait_for` returns after the time, with whether the token completed, or throws.
pub data Waited : Type 0 where
  returned : (elapsed : ℕ) → (completed : Bool) → Waited
  thrown : (elapsed : ℕ) → Waited

unfoldable pub wait_for : ℕ → Ack → Waited
wait_for limit (answered n) = if leb n limit then returned n true else returned limit false
wait_for limit never = returned limit false
wait_for limit (throws n) = if leb n limit then thrown n else returned limit false

-- mqtt::make_message(topic, payload, qos, retained); the payload is the list of the JSON object's
-- members in the order of their assignment, before nlohmann's `dump`.
pub data Value (W : Type 0) : Type 0 where
  text : String → Value W
  number : W → Value W
  int : ℕ → Value W
  boolean : Bool → Value W

pub record Message (W : Type 0) : Type 0 where
  pub topic : String
  pub payload : List (String × Value W)
  pub qos : ℕ
  pub retained : Bool

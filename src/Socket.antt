-- ===== src/Socket.antt =====
-- The calls of the SocketCAN interface, which the kernel answers: each answer is an argument of the
-- operation that makes the call. A descriptor is `some fd`, and `none` stands for a negative one.
use sdv_edge_gateway.Common.{ℕ, String, Bool, Option, List}

pub record SocketCalls : Type 0 where
  pub socket : Option ℕ  -- ::socket(PF_CAN, SOCK_RAW, CAN_RAW)
  pub ioctl : String → Option ℕ  -- SIOCGIFINDEX: the index of the named interface
  pub bind : ℕ → Bool  -- ::bind to the interface with this index; false: a negative result

-- What the process has asked the kernel to close, in order, and the descriptor that it got.
pub record Opened : Type 0 where
  pub fd : Option ℕ
  pub closed : List ℕ

-- ===== src/Tests/Instances.antt =====
-- Small implementations of the libraries that the gateway calls, and a few values.
use sdv_edge_gateway.Common.{
  ℕ, ◌+◌, ◌-◌, ◌*◌, ◌/◌, String, str_eq, true, none, some, List, [], ◌∷◌, ◌++◌, append-nil,
  append_assoc, if◌then◌else◌, ltb,
}
use sdv_edge_gateway.Common.Int.{pos, pos_part}
use sdv_edge_gateway.Common.Double.{DoubleOps}
use sdv_edge_gateway.Common.Float.{FloatOps}
use sdv_edge_gateway.Json.{JsonOps}
use sdv_edge_gateway.Socket.{SocketCalls}
use sdv_edge_gateway.Types.{CanFrame, DecodedSignal}
use sdv_edge_gateway.OtaAgent.Digest.{Sha}
use sdv_edge_gateway.OtaAgent.Hashing.{IsStreaming}

-- Numbers without a fraction or a sign, for `double` and `float`.
abbrev pub whole_double : DoubleOps ℕ
whole_double = record {
  nought = 0;
  of_int = pos_part;
  to_int = pos;
  add = λ a b. a + b;
  mul = λ a b. a * b;
}

abbrev literal : String → ℕ
literal t =
    if str_eq t "6500.0f"
    then 6500
    else if str_eq t "600.0f"
    then 600
    else if str_eq t "140.0f"
    then 140
    else if str_eq t "0.95f"
    then 1
    else 0

abbrev pub whole_float : FloatOps ℕ ℕ
whole_float = record {
  literal = literal;
  narrow = λ a. a;
  widen = λ a. a;
  sub = λ a b. a - b;
  div = λ a b. a / b;
  gt = λ a b. ltb b a;
}

-- Texts that stand for themselves: every member of an object is the text, except for a hash.
abbrev pub text_json : JsonOps String
text_json = record {
  parse = λ t. if str_eq t "" then none else some t;
  object = "{}";
  at_string = λ j key. if str_eq key "sha256" then some "01ff" else some j;
  value_string = λ j key fallback. some j;
  value = λ j key fallback. some j;
  dump = λ j. some j;
}

-- A digest that is the file itself.
abbrev pub list_sha : Sha (List ℕ)
list_sha = record { init = []; update = λ c xs. c ++ xs; final = λ c. c }

pub list_sha-IsStreaming : IsStreaming list_sha
list_sha-IsStreaming = record {
  update-nil = λ c. append-nil c;
  update-append = λ c xs ys. append_assoc c xs ys;
}

abbrev pub Anything : ℕ → Type 0
Anything n = Unit

-- Sockets that all calls succeed on, and one that ioctl refuses.
abbrev pub good_sockets : SocketCalls
good_sockets = record { socket = some 3; ioctl = λ name. some 1; bind = λ index. true }

abbrev pub no_interface : SocketCalls
no_interface = record { socket = some 3; ioctl = λ name. none; bind = λ index. true }

abbrev pub clock : String → ℕ
clock name = 7

-- A speed of 50 (bytes 0x88 0x13, in hundredths), as on the bus.
abbrev pub speed_frame : CanFrame
speed_frame = record {
  can_id = 0x100;
  dlc = 8;
  bytes = 0x88 ∷ 0x13 ∷ 0 ∷ 0 ∷ 0 ∷ 0 ∷ 0 ∷ 0 ∷ [];
  timestamp = 5;
}

abbrev pub speed : ℕ → DecodedSignal ℕ
speed v = record { name = "VEHICLE_SPEED"; value = v; unit = "km/h"; timestamp = 7 }

abbrev pub rpm : ℕ → DecodedSignal ℕ
rpm v = record { name = "ENGINE_RPM"; value = v; unit = "rpm"; timestamp = 7 }

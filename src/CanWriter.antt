-- ===== src/CanWriter.antt =====
-- src/can_layer/can_writer.cpp and include/can_layer/can_writer.hpp, the Linux build.
pub mod Laws
pub mod Stub
use Prim.Native.String.{slice}
use sdv_edge_gateway.Common.{
  ℕ, ◌+◌, String, Bool, true, false, not, ◌&&◌, ◌||◌, Option, none, some, List, [], ◌∷◌, ◌++◌, ◌==◌,
  if◌then◌else◌,
}
use sdv_edge_gateway.Common.Int.{ℤ, pos, negsuc}
use sdv_edge_gateway.Types.{
  CommandType, door_lock, door_unlock, engine_start, horn_light, ota_trigger, unknown,
}
use sdv_edge_gateway.Socket.{SocketCalls, Opened}

-- The kernel's `struct can_frame`.
pub record RawFrame : Type 0 where
  pub can_id : ℕ
  pub can_dlc : ℕ
  pub bytes : List ℕ

abbrev pub raw_frame_size : ℕ
raw_frame_size = 16

-- `bus`, `obtained` and `closed` record what was handed to ::write, what ::socket gave, and what was
-- handed to ::close.
pub record CanWriter : Type 0 where
  pub interface : String
  pub is_open : Bool
  pub socket_fd : Option ℕ
  pub bus : List RawFrame
  pub obtained : List ℕ
  pub closed : List ℕ

unfoldable pub init : String → CanWriter
init name = record {
  interface = name;
  is_open = false;
  socket_fd = none;
  bus = [];
  obtained = [];
  closed = [];
}

-- The look-up COMMAND_CAN_ID.find.
unfoldable pub command_can_id : CommandType → Option ℕ
command_can_id door_lock = some 0x300
command_can_id door_unlock = some 0x301
command_can_id engine_start = some 0x302
command_can_id horn_light = some 0x303
command_can_id ota_trigger = none
command_can_id unknown = none

-- ifr_name holds IFNAMSIZ - 1 bytes of the interface's name.
abbrev pub if_name : String → String
if_name name = slice name 0 15

abbrev pub is_some : Option ℕ → Bool
is_some none = false
is_some (some n) = true

-- After `socket` gave `fd`: the index, then the bind; a failure of either closes `fd`.
unfoldable pub bind_socket : SocketCalls → ℕ → Option ℕ → Opened
bind_socket sys fd none = record { fd = none; closed = fd ∷ [] }
bind_socket sys fd (some index) =
    if sys.bind index
    then record { fd = some fd; closed = [] }
    else record { fd = none; closed = fd ∷ [] }

unfoldable pub open_socket : SocketCalls → String → Opened
unfolding bind_socket
open_socket sys name = elim sys.socket [
  | none ↦ record { fd = none; closed = [] }
  | some fd ↦ bind_socket sys fd (sys.ioctl (if_name name))
]

-- A descriptor as a list, or none.
abbrev pub listed : Option ℕ → List ℕ
listed none = []
listed (some fd) = fd ∷ []

unfoldable pub start : SocketCalls → CanWriter → CanWriter × Bool
unfolding open_socket
start sys w =
    let got = open_socket sys w.interface in
    let w' = record w {
      socket_fd = got.fd;
      obtained = w.obtained ++ listed sys.socket;
      closed = w.closed ++ got.closed;
    } in
    if is_some got.fd then (record w' { is_open = true }, true) else (w', false)

unfoldable pub stop : CanWriter → CanWriter
stop w = elim w.socket_fd [
  | none ↦ record w { is_open = false }
  | some fd ↦ record w { socket_fd = none; is_open = false; closed = w.closed ++ fd ∷ [] }
]

-- One byte 0x01 under the command's identifier, the rest of the frame zero.
abbrev pub trigger_frame : ℕ → RawFrame
trigger_frame id = record {
  can_id = id;
  can_dlc = 1;
  bytes = 0x01 ∷ 0 ∷ 0 ∷ 0 ∷ 0 ∷ 0 ∷ 0 ∷ 0 ∷ [];
}

abbrev pub is_whole : ℤ → Bool
is_whole (pos n) = n == raw_frame_size
is_whole (negsuc n) = false

-- `nbytes` is what ::write returns. The payload is not read.
unfoldable pub write : CanWriter → ℤ → CommandType → String → CanWriter × Bool
unfolding command_can_id
write w nbytes type payload_json =
    if not w.is_open || not (is_some w.socket_fd) then (w, false) else elim (command_can_id type) [
      | none ↦ (w, false)
      | some id ↦ (record w { bus = w.bus ++ trigger_frame id ∷ [] }, is_whole nbytes)
    ]

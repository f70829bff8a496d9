-- ===== src/CanReader.antt =====
-- src/can_layer/can_reader.cpp and include/can_layer/can_reader.hpp, the Linux build.
--
-- A round of the loop is a function of what ::read returned. A frame on the stack is not
-- initialised, so its bytes before the memcpy are an argument, `stack`.
pub mod Frames
pub mod Lifecycle
pub mod Stub
use sdv_edge_gateway.Common.{
  ℕ, ◌%◌, ◌^◌, String, Bool, true, false, Option, none, some, List, [], ◌∷◌, ◌++◌, take, drop, ltb,
  if◌then◌else◌,
}
use sdv_edge_gateway.Types.{CanFrame}
use sdv_edge_gateway.SafeQueue.{SafeQueue, push}
use sdv_edge_gateway.Socket.{SocketCalls, Opened}
use sdv_edge_gateway.Worker.{Worker, idle, Started, returned, started_as, spawn, halt}
use sdv_edge_gateway.CanWriter.{RawFrame, raw_frame_size, if_name, is_some, listed}

-- What ::read gives: a negative result with whether errno is EAGAIN or EWOULDBLOCK, or a number of
-- bytes with the frame that they fill.
pub data ReadResult : Type 0 where
  failure : (timed_out : Bool) → ReadResult
  bytes : (n : ℕ) → RawFrame → ReadResult

-- `can_id & CAN_EFF_MASK`: the low 29 bits.
abbrev pub strip_flags : ℕ → ℕ
strip_flags id = id % 2 ^ 29

unfoldable pub translate : (stack : List ℕ) (now : ℕ) → RawFrame → CanFrame
translate stack now raw = record {
  can_id = strip_flags raw.can_id;
  dlc = raw.can_dlc;
  bytes = take raw.can_dlc raw.bytes ++ drop raw.can_dlc stack;
  timestamp = now;
}

-- A round, with the stack and the clock that it finds.
pub record Round : Type 0 where
  pub read : ReadResult
  pub stack : List ℕ
  pub now : ℕ

unfoldable pub step : SafeQueue CanFrame → Round → SafeQueue CanFrame
step q r = elim r.read [
  | failure timed_out ↦ q
  | bytes n raw ↦ if ltb n raw_frame_size then q else push q (translate r.stack r.now raw)
]

unfoldable pub run : SafeQueue CanFrame → List Round → SafeQueue CanFrame
run q [] = q
run q (r ∷ rs) = run (step q r) rs

-- The members that `start` and `stop` change; `obtained` and `closed` record what ::socket gave and what
-- was handed to ::close.
pub record CanReader : Type 0 where
  pub interface : String
  pub worker : Worker
  pub socket_fd : Option ℕ
  pub obtained : List ℕ
  pub closed : List ℕ

unfoldable pub init : String → CanReader
init name = record { interface = name; worker = idle; socket_fd = none; obtained = []; closed = [] }

-- A failure of the ioctl or of the bind closes `fd`; the timeout's setsockopt is not checked.
unfoldable pub bind_socket : SocketCalls → ℕ → Option ℕ → Opened
bind_socket sys fd none = record { fd = none; closed = fd ∷ [] }
bind_socket sys fd (some index) =
    if sys.bind index
    then record { fd = some fd; closed = [] }
    else record { fd = none; closed = fd ∷ [] }

unfoldable pub open_socket : SocketCalls → String → Opened
unfolding bind_socket
open_socket sys name = elim sys.socket [
  | none ↦ record { fd = none; closed = [] }
  | some fd ↦ bind_socket sys fd (sys.ioctl (if_name name))
]

unfoldable pub start : SocketCalls → CanReader → Started CanReader
unfolding open_socket spawn
start sys r =
    let got = open_socket sys r.interface in
    let r' = record r {
      socket_fd = got.fd;
      obtained = r.obtained ++ listed sys.socket;
      closed = r.closed ++ got.closed;
    } in
    if is_some got.fd
    then started_as (λ w. record r' { worker = w }) (spawn r.worker)
    else returned r' false

-- The thread is joined if there is one, and then the socket is closed.
unfoldable pub stop : CanReader → CanReader
unfolding halt
stop r =
    let r' = record r { worker = halt r.worker } in
    elim r.socket_fd [
      | none ↦ r'
      | some fd ↦ record r' { socket_fd = none; closed = r.closed ++ fd ∷ [] }
    ]

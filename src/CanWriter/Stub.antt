-- ===== src/CanWriter/Stub.antt =====
-- src/can_layer/can_writer.cpp, the build without SocketCAN.
use sdv_edge_gateway.Common.{
  ◌≡◌, refl, sym, ◌∙◌, ℕ, String, Bool, true, false, Option, none, List, [], ◌∷◌,
}
use sdv_edge_gateway.Common.Int.{ℤ}
use sdv_edge_gateway.Types.{CommandType}
use sdv_edge_gateway.Socket.{SocketCalls}
use sdv_edge_gateway.CanWriter as Linux
use sdv_edge_gateway.CanWriter.{CanWriter}

-- COMMAND_CAN_ID is empty.
unfoldable pub command_can_id : CommandType → Option ℕ
command_can_id type = none

unfoldable pub open_socket : Option ℕ
open_socket = none

unfoldable pub start : CanWriter → CanWriter × Bool
start w = (w, true)

unfoldable pub stop : CanWriter → CanWriter
stop w = record w { is_open = false; socket_fd = none }

unfoldable pub write : CanWriter → CommandType → String → CanWriter × Bool
write w type payload_json = (w, false)

-- The calls of a client; what ::write returns is given to each write.
data Op : Type 0 where
  starts : Op
  stops : Op
  writes : (nbytes : ℤ) → CommandType → String → Op

stub_run : CanWriter → List Op → CanWriter
stub_run w [] = w
stub_run w (starts ∷ ops) = stub_run (start w).0 ops
stub_run w (stops ∷ ops) = stub_run (stop w) ops
stub_run w (writes nbytes type payload ∷ ops) = stub_run (write w type payload).0 ops

linux_run : SocketCalls → CanWriter → List Op → CanWriter
linux_run sys w [] = w
linux_run sys w (starts ∷ ops) = linux_run sys (Linux.start sys w).0 ops
linux_run sys w (stops ∷ ops) = linux_run sys (Linux.stop w) ops
linux_run sys w (writes nbytes type payload ∷ ops) =
    linux_run sys (Linux.write w nbytes type payload).0 ops

-- A writer without a socket.
closed_writer : String → CanWriter
closed_writer name = record {
  interface = name;
  is_open = false;
  socket_fd = none;
  bus = [];
  obtained = [];
  closed = [];
}

stub_stays :
    (name : String) (ops : List Op) → stub_run (closed_writer name) ops ≡ closed_writer name
unfolding stub_run closed_writer start stop write
stub_stays name [] = refl
stub_stays name (starts ∷ ops) = stub_stays name ops
stub_stays name (stops ∷ ops) = stub_stays name ops
stub_stays name (writes nbytes type payload ∷ ops) = stub_stays name ops

linux_stays :
    (sys : SocketCalls) (name : String) (ops : List Op)
    → sys.socket ≡ none
    → linux_run sys (closed_writer name) ops ≡ closed_writer name
unfolding linux_run closed_writer Linux.start Linux.stop Linux.write
linux_stays sys name [] e = refl
linux_stays sys name (starts ∷ ops) e = rw e (linux_stays sys name ops e)
linux_stays sys name (stops ∷ ops) e = linux_stays sys name ops e
linux_stays sys name (writes nbytes type payload ∷ ops) e = linux_stays sys name ops e

-- Whatever is called, a new writer of this build stays as it was made, like one of the Linux build where
-- no socket can be had: no frame leaves and no descriptor is closed. Only what `start` answers differs.
like_no_socket :
    (sys : SocketCalls) (name : String) (ops : List Op)
    → sys.socket ≡ none
    → stub_run (Linux.init name) ops ≡ linux_run sys (Linux.init name) ops
unfolding Linux.init closed_writer
like_no_socket sys name ops e = stub_stays name ops ∙ sym (linux_stays sys name ops e)

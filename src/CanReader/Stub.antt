-- ===== src/CanReader/Stub.antt =====
-- src/can_layer/can_reader.cpp, the build without SocketCAN.
use sdv_edge_gateway.Common.{
  ◌≡◌, refl, sym, ◌∙◌, ℕ, String, Bool, true, Option, none, List, [], ◌∷◌,
}
use sdv_edge_gateway.Types.{CanFrame}
use sdv_edge_gateway.SafeQueue.{SafeQueue}
use sdv_edge_gateway.Socket.{SocketCalls}
use sdv_edge_gateway.CanReader as Linux
use sdv_edge_gateway.Worker.{Started, returned, hangs, terminated, halt}
use sdv_edge_gateway.CanReader.{CanReader}

unfoldable pub open_socket : Option ℕ
open_socket = none

unfoldable pub start : CanReader → CanReader × Bool
start r = (r, true)

unfoldable pub stop : CanReader → CanReader
stop r = record r { worker = halt r.worker }

unfoldable pub run : SafeQueue CanFrame → SafeQueue CanFrame
run q = q

-- The object after a start, however it ends.
abbrev left : Started CanReader → CanReader
left (returned r ok) = r
left (hangs r) = r
left (terminated r) = r

data Op : Type 0 where
  starts : Op
  stops : Op

stub_run : CanReader → List Op → CanReader
stub_run r [] = r
stub_run r (starts ∷ ops) = stub_run (start r).0 ops
stub_run r (stops ∷ ops) = stub_run (stop r) ops

linux_run : SocketCalls → CanReader → List Op → CanReader
linux_run sys r [] = r
linux_run sys r (starts ∷ ops) = linux_run sys (left (Linux.start sys r)) ops
linux_run sys r (stops ∷ ops) = linux_run sys (Linux.stop r) ops

stub_stays : (name : String) (ops : List Op) → stub_run (Linux.init name) ops ≡ Linux.init name
unfolding stub_run Linux.init start stop halt
stub_stays name [] = refl
stub_stays name (starts ∷ ops) = stub_stays name ops
stub_stays name (stops ∷ ops) = stub_stays name ops

linux_stays :
    (sys : SocketCalls) (name : String) (ops : List Op)
    → sys.socket ≡ none
    → linux_run sys (Linux.init name) ops ≡ Linux.init name
unfolding linux_run Linux.init Linux.start Linux.stop halt
linux_stays sys name [] e = refl
linux_stays sys name (starts ∷ ops) e = rw e (linux_stays sys name ops e)
linux_stays sys name (stops ∷ ops) e = linux_stays sys name ops e

-- Whatever is called, a new reader of this build stays as it was made, without a socket and without a
-- thread, like one of the Linux build where no socket can be had. Only what `start` answers differs.
like_no_socket :
    (sys : SocketCalls) (name : String) (ops : List Op)
    → sys.socket ≡ none
    → stub_run (Linux.init name) ops ≡ linux_run sys (Linux.init name) ops
like_no_socket sys name ops e = stub_stays name ops ∙ sym (linux_stays sys name ops e)

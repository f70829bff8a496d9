-- ===== src/CanReader/Lifecycle.antt =====
-- The reader's descriptor and thread from `start` to `stop`.
use sdv_edge_gateway.Common.{◌≡◌, String, arith}
use sdv_edge_gateway.Socket.{SocketCalls}
use sdv_edge_gateway.Worker.{idle, returned, spawn, halt}
use sdv_edge_gateway.CanWriter.{is_some, listed}
use sdv_edge_gateway.CanReader.{CanReader, init, open_socket, start, stop}

-- A new reader after its start, with what the kernel gave.
abbrev pub opened : SocketCalls → String → CanReader
opened sys name =
    let got = open_socket sys name in
    record {
      interface = name;
      worker = record { running = is_some got.fd; has_thread = is_some got.fd };
      socket_fd = got.fd;
      obtained = listed sys.socket;
      closed = got.closed;
    }

pub start_new :
    (sys : SocketCalls) (name : String)
    → start sys (init name) ≡ returned (opened sys name) (is_some (open_socket sys name).fd)
unfolding start init spawn
start_new sys name = ground arith

-- Whatever the kernel answers, starting a new reader and stopping it closes exactly the descriptor
-- that was obtained, once, and joins the thread.
start-stop_reader :
    (sys : SocketCalls) (name : String)
    → ((stop (opened sys name)).closed ≡ listed sys.socket)
      × ((stop (opened sys name)).worker ≡ idle)
unfolding open_socket stop halt
start-stop_reader sys name = (ground arith, ground arith)

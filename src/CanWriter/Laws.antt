-- ===== src/CanWriter/Laws.antt =====
-- Identifiers on the bus, and the descriptor's life from `start` to `stop`.
use sdv_edge_gateway.Common.{ℕ, ◌≡◌, ◌⊎◌, String, true, none, some, arith}
use sdv_edge_gateway.Types.{CommandType}
use sdv_edge_gateway.Socket.{SocketCalls}
use sdv_edge_gateway.CanWriter.{init, command_can_id, start, stop, is_some, listed}

-- Two command types never share an identifier on the bus.
pub command_can_id-injective :
    (t u : CommandType) (id : ℕ) → command_can_id t ≡ some id → command_can_id u ≡ some id → t ≡ u
unfolding command_can_id
command_can_id-injective t u id p q = ground arith

-- Whatever the kernel answers, starting a new writer and stopping it closes exactly the descriptor
-- that was obtained, once; the writer is open in between if and only if `start` returned true, and
-- after a `start` that returned false everything obtained is closed already.
start-stop :
    (sys : SocketCalls) (name : String)
    → let (w, started) = start sys (init name) in
      (w.is_open ≡ started)
      × (is_some w.socket_fd ≡ started)
      × ((started ≡ true) ⊎ (w.closed ≡ listed sys.socket))
      × ((stop w).closed ≡ listed sys.socket)
      × ((stop w).socket_fd ≡ none)
unfolding start init stop
start-stop sys name = (ground arith, ground arith, ground arith, ground arith, ground arith)

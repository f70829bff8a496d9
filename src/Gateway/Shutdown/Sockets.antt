-- ===== src/Gateway/Shutdown/Sockets.antt =====
-- The descriptors that the two modules with a socket got and closed, through the starts and stops of
-- `main`.
use sdv_edge_gateway.Common.{
  ℕ, ◌≡◌, sym, ap, ap₂, ◌∙◌, String, Bool, true, false, Option, none, List, [], ◌∷◌, ◌++◌, arith,
  append-nil, append_assoc, Bool-cases, inl, inr,
}
use sdv_edge_gateway.Socket.{SocketCalls}
use sdv_edge_gateway.Worker.{Worker, Started, returned, hangs, terminated, started_as, spawn}
use sdv_edge_gateway.CanReader
use sdv_edge_gateway.CanReader.{CanReader}
use sdv_edge_gateway.CanWriter
use sdv_edge_gateway.CanWriter.{CanWriter, listed, is_some}
use sdv_edge_gateway.Gateway.{
  Module, can_writer, can_reader, telemetry_pub, cmd_handler, ota_agent, anomaly_det, Event,
}
use sdv_edge_gateway.Gateway.Modules.{
  Modules, Replies, noted, put, start_module, stop_module, stop_all,
}

-- What was obtained was closed, but for the descriptor that is held.
pub record IsBalanced (g : Modules) : Type 0 where
  pub writer : g.writer.obtained ≡ g.writer.closed ++ listed g.writer.socket_fd
  pub reader : g.reader.obtained ≡ g.reader.closed ++ listed g.reader.socket_fd

-- What a property says of an object, however its start ended.
abbrev pub When : {A : Type 0} → (A → Type 0) → Started A → Type 0
When P (returned g ok) = P g
When P (hangs g) = P g
When P (terminated g) = P g

writer_socket :
    (sys : SocketCalls) (name : String)
    → let got = CanWriter.open_socket sys name in listed sys.socket ≡ got.closed ++ listed got.fd
unfolding CanWriter.open_socket
writer_socket sys name = ground arith

reader_socket :
    (sys : SocketCalls) (name : String)
    → let got = CanReader.open_socket sys name in listed sys.socket ≡ got.closed ++ listed got.fd
unfolding CanReader.open_socket
reader_socket sys name = ground arith

-- One more socket, where none is held.
grows :
    (obtained closed new lost : List ℕ) (held kept : Option ℕ)
    → held ≡ none
    → obtained ≡ closed ++ listed held
    → new ≡ lost ++ listed kept
    → obtained ++ new ≡ (closed ++ lost) ++ listed kept
grows obtained closed new lost held kept e h f =
    ap₂ ◌++◌ (h ∙ ap (λ o. closed ++ listed o) e ∙ append-nil closed) f
    ∙ sym (append_assoc closed lost (listed kept))

writer-start :
    (sys : SocketCalls) (w : CanWriter)
    → w.socket_fd ≡ none
    → w.obtained ≡ w.closed ++ listed w.socket_fd
    → let w' = (CanWriter.start sys w).0 in w'.obtained ≡ w'.closed ++ listed w'.socket_fd
unfolding CanWriter.start
writer-start sys w e h =
    let got = CanWriter.open_socket sys w.interface in
    let more =
      grows w.obtained w.closed _ got.closed w.socket_fd got.fd e h
        (writer_socket sys w.interface) in
    elim (Bool-cases (is_some got.fd)) [ inl t ↦ rw t more | inr t ↦ rw t more ]

-- The reader's descriptors.
abbrev pub IsReaderBalanced : CanReader → Type 0
IsReaderBalanced c = c.obtained ≡ c.closed ++ listed c.socket_fd

spawn-balanced :
    (c : CanReader) (w : Worker)
    → IsReaderBalanced c
    → When IsReaderBalanced (started_as (λ w'. record c { worker = w' }) (spawn w))
unfolding spawn
spawn-balanced c w h = elim (Bool-cases w.has_thread) [ inl t ↦ rw t h | inr t ↦ rw t h ]

reader-start :
    (sys : SocketCalls) (c : CanReader)
    → c.socket_fd ≡ none
    → IsReaderBalanced c
    → When IsReaderBalanced (CanReader.start sys c)
unfolding CanReader.start
reader-start sys c e h =
    let got = CanReader.open_socket sys c.interface in
    let more =
      grows c.obtained c.closed _ got.closed c.socket_fd got.fd e h
        (reader_socket sys c.interface) in
    elim (Bool-cases (is_some got.fd)) [
      | inl t ↦ rw t (
          spawn-balanced
            (record c {
              socket_fd = got.fd;
              obtained = c.obtained ++ listed sys.socket;
              closed = c.closed ++ got.closed;
            })
            c.worker more)
      | inr t ↦ rw t more
    ]

writer-stop :
    (w : CanWriter)
    → w.obtained ≡ w.closed ++ listed w.socket_fd
    → let w' = CanWriter.stop w in w'.obtained ≡ w'.closed ++ listed w'.socket_fd
unfolding CanWriter.stop
writer-stop w h = ground (arith, h, append-nil (w.closed ++ listed w.socket_fd))

reader-stop :
    (c : CanReader)
    → c.obtained ≡ c.closed ++ listed c.socket_fd
    → let c' = CanReader.stop c in c'.obtained ≡ c'.closed ++ listed c'.socket_fd
unfolding CanReader.stop
reader-stop c h = ground (arith, h, append-nil (c.closed ++ listed c.socket_fd))

module _ (uin : String) (r : Replies) where
  stop_module-IsBalanced :
      (m : Module) (g : Modules) → IsBalanced g → IsBalanced (stop_module uin r m g)
  unfolding stop_module
  stop_module-IsBalanced can_writer g b = record {
    writer = writer-stop g.writer b.writer;
    reader = b.reader;
  }
  stop_module-IsBalanced can_reader g b = record {
    writer = b.writer;
    reader = reader-stop g.reader b.reader;
  }
  stop_module-IsBalanced telemetry_pub g b = record { writer = b.writer; reader = b.reader }
  stop_module-IsBalanced cmd_handler g b = record { writer = b.writer; reader = b.reader }
  stop_module-IsBalanced ota_agent g b = record { writer = b.writer; reader = b.reader }
  stop_module-IsBalanced anomaly_det g b = record { writer = b.writer; reader = b.reader }

  pub stop_all-IsBalanced :
      (ms : List Module) (g : Modules) → IsBalanced g → IsBalanced (stop_all uin r ms g)
  unfolding stop_all
  stop_all-IsBalanced [] g b = b
  stop_all-IsBalanced (m ∷ ms) g b =
      stop_all-IsBalanced ms (stop_module uin r m g) (stop_module-IsBalanced m g b)

  noted-When :
      (P : Modules → Type 0) (m : Module) (g : Modules) (ok : Bool)
      → ((es : List Event) → P (record g { events = es }))
      → When P (noted m g ok)
  noted-When P m g true h = h _
  noted-When P m g false h = h _

  put-When :
      {A : Type 0} (P : Modules → Type 0) (m : Module) (back : A → Modules) (s : Started A)
      → ((a : A) (es : List Event) → P (record (back a) { events = es }))
      → When P (put m back s)
  put-When P m back (returned a ok) h = noted-When P m (back a) ok (h a)
  put-When P m back (hangs a) h = h a _
  put-When P m back (terminated a) h = h a _

  put-reader :
      (g : Modules) (s : Started CanReader)
      → IsBalanced g
      → When IsReaderBalanced s
      → When IsBalanced (put can_reader (λ c. record g { reader = c }) s)
  put-reader g (returned c ok) b h =
      noted-When IsBalanced can_reader (record g { reader = c }) ok
        (λ es. record { writer = b.writer; reader = h })
  put-reader g (hangs c) b h = record { writer = b.writer; reader = h }
  put-reader g (terminated c) b h = record { writer = b.writer; reader = h }

  -- A module without a socket.
  abbrev pub HasNoSocket : Module → Type 0
  HasNoSocket can_writer = ⊥
  HasNoSocket can_reader = ⊥
  HasNoSocket _ = Unit

  pub start_module-IsBalanced :
      (m : Module) (g : Modules)
      → HasNoSocket m
      → IsBalanced g
      → When IsBalanced (start_module uin r m g)
  unfolding start_module
  start_module-IsBalanced can_writer g n b = elim n [ ]
  start_module-IsBalanced can_reader g n b = elim n [ ]
  start_module-IsBalanced telemetry_pub g n b =
      put-When IsBalanced telemetry_pub _ _
        (λ a es. record { writer = b.writer; reader = b.reader })
  start_module-IsBalanced cmd_handler g n b =
      put-When IsBalanced cmd_handler _ _ (λ a es. record { writer = b.writer; reader = b.reader })
  start_module-IsBalanced ota_agent g n b =
      put-When IsBalanced ota_agent _ _ (λ a es. record { writer = b.writer; reader = b.reader })
  start_module-IsBalanced anomaly_det g n b =
      put-When IsBalanced anomaly_det _ _ (λ a es. record { writer = b.writer; reader = b.reader })

  -- The reader has not been started.
  abbrev pub IsReaderNew : Modules → Type 0
  IsReaderNew g = g.reader.socket_fd ≡ none

  pub start_writer :
      (g : Modules)
      → g.writer.socket_fd ≡ none
      → IsReaderNew g
      → IsBalanced g
      → When (λ g'. IsBalanced g' × IsReaderNew g') (start_module uin r can_writer g)
  unfolding start_module
  start_writer g e n b =
      noted-When _ can_writer (record g { writer = (CanWriter.start r.tx g.writer).0 })
        (CanWriter.start r.tx g.writer).1
        (λ es. (record { writer = writer-start r.tx g.writer e b.writer; reader = b.reader }, n))

  pub start_reader :
      (g : Modules)
      → IsReaderNew g
      → IsBalanced g
      → When IsBalanced (start_module uin r can_reader g)
  unfolding start_module
  start_reader g n b =
      put-reader g (CanReader.start r.rx g.reader) b (reader-start r.rx g.reader n b.reader)

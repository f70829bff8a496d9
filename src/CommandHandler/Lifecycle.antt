-- ===== src/CommandHandler/Lifecycle.antt =====
-- CommandHandler::start and ::stop, and the time that `stop` takes.
use sdv_edge_gateway.Common.{
  ℕ, ◌+◌, ◌-◌, ◌≤◌, Option, none, some, leb, if◌then◌else◌, ◌≡◌, refl, String, Bool, true, false,
  List, [], ◌∷◌, ◌++◌, arith,
}
use sdv_edge_gateway.Mqtt.{Ack, answered, never, throws, Waited, thrown, wait_for}
use sdv_edge_gateway.Worker.{
  Worker, idle, Place, testing, in_body, left, Started, returned, hangs, terminated, started_as,
  spawn, halt,
}
use sdv_edge_gateway.CommandHandler.{topic, diagnosis_topic}

-- `requests` are the unsubscribe requests made.
pub record Session : Type 0 where
  pub worker : Worker
  pub subscribed : List String
  pub requests : List String

unfoldable pub init : Session
init = record { worker = idle; subscribed = []; requests = [] }

abbrev pub shutdown_unsub_timeout : ℕ
shutdown_unsub_timeout = 1000

-- How long try_consume_message_for waits.
abbrev pub consume_timeout : ℕ
consume_timeout = 1000

-- try_consume_message_for: a message comes after some milliseconds or not at all; the time spent, and
-- whether there is one.
abbrev pub try_consume_message_for : (limit : ℕ) → (arrival : Option ℕ) → ℕ × Bool
try_consume_message_for limit none = (limit, false)
try_consume_message_for limit (some n) = if leb n limit then (n, true) else (limit, false)

-- A round of the thread's loop with a message that takes `handling` milliseconds to handle.
unfoldable pub round_time : (arrival : Option ℕ) → (handling : ℕ) → ℕ
round_time arrival handling =
    let (waited, got) = try_consume_message_for consume_timeout arrival in
    if got then waited + handling else waited

-- How long the thread goes on once `running_` is false: not at all from the test on, and otherwise
-- for what is left of the round after `elapsed`.
unfoldable pub time_left : Place → (elapsed : ℕ) → (arrival : Option ℕ) → (handling : ℕ) → ℕ
unfolding round_time
time_left testing elapsed arrival handling = 0
time_left in_body elapsed arrival handling = round_time arrival handling - elapsed
time_left left elapsed arrival handling = 0

module _ (uin : String) where
  -- `subscribe(...)->wait()`, which has no limit, and what the code does next.
  subscribe : String → Ack → Session → (Session → Started Session) → Started Session
  subscribe t (answered n) s next = next (record s { subscribed = s.subscribed ++ t ∷ [] })
  subscribe t never s next = hangs s
  subscribe t (throws n) s next = returned s false

  unfoldable pub start : (connected : Bool) → Ack → Ack → Session → Started Session
  unfolding subscribe
  start false first second s = returned s false
  start true first second s = subscribe (topic uin) first s λ s₁.
      subscribe (diagnosis_topic uin) second s₁
        λ s₂. started_as (λ w. record s₂ { worker = w }) (spawn s₂.worker)

  -- The second wait: its result and its exception are only logged.
  after_second : Waited → ℕ → Session → Session × ℕ
  after_second (Waited.returned n completed) elapsed s = (s, elapsed + n)
  after_second (thrown n) elapsed s = (s, elapsed + n)

  -- An exception of the first request skips the second.
  after_first : Waited → Ack → ℕ → Session → Session × ℕ
  unfolding after_second
  after_first (Waited.returned n completed) second elapsed s =
      after_second (wait_for shutdown_unsub_timeout second) (elapsed + n)
        (record s { requests = s.requests ++ diagnosis_topic uin ∷ [] })
  after_first (thrown n) second elapsed s = (s, elapsed + n)

  -- `join` is how long the thread takes to end. The result is the session and the time spent.
  unfoldable pub stop : ℕ → Ack → Ack → Session → Session × ℕ
  unfolding after_first wait_for
  stop join first second s =
      after_first (wait_for shutdown_unsub_timeout first) second join
        (record s { worker = halt s.worker; requests = s.requests ++ topic uin ∷ [] })

  -- However the broker answers, `stop` joins the thread.
  pub stop-idle :
      (join : ℕ) (first second : Ack) (s : Session) → (stop join first second s).0.worker ≡ idle
  unfolding stop halt
  stop-idle join first second s = ground arith

  -- Wherever the handler's thread is when `stop` is called, and however the broker answers the two
  -- unsubscribe requests, silence included: `stop` ends within three seconds, and the time that
  -- handling a message takes if one comes within the last wait of the loop; the handler is then not
  -- running and has no thread.
  pub stop_bounded :
      (place : Place) (elapsed : ℕ) (arrival : Option ℕ) (handling : ℕ) (first second : Ack)
      (s : Session)
      → let done = stop (time_left place elapsed arrival handling) first second s in
        (done.1
          ≤ 3000 + (if (try_consume_message_for consume_timeout arrival).1 then handling else 0))
        × (done.0.worker ≡ idle)
  unfolding stop halt time_left
  stop_bounded place elapsed arrival handling first second s =
      (ground arith, stop-idle (time_left place elapsed arrival handling) first second s)

  -- How `start` leaves the handler.
  abbrev pub IsStarted : Bool → Session → Started Session → Type 0
  IsStarted connected s (returned t true) =
      (connected ≡ true)
      × (t.worker ≡ record { running = true; has_thread = true })
      × (t.subscribed ≡ (s.subscribed ++ topic uin ∷ []) ++ diagnosis_topic uin ∷ [])
  IsStarted connected s (returned t false) = t.worker ≡ s.worker
  IsStarted connected s (hangs t) = t.worker ≡ s.worker
  IsStarted connected s (terminated t) = s.worker.has_thread ≡ true

  spawn-IsStarted :
      (s : Session) (has_thread : Bool)
      → s.worker.has_thread ≡ has_thread
      → IsStarted true s (
          (started_as
            (λ w. record s {
              worker = w;
              subscribed = (s.subscribed ++ topic uin ∷ []) ++ diagnosis_topic uin ∷ [];
            })
            (spawn s.worker)))
  unfolding spawn
  spawn-IsStarted s true e = rw e refl
  spawn-IsStarted s false e = rw e (refl, refl, refl)

  -- When `start` returns true, the connection is up, both topics are subscribed and the thread
  -- runs; when it returns false or waits for an acknowledgement for ever, the thread and its flag
  -- are as they were; and it terminates the process only if the handler had a thread already.
  start-IsStarted :
      (connected : Bool) (first second : Ack) (s : Session)
      → IsStarted connected s (start connected first second s)
  unfolding start
  start-IsStarted false first second s = refl
  start-IsStarted true (answered n) (answered m) s = spawn-IsStarted s s.worker.has_thread refl
  start-IsStarted true (answered n) never s = refl
  start-IsStarted true (answered n) (throws m) s = refl
  start-IsStarted true never second s = refl
  start-IsStarted true (throws n) second s = refl

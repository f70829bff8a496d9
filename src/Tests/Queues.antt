-- ===== src/Tests/Queues.antt =====
-- The queues, the sockets and the main thread.
use sdv_edge_gateway.Common.{ℕ, ◌≡◌, ◌⊎◌, refl, false, List, [], ◌∷◌, ◌++◌, arith}
use sdv_edge_gateway.Types.{CanFrame}
use sdv_edge_gateway.SafeQueue.{SafeQueue, pushes, pops, waits, shuts_down, run}
use sdv_edge_gateway.SafeQueue.Fifo.{run_fifo}
use sdv_edge_gateway.SafeQueue.Monitor.{
  Monitor, new, enqueues, notifies, resumes, Reaches, here, then_step,
}
use sdv_edge_gateway.SafeQueue.Monitor
use sdv_edge_gateway.SafeQueue.Waiting.{no_lost_wakeup, seen, IsAtomic, Reaches-IsAtomic}
use sdv_edge_gateway.Gateway.{Queues, decode_loop}
use sdv_edge_gateway.Gateway.FanOut.{all_arrived, decode_all, decode_loop-HandsOut}
use sdv_edge_gateway.Gateway.Interrupt.{Occurrence, interrupts, arrives, turns, entered, loop_run}
use sdv_edge_gateway.Worker.{left}
use sdv_edge_gateway.Gateway.Interrupt.Rounds.{IsDecoded}
use sdv_edge_gateway.Gateway.Interrupt.Prompt.{interrupted}
use sdv_edge_gateway.Tests.Instances.{whole_double, clock, speed_frame}
use sdv_edge_gateway.Tests.Decoding.{signals}

abbrev one_item : SafeQueue ℕ
one_item = record { queue = 4 ∷ []; is_shutdown = false }

run_fifo_example :
    (run one_item (pushes 5 ∷ pops ∷ waits ∷ shuts_down ∷ pops ∷ [])).1
      ++ (run one_item (pushes 5 ∷ pops ∷ waits ∷ shuts_down ∷ pops ∷ [])).0.queue
    ≡ 4 ∷ 5 ∷ []
run_fifo_example = run_fifo one_item (pushes 5 ∷ pops ∷ waits ∷ shuts_down ∷ pops ∷ [])

-- One thread waits, another pushes, and the first gets the item.
abbrev emptied : Monitor ℕ
emptied = record { queue = []; is_shutdown = false; waiting = 0; woken = 0; notifying = 0 }

handed_over : Reaches new (5 ∷ []) emptied
unfolding new
handed_over =
    then_step (then_step (then_step (then_step here Monitor.waits) (enqueues 5)) notifies) resumes

no_lost_wakeup_example :
    (emptied.waiting ≡ 0) ⊎ ((emptied.queue ≡ []) × (emptied.is_shutdown ≡ false))
no_lost_wakeup_example = no_lost_wakeup emptied (5 ∷ []) handed_over refl refl

Reaches-IsAtomic_example : IsAtomic (seen new) (5 ∷ []) (seen emptied)
Reaches-IsAtomic_example = Reaches-IsAtomic handed_over

abbrev queues : Queues ℕ
queues = record {
  can_frame_q = record { queue = speed_frame ∷ []; is_shutdown = false };
  telemetry_q = record { queue = []; is_shutdown = false };
  anomaly_q = record { queue = []; is_shutdown = false };
}

abbrev arrivals : List (List CanFrame)
arrivals = [] ∷ (speed_frame ∷ speed_frame ∷ []) ∷ []

decode_loop-HandsOut_example :
    let q' = decode_loop whole_double clock signals arrivals queues in
    (taken : List CanFrame) × (queues.can_frame_q.queue ++ all_arrived arrivals
      ≡ taken ++ q'.can_frame_q.queue)
    × (q'.telemetry_q.queue ≡ [] ++ decode_all whole_double clock signals taken)
    × (q'.anomaly_q.queue ≡ [] ++ decode_all whole_double clock signals taken)
decode_loop-HandsOut_example = decode_loop-HandsOut whole_double clock signals arrivals queues

-- The signal comes in the second round, and a frame before its body.
abbrev before_signal : List Occurrence
before_signal = turns ∷ turns ∷ arrives speed_frame ∷ turns ∷ []

abbrev after_signal : List Occurrence
after_signal = turns ∷ turns ∷ turns ∷ []

interrupted_example :
    let s =
      loop_run whole_double clock signals
        (before_signal ++ interrupts ∷ after_signal)
        (entered queues) in
    (s.place ≡ left) × IsDecoded whole_double clock signals queues 2 s.queues
interrupted_example =
    interrupted whole_double clock signals before_signal after_signal queues refl (omega arith)

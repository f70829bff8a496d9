-- ===== src/Gateway/Downlink.antt =====
-- The downlink as the threads that it is: CommandHandler's thread and OtaAgent's, joined by the OTA
-- queue. An action is one round of a thread; only the queue is shared between them.
use sdv_edge_gateway.Common.{◌>>=◌, String, Option, none, some, List, [], ◌∷◌, ◌++◌}
use sdv_edge_gateway.Types.{Command}
use sdv_edge_gateway.Json.{JsonOps}
use sdv_edge_gateway.SafeQueue.{empty, pop_for}
use sdv_edge_gateway.CanWriter.{CanWriter}
use sdv_edge_gateway.CommandHandler.{CommandHandler, Consumed, consume}
use sdv_edge_gateway.OtaAgent.{Config, World, Answers, Outcome, done, terminated, run_command}
use sdv_edge_gateway.OtaAgent.Digest.{Sha}

-- The last two fields record what has happened, and nothing reads them.
pub record Downlink : Type 0 where
  pub handler : CommandHandler
  pub world : World
  pub handler_rounds : List Consumed
  pub agent_rounds : List (Option Command × Answers)

pub data DownAction : Type 0 where
  handles : Consumed → DownAction
  updates : Answers → DownAction

-- A new handler on a writer.
unfoldable pub new_handler : CanWriter → CommandHandler
new_handler w = record { ota_queue = empty; can_writer = w; seen_ids = []; diagnoses = [] }

unfoldable pub new_downlink : CanWriter → World → Downlink
unfolding new_handler
new_downlink w world = record {
  handler = new_handler w;
  world = world;
  handler_rounds = [];
  agent_rounds = [];
}

module _ {J : Type 0} (json : JsonOps J) (uin : String) {C : Type 0} (sha : Sha C)
    (cfg : Config) where
  unfoldable pub handler_step : Consumed → Downlink → Downlink
  handler_step m d = record d {
    handler = consume json uin d.handler m;
    handler_rounds = d.handler_rounds ++ m ∷ [];
  }

  -- What a round of the agent makes of a command, or of none.
  abbrev pub agent_outcome : Answers → Option Command → World → Outcome
  agent_outcome ans none w = done w
  agent_outcome ans (some cmd) w = run_command json sha cfg ans cmd w

  -- `none`: an exception has ended the process.
  abbrev pub updated : Downlink → Outcome → Option Downlink
  updated d (done w) = some (record d { world = w })
  updated d (terminated w) = none

  unfoldable pub agent_step : Answers → Downlink → Option Downlink
  agent_step ans d =
      let (q, popped) = pop_for d.handler.ota_queue in
      updated
        (record d {
          handler = record (d.handler) { ota_queue = q };
          agent_rounds = d.agent_rounds ++ (popped, ans) ∷ [];
        })
        (agent_outcome ans popped d.world)

  unfoldable pub downlink_step : Downlink → DownAction → Option Downlink
  downlink_step d (handles m) = some (handler_step m d)
  downlink_step d (updates ans) = agent_step ans d

  -- The actions of an interleaving, in its order.
  unfoldable pub downlink_run : Downlink → List DownAction → Option Downlink
  downlink_run d [] = some d
  downlink_run d (a ∷ actions) = downlink_step d a >>= λ d'. downlink_run d' actions

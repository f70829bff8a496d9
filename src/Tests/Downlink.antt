-- ===== src/Tests/Downlink.antt =====
-- An update on its way from the cloud to the OTA agent.
use sdv_edge_gateway.Common.{
  Holds, HasResult, ◌≡◌, refl, length, Option, none, some, List, [], ◌∷◌, arith,
}
use sdv_edge_gateway.SafeQueue.{empty, pop_for, push}
use sdv_edge_gateway.CommandHandler.{parse_command, consume, accept, contains, command_type}
use sdv_edge_gateway.CommandHandler.Dedup.{fresh, commands}
use sdv_edge_gateway.CommandHandler.Handover as Handover
use sdv_edge_gateway.OtaAgent.{World}
use sdv_edge_gateway.OtaAgent.Answered.{IsUnharmed}
use sdv_edge_gateway.Gateway.Completion.{turns, IsCompleted, turns-IsCompleted}
use sdv_edge_gateway.Gateway.Downlink.{
  Downlink, DownAction, handles, updates, new_downlink, handler_step, agent_step, downlink_step,
  downlink_run,
}
use sdv_edge_gateway.Gateway.Updates.{all_handled, RunsUpdates, downlink}
use sdv_edge_gateway.Tests.Instances.{text_json, list_sha}
use sdv_edge_gateway.Tests.CommandHandler.{handler, lock, update}
use sdv_edge_gateway.Tests.OtaAgent.{cfg, all_well, disk}

abbrev world : World
world = record { files = disk; reports = [] }

-- The update is delivered twice.
abbrev interleaving : List DownAction
interleaving =
    updates all_well
    ∷ handles lock
    ∷ handles update
    ∷ updates all_well
    ∷ handles update
    ∷ updates all_well
    ∷ []

downlink_example :
    Holds
      (RunsUpdates text_json "U" list_sha cfg handler.can_writer world
        (Handover.updates (fresh [] (commands text_json "U" (all_handled interleaving)))))
      (downlink_run text_json "U" list_sha cfg (new_downlink handler.can_writer world) interleaving)
unfolding parse_command contains
downlink_example =
    downlink text_json "U" list_sha cfg handler.can_writer world interleaving (omega arith)

-- The agent has had no turn since the update came.
abbrev under_way : List DownAction
under_way = updates all_well ∷ handles lock ∷ handles update ∷ handles update ∷ []

abbrev found : Option Downlink → Downlink
found none = new_downlink handler.can_writer world
found (some d) = d

abbrev reached : Downlink
reached =
    found
      (downlink_run text_json "U" list_sha cfg (new_downlink handler.can_writer world) under_way)

under_way-reached :
    downlink_run text_json "U" list_sha cfg (new_downlink handler.can_writer world) under_way
    ≡ some reached
unfolding downlink_run downlink_step agent_step pop_for new_downlink empty
under_way-reached = refl

one_waits : length reached.handler.ota_queue.queue ≡ 1
unfolding downlink_run downlink_step agent_step handler_step new_downlink pop_for empty consume
    accept contains command_type push
one_waits = refl

all_well-IsUnharmed : IsUnharmed all_well
all_well-IsUnharmed = record { space_known = λ e. ground (arith, e); removed = refl }

turns-IsCompleted_example :
    HasResult
      (IsCompleted text_json "U" list_sha cfg handler.can_writer world
        (Handover.updates (fresh [] (commands text_json "U" (all_handled under_way)))))
      (downlink_run text_json "U" list_sha cfg reached (turns (all_well ∷ all_well ∷ [])))
unfolding parse_command contains
turns-IsCompleted_example =
    turns-IsCompleted text_json "U" list_sha cfg handler.can_writer world under_way reached
      (all_well ∷ all_well ∷ []) (omega arith) under_way-reached
      (all_well-IsUnharmed, (all_well-IsUnharmed, tt)) (omega (arith, one_waits))

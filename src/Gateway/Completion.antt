-- ===== src/Gateway/Completion.antt =====
-- Once no more commands come, the OTA agent answers every update that was asked for.
use mathlib.Core.Path.{fun_ext}
use sdv_edge_gateway.Common.{
  ◌>>=◌, bind_assoc, ℕ, ◌+◌, ◌≤◌, ◌≡◌, ◌⊎◌, refl, sym, ap, ◌∙◌, subst, String, Option, none, some,
  List, [], ◌∷◌, ◌++◌, append-nil, map, length, All, Holds, HasResult, HasResult-bind,
  HasResult-Holds, arith,
}
use sdv_edge_gateway.Types.{Command}
use sdv_edge_gateway.Json.{JsonOps}
use sdv_edge_gateway.SafeQueue.{pop_for}
use sdv_edge_gateway.SafeQueue.Fifo.{length-pop_for}
use sdv_edge_gateway.CanWriter.{CanWriter}
use sdv_edge_gateway.CommandHandler.{Consumed}
use sdv_edge_gateway.CommandHandler.Dedup.{fresh, commands, HasRoom}
use sdv_edge_gateway.CommandHandler.Handover as Handover
use sdv_edge_gateway.OtaAgent.{Config, World, Answers, done}
use sdv_edge_gateway.OtaAgent.Digest.{Sha}
use sdv_edge_gateway.OtaAgent.Answered.{
  got_by_agent, IsAnswered, IsUnharmed, AreAnswered, WhenDone, run_command-Returns, run-AreAnswered,
}
use sdv_edge_gateway.Gateway.Downlink.{
  Downlink, DownAction, handles, updates, new_downlink, agent_outcome, agent_step, downlink_step,
  downlink_run,
}
use sdv_edge_gateway.Gateway.Updates.{all_handled, RunsUpdates, downlink}

-- Turns of the agent, with what each of them finds.
abbrev pub turns : List Answers → List DownAction
turns answers = map updates answers

all_handled-turns :
    (actions : List DownAction) (answers : List Answers)
    → all_handled (actions ++ turns answers) ≡ all_handled actions
all_handled-turns [] [] = refl
all_handled-turns [] (ans ∷ answers) = all_handled-turns [] answers
all_handled-turns (handles m ∷ actions) answers = ap (◌∷◌ m) (all_handled-turns actions answers)
all_handled-turns (updates ans ∷ actions) answers = all_handled-turns actions answers

module _ {J : Type 0} (json : JsonOps J) (uin : String) {C : Type 0} (sha : Sha C) (cfg : Config)
    (writer : CanWriter) (world : World) where
  abbrev waiting_updates : Downlink → ℕ
  waiting_updates d = length d.handler.ota_queue.queue

  outcome_done :
      (ans : Answers) (popped : Option Command) (w : World)
      → IsUnharmed ans
      → (w' : World) × (agent_outcome json uin sha cfg ans popped w ≡ done w')
  outcome_done ans none w safe = (w, refl)
  outcome_done ans (some cmd) w safe = run_command-Returns json sha cfg ans cmd w safe

  agent_step-shorter :
      (ans : Answers) (d : Downlink)
      → IsUnharmed ans
      → HasResult
          (λ d'. (waiting_updates d' + 1 ≤ waiting_updates d) ⊎ (waiting_updates d' ≡ 0))
          (agent_step json uin sha cfg ans d)
  unfolding agent_step
  agent_step-shorter ans d safe =
      let q = d.handler.ota_queue in
      let (w', e) = outcome_done ans (pop_for q).1 d.world safe in
      rw e (length-pop_for q q.queue refl)

  turns-emptied :
      (d : Downlink) (answers : List Answers)
      → All IsUnharmed answers
      → waiting_updates d ≤ length answers
      → HasResult (λ d'. waiting_updates d' ≡ 0) (downlink_run json uin sha cfg d (turns answers))
  unfolding downlink_run downlink_step
  turns-emptied d [] safe h = omega (arith, h)
  turns-emptied d (ans ∷ answers) safe h =
      HasResult-bind _ _ (agent_step json uin sha cfg ans d) _ (agent_step-shorter ans d safe.0)
        (λ d' s. turns-emptied d' answers safe.1 (ground (arith, s, h)))

  downlink_run-append :
      (d : Downlink) (first second : List DownAction)
      → downlink_run json uin sha cfg d (first ++ second)
        ≡ (downlink_run json uin sha cfg d first >>= λ d'. downlink_run json uin sha cfg d' second)
  unfolding downlink_run
  downlink_run-append d [] second = refl
  downlink_run-append d (a ∷ first) second =
      ap (λ k. downlink_step json uin sha cfg d a >>= k)
        (fun_ext λ d'. downlink_run-append d' first second)
      ∙ sym (bind_assoc (downlink_step json uin sha cfg d a) _ _)

  -- The agent got exactly the updates asked for, no update waits, and each is answered.
  pub record IsCompleted (asked : List Command) (d : Downlink) : Type 0 where
    pub got : got_by_agent d.agent_rounds ≡ asked
    pub none_waits : d.handler.ota_queue.queue ≡ []
    pub answered : All (λ (cmd : Command). IsAnswered cmd.correlation_id d.world.reports) asked

  emptied : (queue : List Command) → length queue ≡ 0 → queue ≡ []
  emptied [] e = refl
  emptied (cmd ∷ queue) e = absurd (ground (arith, e))

  RunsUpdates-IsCompleted :
      (asked : List Command) (d : Downlink)
      → RunsUpdates json uin sha cfg writer world asked d
      → waiting_updates d ≡ 0
      → IsCompleted asked d
  RunsUpdates-IsCompleted asked d h e =
      let nothing = emptied d.handler.ota_queue.queue e in
      let got : got_by_agent d.agent_rounds ≡ asked =
        sym (append-nil (got_by_agent d.agent_rounds))
        ∙ ap (◌++◌ (got_by_agent d.agent_rounds)) (sym nothing)
        ∙ h.once in
      let run : AreAnswered (got_by_agent d.agent_rounds) world d.world =
        subst (WhenDone (AreAnswered (got_by_agent d.agent_rounds) world)) h.agent
          (run-AreAnswered json sha cfg world d.agent_rounds) in
      record {
        got = got;
        none_waits = nothing;
        answered =
            subst (All (λ (cmd : Command). IsAnswered cmd.correlation_id d.world.reports)) got
              run.0;
      }

  -- In any state that CommandHandler's thread and OtaAgent's can reach with commands of at most 200
  -- different correlation ids, let no more messages come. Then turns of the agent, as many as updates
  -- wait, in which no call of std::filesystem throws that the code does not catch, and with a broker
  -- whose answers to the publishes end their waits, complete the updates asked for: the agent has got
  -- the updates among the first commands of each correlation id, each once and in order, none waits,
  -- and for each of them a final state was reported under its id.
  pub turns-IsCompleted :
      (actions : List DownAction) (d : Downlink) (answers : List Answers)
      → HasRoom json uin [] (all_handled actions)
      → downlink_run json uin sha cfg (new_downlink writer world) actions ≡ some d
      → All IsUnharmed answers
      → length d.handler.ota_queue.queue ≤ length answers
      → HasResult
          (IsCompleted (Handover.updates (fresh [] (commands json uin (all_handled actions)))))
          (downlink_run json uin sha cfg d (turns answers))
  turns-IsCompleted actions d answers room reached safe enough =
      let asked : List Consumed → List Command =
        λ ms. Handover.updates (fresh [] (commands json uin ms)) in
      let same = all_handled-turns actions answers in
      let runs =
        downlink json uin sha cfg writer world (actions ++ turns answers)
          (subst (HasRoom json uin []) (sym same) room) in
      HasResult-Holds _ _ _ (downlink_run json uin sha cfg d (turns answers))
        (subst (Holds (RunsUpdates json uin sha cfg writer world (asked (all_handled actions))))
          (downlink_run-append (new_downlink writer world) actions (turns answers)
            ∙ ap (λ o. o >>= λ d'. downlink_run json uin sha cfg d' (turns answers)) reached)
          (subst
            (λ ms. Holds (RunsUpdates json uin sha cfg writer world (asked ms)) (
              downlink_run json uin sha cfg (new_downlink writer world) (actions ++ turns answers)))
            same runs))
        (turns-emptied d answers safe enough) (λ d' h e. RunsUpdates-IsCompleted _ d' h e)

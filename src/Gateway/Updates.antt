-- ===== src/Gateway/Updates.antt =====
-- Which updates the OTA agent runs, whatever the interleaving of its thread with the handler's.
use mathlib.Core.Path.{fun_ext}
use sdv_edge_gateway.Common.{
  Holds, Holds-bind, Holds-map, ◌≡◌, refl, sym, subst, ap, ◌∙◌, String, Option, none, some, List,
  [], ◌∷◌, ◌++◌, append-nil, append_assoc,
}
use sdv_edge_gateway.Types.{Command}
use sdv_edge_gateway.Json.{JsonOps}
use sdv_edge_gateway.SafeQueue.{empty, pop_for, delivered?}
use sdv_edge_gateway.SafeQueue.Fifo.{pop_for-rest}
use sdv_edge_gateway.CanWriter.{CanWriter}
use sdv_edge_gateway.CommandHandler as Handler
use sdv_edge_gateway.CommandHandler.{CommandHandler, Consumed, max_seen_ids, consume}
use sdv_edge_gateway.CommandHandler.Dedup.{Effects, effects, fresh, commands, HasRoom, run_once}
use sdv_edge_gateway.CommandHandler.Handover as Handover
use sdv_edge_gateway.CommandHandler.Handover.{behind, consume-behind, perform_all-updates}
use sdv_edge_gateway.OtaAgent as Agent
use sdv_edge_gateway.OtaAgent.{Config, World, Answers, Outcome, done, terminated, and_then}
use sdv_edge_gateway.OtaAgent.Digest.{Sha}
use sdv_edge_gateway.OtaAgent.Answered.{got_by_agent}
use sdv_edge_gateway.Gateway.Downlink.{
  Downlink, DownAction, handles, updates, new_handler, new_downlink, handler_step, agent_outcome,
  updated, agent_step, downlink_step, downlink_run,
}

got_by_agent-snoc :
    (rounds : List (Option Command × Answers)) (popped : Option Command) (ans : Answers)
    → got_by_agent (rounds ++ (popped, ans) ∷ []) ≡ got_by_agent rounds ++ delivered? popped
got_by_agent-snoc [] popped ans = append-nil (delivered? popped)
got_by_agent-snoc ((x, a) ∷ rounds) popped ans =
    ap (◌++◌ (delivered? x)) (got_by_agent-snoc rounds popped ans)
    ∙ sym (append_assoc (delivered? x) (got_by_agent rounds) (delivered? popped))

-- The messages that an interleaving brings to the handler.
abbrev pub handled : DownAction → List Consumed
handled (handles m) = m ∷ []
handled (updates ans) = []

abbrev pub all_handled : List DownAction → List Consumed
all_handled [] = []
all_handled (a ∷ actions) = handled a ++ all_handled actions

-- What the agent takes from the front of the queue, the handler has handed over.
behind-pop :
    (got : List Command) (h : CommandHandler)
    → behind got h
      ≡ behind
          (got ++ delivered? (pop_for h.ota_queue).1)
          (record h { ota_queue = (pop_for h.ota_queue).0 })
behind-pop got h = ap (λ q. record h { ota_queue = q }) (pop_for-rest got h.ota_queue)

module _ {J : Type 0} (json : JsonOps J) (uin : String) {C : Type 0} (sha : Sha C) (cfg : Config)
    (writer : CanWriter) (world : World) where
  -- The handler is in the state that its loop leads to on its own, but for the commands that the
  -- agent got from the front of the queue; and the agent is in the state that its loop leads to on
  -- them.
  pub record IsHandedOver (d : Downlink) : Type 0 where
    pub handler :
        Handler.run json uin (new_handler writer) d.handler_rounds
        ≡ behind (got_by_agent d.agent_rounds) d.handler
    pub agent : Agent.run json sha cfg world d.agent_rounds ≡ done d.world

  handler_run-snoc :
      (h : CommandHandler) (ms : List Consumed) (m : Consumed)
      → Handler.run json uin h (ms ++ m ∷ []) ≡ consume json uin (Handler.run json uin h ms) m
  unfolding Handler.run
  handler_run-snoc h [] m = refl
  handler_run-snoc h (x ∷ ms) m = handler_run-snoc (consume json uin h x) ms m

  and_then-done : (o : Outcome) → and_then o (λ w. done w) ≡ o
  and_then-done (done w) = refl
  and_then-done (terminated w) = refl

  and_then_assoc :
      (o : Outcome) (f g : World → Outcome)
      → and_then o (λ w. and_then (f w) g) ≡ and_then (and_then o f) g
  and_then_assoc (done w) f g = refl
  and_then_assoc (terminated w) f g = refl

  agent_run-snoc :
      (w : World) (rounds : List (Option Command × Answers)) (popped : Option Command)
      (ans : Answers)
      → Agent.run json sha cfg w (rounds ++ (popped, ans) ∷ [])
        ≡ and_then (Agent.run json sha cfg w rounds) (agent_outcome json uin sha cfg ans popped)
  unfolding Agent.run
  agent_run-snoc w [] none ans = refl
  agent_run-snoc w [] (some cmd) ans = and_then-done (Agent.run_command json sha cfg ans cmd w)
  agent_run-snoc w ((none, a) ∷ rounds) popped ans = agent_run-snoc w rounds popped ans
  agent_run-snoc w ((some x, a) ∷ rounds) popped ans =
      ap (and_then (Agent.run_command json sha cfg a x w))
        (fun_ext λ w'. agent_run-snoc w' rounds popped ans)
      ∙ and_then_assoc (Agent.run_command json sha cfg a x w) _ _

  handler_step-IsHandedOver :
      (m : Consumed) (d : Downlink)
      → IsHandedOver d
      → IsHandedOver (handler_step json uin sha cfg m d)
  unfolding handler_step
  handler_step-IsHandedOver m d h = record {
    handler =
        handler_run-snoc (new_handler writer) d.handler_rounds m
        ∙ ap (λ g. consume json uin g m) h.handler
        ∙ consume-behind json uin (got_by_agent d.agent_rounds) d.handler m;
    agent = h.agent;
  }

  updated-IsHandedOver :
      (ans : Answers) (d : Downlink) (o : Outcome)
      → IsHandedOver d
      → agent_outcome json uin sha cfg ans (pop_for d.handler.ota_queue).1 d.world ≡ o
      → Holds IsHandedOver (
          updated json uin sha cfg
            (record d {
              handler = record (d.handler) { ota_queue = (pop_for d.handler.ota_queue).0 };
              agent_rounds = d.agent_rounds ++ ((pop_for d.handler.ota_queue).1, ans) ∷ [];
            })
            o)
  updated-IsHandedOver ans d (terminated w) h e = tt
  updated-IsHandedOver ans d (done w) h e =
      let (q, popped) = pop_for d.handler.ota_queue in
      record {
        handler =
            h.handler
            ∙ behind-pop (got_by_agent d.agent_rounds) d.handler
            ∙ ap (λ got. behind got (record (d.handler) { ota_queue = q }))
                (sym (got_by_agent-snoc d.agent_rounds popped ans));
        agent =
            agent_run-snoc world d.agent_rounds popped ans
            ∙ ap (λ o. and_then o (agent_outcome json uin sha cfg ans popped)) h.agent
            ∙ e;
      }

  -- The same, after the handler has had these messages.
  HasHandled : List Consumed → Downlink → Type 0
  HasHandled ms d = IsHandedOver d × (d.handler_rounds ≡ ms)

  updated-HasHandled :
      (ans : Answers) (ms : List Consumed) (d : Downlink) (o : Outcome)
      → HasHandled ms d
      → agent_outcome json uin sha cfg ans (pop_for d.handler.ota_queue).1 d.world ≡ o
      → Holds (HasHandled (ms ++ [])) (
          updated json uin sha cfg
            (record d {
              handler = record (d.handler) { ota_queue = (pop_for d.handler.ota_queue).0 };
              agent_rounds = d.agent_rounds ++ ((pop_for d.handler.ota_queue).1, ans) ∷ [];
            })
            o)
  unfolding HasHandled
  updated-HasHandled ans ms d (terminated w) h e = tt
  updated-HasHandled ans ms d (done w) h e =
      (updated-IsHandedOver ans d (done w) h.0 e, h.1 ∙ sym (append-nil ms))

  downlink_step-HasHandled :
      (ms : List Consumed) (d : Downlink) (a : DownAction)
      → HasHandled ms d
      → Holds (HasHandled (ms ++ handled a)) (downlink_step json uin sha cfg d a)
  unfolding downlink_step agent_step handler_step HasHandled
  downlink_step-HasHandled ms d (handles m) h =
      (handler_step-IsHandedOver m d h.0, ap (λ l. l ++ m ∷ []) h.1)
  downlink_step-HasHandled ms d (updates ans) h = updated-HasHandled ans ms d _ h refl

  downlink_run-HasHandled :
      (ms : List Consumed) (d : Downlink) (actions : List DownAction)
      → HasHandled ms d
      → Holds (HasHandled (ms ++ all_handled actions)) (downlink_run json uin sha cfg d actions)
  unfolding downlink_run
  downlink_run-HasHandled ms d [] h = subst (λ l. HasHandled l d) (sym (append-nil ms)) h
  downlink_run-HasHandled ms d (a ∷ actions) h =
      subst (λ l. Holds (HasHandled l) (downlink_run json uin sha cfg d (a ∷ actions)))
        (append_assoc ms (handled a) (all_handled actions))
        (Holds-bind (HasHandled (ms ++ handled a)) _ (downlink_step json uin sha cfg d a) _
          (downlink_step-HasHandled ms d a h)
          (λ d' h'. downlink_run-HasHandled (ms ++ handled a) d' actions h'))

  new_downlink-HasHandled : HasHandled [] (new_downlink writer world)
  unfolding new_downlink Handler.run Agent.run HasHandled
  new_downlink-HasHandled = (record { handler = refl; agent = refl }, refl)

  -- These are the updates that the agent gets, now or later, and its state is the one that its loop
  -- leads to on the commands that it got.
  pub record RunsUpdates (asked : List Command) (d : Downlink) : Type 0 where
    pub once : got_by_agent d.agent_rounds ++ d.handler.ota_queue.queue ≡ asked
    pub agent : Agent.run json sha cfg world d.agent_rounds ≡ done d.world

  HasHandled-RunsUpdates :
      (ms : List Consumed) (d : Downlink)
      → HasRoom json uin [] ms
      → HasHandled ms d
      → RunsUpdates (Handover.updates (fresh [] (commands json uin ms))) d
  unfolding new_handler empty HasHandled
  HasHandled-RunsUpdates ms d room (h, e) = record {
    once =
        ap (λ g. g.ota_queue.queue)
          (sym h.handler ∙ ap (Handler.run json uin (new_handler writer)) e)
        ∙ ap (λ (e : Effects). e.ota_queue.queue) (run_once json uin (new_handler writer) ms room)
        ∙ perform_all-updates (effects (new_handler writer)) (fresh [] (commands json uin ms));
    agent = h.agent;
  }

  -- Whatever the interleaving of CommandHandler's thread and OtaAgent's, while the commands that have
  -- come carry at most 200 different correlation ids, and unless an exception has ended the process: the
  -- commands that the agent got, and then those still queued, are the updates among the first
  -- commands of each correlation id, each once and in the order of their arrival; and the agent has
  -- done what its loop does on the commands that it got.
  pub downlink :
      (actions : List DownAction)
      → HasRoom json uin [] (all_handled actions)
      → Holds
          (RunsUpdates (Handover.updates (fresh [] (commands json uin (all_handled actions)))))
          (downlink_run json uin sha cfg (new_downlink writer world) actions)
  downlink actions room =
      Holds-map _ _ _
        (downlink_run-HasHandled [] (new_downlink writer world) actions new_downlink-HasHandled)
        (λ d. HasHandled-RunsUpdates (all_handled actions) d room)

-- ===== src/CommandHandler/Handover.antt =====
-- The OTA queue as the handler's output: what the handler adds to it, whatever is in it.
use sdv_edge_gateway.Common.{
  ◌≡◌, refl, sym, ap, ◌∙◌, String, str_eq, Bool, true, false, Option, none, some, List, [], ◌∷◌,
  ◌++◌, append-nil, append_assoc, if◌then◌else◌,
}
use sdv_edge_gateway.Common.Int.{ℤ}
use sdv_edge_gateway.Types.{
  CommandType, door_lock, door_unlock, engine_start, horn_light, ota_trigger, unknown, Command,
}
use sdv_edge_gateway.Json.{JsonOps}
use sdv_edge_gateway.SafeQueue.{push}
use sdv_edge_gateway.CommandHandler.{
  CommandHandler, Consumed, timeout, null_message, message, diagnosis_topic, parse_command,
  handle_diagnosis, already_seen, dispatch, route, accept, handle_message, consume,
}
use sdv_edge_gateway.CommandHandler.Dedup.{Effects, perform, perform_all}

-- The handler with these commands in front of its OTA queue.
abbrev pub behind : List Command → CommandHandler → CommandHandler
behind got h = record h { ota_queue = record (h.ota_queue) { queue = got ++ h.ota_queue.queue } }

dispatch-behind :
    (got : List Command) (type : CommandType) (n : ℤ) (cmd : Command) (h : CommandHandler)
    → dispatch type n cmd (behind got h) ≡ behind got (dispatch type n cmd h)
unfolding dispatch push
dispatch-behind got door_lock n cmd h = refl
dispatch-behind got door_unlock n cmd h = refl
dispatch-behind got engine_start n cmd h = refl
dispatch-behind got horn_light n cmd h = refl
dispatch-behind got ota_trigger n cmd h =
    ap (λ l. record h { ota_queue = record (h.ota_queue) { queue = l } })
      (append_assoc got h.ota_queue.queue (cmd ∷ []))
dispatch-behind got unknown n cmd h = refl

-- After the guard's answer.
decided :
    (got : List Command) (n : ℤ) (cmd : Command) (dup : Bool) (h : CommandHandler)
    → (if dup then behind got h else route n cmd (behind got h))
      ≡ behind got (if dup then h else route n cmd h)
unfolding route
decided got n cmd true h = refl
decided got n cmd false h = dispatch-behind got cmd.type n cmd h

accept-behind :
    (got : List Command) (n : ℤ) (cmd : Command) (h : CommandHandler)
    → accept n cmd (behind got h) ≡ behind got (accept n cmd h)
unfolding accept
accept-behind got n cmd h =
    decided got n cmd (already_seen cmd.correlation_id h.seen_ids).1
      (record h { seen_ids = (already_seen cmd.correlation_id h.seen_ids).0 })

module _ {J : Type 0} (json : JsonOps J) (uin : String) where
  parsed-behind :
      (got : List Command) (n : ℤ) (o : Option Command) (h : CommandHandler)
      → (elim o as (λ o. CommandHandler) [
        | none ↦ behind got h
        | some cmd ↦ accept n cmd (behind got h)
      ])
        ≡ behind got (elim o as (λ o. CommandHandler) [ none ↦ h | some cmd ↦ accept n cmd h ])
  parsed-behind got n none h = refl
  parsed-behind got n (some cmd) h = accept-behind got n cmd h

  handle_message-behind :
      (got : List Command) (t p : String) (n : ℤ) (h : CommandHandler) (is_diagnosis : Bool)
      → str_eq t (diagnosis_topic uin) ≡ is_diagnosis
      → handle_message json uin t p n (behind got h) ≡ behind got (handle_message json uin t p n h)
  unfolding handle_message handle_diagnosis
  handle_message-behind got t p n h true e = rw e refl
  handle_message-behind got t p n h false e = rw e (parsed-behind got n (parse_command json p) h)

  -- What the handler does with a message does not depend on the commands in front of its queue.
  pub consume-behind :
      (got : List Command) (h : CommandHandler) (m : Consumed)
      → consume json uin (behind got h) m ≡ behind got (consume json uin h m)
  unfolding consume
  consume-behind got h timeout = refl
  consume-behind got h null_message = refl
  consume-behind got h (message t p n) = handle_message-behind got t p n h _ refl

-- The updates among some commands.
abbrev pub one_update : CommandType → Command → List Command
one_update ota_trigger cmd = cmd ∷ []
one_update _ cmd = []

abbrev pub updates : List (ℤ × Command) → List Command
updates [] = []
updates ((n, cmd) ∷ cs) = one_update cmd.type cmd ++ updates cs

dispatch-update :
    (type : CommandType) (n : ℤ) (cmd : Command) (h : CommandHandler)
    → (dispatch type n cmd h).ota_queue.queue ≡ h.ota_queue.queue ++ one_update type cmd
unfolding dispatch push
dispatch-update door_lock n cmd h = sym (append-nil h.ota_queue.queue)
dispatch-update door_unlock n cmd h = sym (append-nil h.ota_queue.queue)
dispatch-update engine_start n cmd h = sym (append-nil h.ota_queue.queue)
dispatch-update horn_light n cmd h = sym (append-nil h.ota_queue.queue)
dispatch-update ota_trigger n cmd h = refl
dispatch-update unknown n cmd h = sym (append-nil h.ota_queue.queue)

pub perform_all-updates :
    (e : Effects) (cs : List (ℤ × Command))
    → (perform_all e cs).ota_queue.queue ≡ e.ota_queue.queue ++ updates cs
unfolding route
perform_all-updates e [] = sym (append-nil e.ota_queue.queue)
perform_all-updates e ((n, cmd) ∷ cs) =
    perform_all-updates (perform e (n, cmd)) cs
    ∙ ap (λ l. l ++ updates cs)
        (dispatch-update cmd.type n cmd (record {
          ota_queue = e.ota_queue;
          can_writer = e.can_writer;
          seen_ids = [];
          diagnoses = [];
        }))
    ∙ append_assoc e.ota_queue.queue (one_update cmd.type cmd) (updates cs)

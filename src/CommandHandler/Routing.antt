-- ===== src/CommandHandler/Routing.antt =====
-- Which executor a command can reach.
use sdv_edge_gateway.Common.{
  ℕ, ◌≤◌, ◌≡◌, ◌⊎◌, inl, inr, refl, sym, subst, Bool-cases, Option-cases, not, ◌||◌, String, some,
  List, [], ◌∷◌, ◌++◌, arith, All,
}
use sdv_edge_gateway.Common.Int.{ℤ}
use sdv_edge_gateway.Types.{CommandType, Command, ota_trigger, unknown}
use sdv_edge_gateway.Json.{JsonOps}
use sdv_edge_gateway.SafeQueue.{push}
use sdv_edge_gateway.CanWriter.{RawFrame, CanWriter, command_can_id, is_some, write, trigger_frame}
use sdv_edge_gateway.CommandHandler.{
  CommandHandler, Consumed, timeout, null_message, message, dispatch, route, accept, consume, run,
}
use sdv_edge_gateway.CommandHandler.Dedup.{
  Effects, message_other, message_cases, handle_message-accept, remembered,
}

-- A frame that the gateway may send: one of its four identifiers, and the execute trigger alone.
pub record IsTrigger (f : RawFrame) : Type 0 where
  pub low : 0x300 ≤ f.can_id
  pub high : f.can_id ≤ 0x303
  pub content : f ≡ trigger_frame f.can_id

pub record IsRouted (h : CommandHandler) : Type 0 where
  pub ota_only : All (λ c. c.type ≡ ota_trigger) h.ota_queue.queue
  pub triggers_only : All IsTrigger h.can_writer.bus

All-append {ℓ κ} :
    {A : Type ℓ} (P : A → Type κ) (xs ys : List A) → All P xs → All P ys → All P (xs ++ ys)
All-append P [] ys p q = q
All-append P (x ∷ xs) ys p q = (p.0, All-append P xs ys p.1 q)

trigger_frame-IsTrigger :
    (type : CommandType) (id : ℕ) → command_can_id type ≡ some id → IsTrigger (trigger_frame id)
unfolding command_can_id
trigger_frame-IsTrigger type id e = ground arith

write_cases :
    (w : CanWriter) (n : ℤ) (type : CommandType) (payload : String)
    → ((write w n type payload).0 ≡ w)
      ⊎ ((id : ℕ) × (command_can_id type ≡ some id)
          × ((write w n type payload).0.bus ≡ w.bus ++ trigger_frame id ∷ []))
unfolding write
write_cases w n type payload = elim (Option-cases (command_can_id type)) [
  | inl e ↦ inl (ground arith)
  | inr (id, e) ↦ elim (Bool-cases (not w.is_open || not (is_some w.socket_fd))) [
    | inl p ↦ inl (rw p)
    | inr p ↦ inr (id, e, rw (p, e))
  ]
]

write-triggers :
    (w : CanWriter) (n : ℤ) (type : CommandType) (payload : String)
    → All IsTrigger w.bus
    → All IsTrigger (write w n type payload).0.bus
write-triggers w n type payload t = elim (write_cases w n type payload) [
  | inl e ↦ rw e t
  | inr (id, e, b) ↦
      rw b (
        All-append IsTrigger w.bus (trigger_frame id ∷ []) t
          (trigger_frame-IsTrigger type id e, tt))
]

dispatch-IsRouted :
    (type : CommandType) (n : ℤ) (cmd : Command) (h : CommandHandler)
    → cmd.type ≡ type
    → IsRouted h
    → IsRouted (dispatch type n cmd h)
unfolding dispatch push
dispatch-IsRouted ota_trigger n cmd h e r = record {
  ota_only = All-append (λ c. c.type ≡ ota_trigger) h.ota_queue.queue (cmd ∷ []) r.ota_only (e, tt);
  triggers_only = r.triggers_only;
}
dispatch-IsRouted unknown n cmd h e r = r
dispatch-IsRouted type n cmd h e r = record {
  ota_only = r.ota_only;
  triggers_only = write-triggers h.can_writer n type cmd.payload_json r.triggers_only;
}

route-IsRouted :
    (n : ℤ) (cmd : Command) (h : CommandHandler) → IsRouted h → IsRouted (route n cmd h)
unfolding route
route-IsRouted n cmd h r = dispatch-IsRouted cmd.type n cmd h refl r

accept-IsRouted :
    (n : ℤ) (cmd : Command) (h : CommandHandler) → IsRouted h → IsRouted (accept n cmd h)
unfolding accept
accept-IsRouted n cmd h r = ground (
  arith,
  route-IsRouted n cmd (record h { seen_ids = remembered cmd.correlation_id h.seen_ids })
      (record { ota_only = r.ota_only; triggers_only = r.triggers_only }),
)

module _ {J : Type 0} (json : JsonOps J) (uin : String) where
  consume-IsRouted :
      (h : CommandHandler) (m : Consumed) → IsRouted h → IsRouted (consume json uin h m)
  unfolding consume
  consume-IsRouted h timeout r = r
  consume-IsRouted h null_message r = r
  consume-IsRouted h (message t p n) r = elim (message_cases json uin t p) [
    | inl e ↦
        let kept = (message_other json uin h t p n e).0 in
        record {
          ota_only =
              subst (λ (e : Effects). All (λ c. c.type ≡ ota_trigger) e.ota_queue.queue) (sym kept)
                r.ota_only;
          triggers_only =
              subst (λ (e : Effects). All IsTrigger e.can_writer.bus) (sym kept) r.triggers_only;
        }
    | inr (c, e, q) ↦ rw (handle_message-accept json uin h t p n c e q) (accept-IsRouted n c h r)
  ]

  -- If it is so at the start: whatever messages arrive, nothing but commands of type OTA_TRIGGER is
  -- queued for the OTA agent, and nothing but trigger frames under the four command identifiers is
  -- on the bus.
  pub run-IsRouted :
      (h : CommandHandler) (ms : List Consumed) → IsRouted h → IsRouted (run json uin h ms)
  unfolding run
  run-IsRouted h [] r = r
  run-IsRouted h (m ∷ ms) r = run-IsRouted (consume json uin h m) ms (consume-IsRouted h m r)

-- ===== src/CommandHandler/Dedup.antt =====
-- The guard against redelivery: already_seen, and what it makes of a run.
use sdv_edge_gateway.Common.{
  ◌+◌, ◌≤◌, ◌≡◌, ◌⊎◌, inl, inr, refl, sym, subst, ap, ap₂, ◌∙◌, String, str_eq, eq_refl, true,
  false, none, some, List, [], ◌∷◌, arith, leb, length, if◌then◌else◌, Bool-cases, Option-cases,
}
use sdv_edge_gateway.Common.Int.{ℤ}
use sdv_edge_gateway.Types.{Command}
use sdv_edge_gateway.Json.{JsonOps}
use sdv_edge_gateway.SafeQueue.{SafeQueue}
use sdv_edge_gateway.CanWriter.{CanWriter}
use sdv_edge_gateway.CommandHandler.{
  CommandHandler, Consumed, timeout, null_message, message, max_seen_ids, diagnosis_topic,
  parse_command, handle_diagnosis, contains, route, accept, handle_message, consume, run,
}

pub route-seen_ids :
    (n : ℤ) (cmd : Command) (h : CommandHandler) → (route n cmd h).seen_ids ≡ h.seen_ids
unfolding route
route-seen_ids n cmd h = ground arith

-- After a command its identifier is in the set.
accept-contains :
    (n : ℤ) (cmd : Command) (h : CommandHandler)
    → contains cmd.correlation_id (accept n cmd h).seen_ids ≡ true
unfolding accept contains
accept-contains n cmd h = ground (arith, route-seen_ids n cmd, eq_refl cmd.correlation_id)

accept_seen :
    (n : ℤ) (cmd : Command) (h : CommandHandler)
    → contains cmd.correlation_id h.seen_ids ≡ true
    → accept n cmd h ≡ h
unfolding accept
accept_seen n cmd h e = rw e

-- The set after a command that is new: cleared first if it is full.
abbrev pub remembered : String → List String → List String
remembered id seen = id ∷ (if leb max_seen_ids (length seen) then [] else seen)

-- The part of the state that acts on the vehicle.
abbrev pub Effects : Type 0
Effects = record { ota_queue : SafeQueue Command; can_writer : CanWriter }

abbrev pub effects : CommandHandler → Effects
effects h = record { ota_queue = h.ota_queue; can_writer = h.can_writer }

-- Executing one command, whatever was executed before.
abbrev pub perform : Effects → ℤ × Command → Effects
perform e (n, cmd) = effects (
    route n cmd (record {
      ota_queue = e.ota_queue;
      can_writer = e.can_writer;
      seen_ids = [];
      diagnoses = [];
    }))

abbrev pub perform_all : Effects → List (ℤ × Command) → Effects
perform_all e [] = e
perform_all e (c ∷ cs) = perform_all (perform e c) cs

-- The specification: of several commands with one identifier the first is executed, and none of
-- those whose identifier is in `seen`.
abbrev pub fresh : List String → List (ℤ × Command) → List (ℤ × Command)
fresh seen [] = []
fresh seen ((n, cmd) ∷ cs) =
    let rest = fresh (cmd.correlation_id ∷ seen) cs in
    if contains cmd.correlation_id seen then fresh seen cs else (n, cmd) ∷ rest

pub route-effects :
    (n : ℤ) (cmd : Command) (h : CommandHandler)
    → effects (route n cmd h) ≡ perform (effects h) (n, cmd)
unfolding route
route-effects n cmd h = ground arith

-- One command, redelivered or while the set is not full.
accept_cases :
    (h : CommandHandler) (n : ℤ) (c : Command)
    → (contains c.correlation_id h.seen_ids ≡ true) ⊎ (length h.seen_ids + 1 ≤ max_seen_ids)
    → (effects (accept n c h)
        ≡ (if contains c.correlation_id h.seen_ids then effects h else perform (effects h) (n, c)))
      × ((accept n c h).seen_ids ≡ (
          if contains c.correlation_id h.seen_ids
          then h.seen_ids
          else c.correlation_id ∷ h.seen_ids))
unfolding accept
accept_cases h n c room = ground (
  arith,
  route-effects n c (record h { seen_ids = remembered c.correlation_id h.seen_ids }),
  route-seen_ids n c (record h { seen_ids = remembered c.correlation_id h.seen_ids }),
)

module _ {J : Type 0} (json : JsonOps J) (uin : String) where
  -- The commands that a list of rounds carries, in order.
  abbrev pub commands : List Consumed → List (ℤ × Command)
  commands [] = []
  commands (timeout ∷ ms) = commands ms
  commands (null_message ∷ ms) = commands ms
  commands (message t payload n ∷ ms) =
      if str_eq t (diagnosis_topic uin) then commands ms else elim (parse_command json payload) [
        | none ↦ commands ms
        | some cmd ↦ (n, cmd) ∷ commands ms
      ]

  pub handle_message-accept :
      (h : CommandHandler) (t p : String) (n : ℤ) (c : Command)
      → str_eq t (diagnosis_topic uin) ≡ false
      → parse_command json p ≡ some c
      → handle_message json uin t p n h ≡ accept n c h
  unfolding handle_message
  handle_message-accept h t p n c e q = rw (e, q)

  -- After a command was handled, a second one with the same identifier changes nothing at all,
  -- whatever its type and its content; also when the identifier is the empty one of commands that
  -- have none. (Both come on another topic than the one of diagnoses.)
  same_id_ignored :
      (h : CommandHandler) (t₁ p₁ t₂ p₂ : String) (n₁ n₂ : ℤ) (c₁ c₂ : Command)
      → str_eq t₁ (diagnosis_topic uin) ≡ false
      → str_eq t₂ (diagnosis_topic uin) ≡ false
      → parse_command json p₁ ≡ some c₁
      → parse_command json p₂ ≡ some c₂
      → c₂.correlation_id ≡ c₁.correlation_id
      → let h' = handle_message json uin t₁ p₁ n₁ h in handle_message json uin t₂ p₂ n₂ h' ≡ h'
  same_id_ignored h t₁ p₁ t₂ p₂ n₁ n₂ c₁ c₂ e₁ e₂ q₁ q₂ same =
      rw (handle_message-accept h t₁ p₁ n₁ c₁ e₁ q₁) (
        rw (handle_message-accept (accept n₁ c₁ h) t₂ p₂ n₂ c₂ e₂ q₂)
          (accept_seen n₂ c₂ (accept n₁ c₁ h) (rw same (accept-contains n₁ c₁ h))))

  commands_nil :
      (t p : String) (n : ℤ) (ms : List Consumed)
      → (str_eq t (diagnosis_topic uin) ≡ true) ⊎ (parse_command json p ≡ none)
      → commands (message t p n ∷ ms) ≡ commands ms
  commands_nil t p n ms e = ground arith

  commands-cons :
      (t p : String) (n : ℤ) (ms : List Consumed) (c : Command)
      → str_eq t (diagnosis_topic uin) ≡ false
      → parse_command json p ≡ some c
      → commands (message t p n ∷ ms) ≡ (n, c) ∷ commands ms
  commands-cons t p n ms c e q = ground arith

  -- What a round that carries no command leaves alone.
  pub message_other :
      (h : CommandHandler) (t p : String) (n : ℤ)
      → (str_eq t (diagnosis_topic uin) ≡ true) ⊎ (parse_command json p ≡ none)
      → (effects (handle_message json uin t p n h) ≡ effects h)
        × ((handle_message json uin t p n h).seen_ids ≡ h.seen_ids)
  unfolding handle_message handle_diagnosis
  message_other h t p n e = ground arith

  pub message_cases :
      (t p : String)
      → ((str_eq t (diagnosis_topic uin) ≡ true) ⊎ (parse_command json p ≡ none))
        ⊎ ((c : Command) × (str_eq t (diagnosis_topic uin) ≡ false)
            × (parse_command json p ≡ some c))
  message_cases t p = elim (Bool-cases (str_eq t (diagnosis_topic uin))) [
    | inl e ↦ inl (inl e)
    | inr e ↦ elim (Option-cases (parse_command json p)) [
      | inl q ↦ inl (inr q)
      | inr (c, q) ↦ inr (c, e, q)
    ]
  ]

  -- The set stays within its cap: with each new identifier among the commands, it holds at most 200.
  abbrev pub HasRoom : List String → List Consumed → Type 0
  HasRoom seen ms = length seen + length (fresh seen (commands ms)) ≤ max_seen_ids

  -- One command that the guard has let through or not, and the room that is left.
  accept_once :
      (h : CommandHandler) (n : ℤ) (c : Command) (cs : List (ℤ × Command))
      → length h.seen_ids + length (fresh h.seen_ids ((n, c) ∷ cs)) ≤ max_seen_ids
      → let h' = accept n c h in
        (length h'.seen_ids + length (fresh h'.seen_ids cs) ≤ max_seen_ids)
        × (perform_all (effects h') (fresh h'.seen_ids cs)
            ≡ perform_all (effects h) (fresh h.seen_ids ((n, c) ∷ cs)))
  accept_once h n c cs room = elim (Bool-cases (contains c.correlation_id h.seen_ids)) [
    | inl seen ↦ ground (arith, seen, room, accept_cases h n c (inl seen))
    | inr new ↦
        let one : length h.seen_ids + 1 ≤ max_seen_ids = omega (arith, rw new at room) in
        ground (arith, new, room, accept_cases h n c (inr one))
  ]

  -- That a handler executes the first command of each identifier that is not held.
  abbrev ExecutesOnce : CommandHandler → List Consumed → Type 0
  ExecutesOnce h ms =
      HasRoom h.seen_ids ms
      → effects (run json uin h ms) ≡ perform_all (effects h) (fresh h.seen_ids (commands ms))

  run_once_other :
      (h : CommandHandler) (t p : String) (n : ℤ) (ms : List Consumed)
      → (str_eq t (diagnosis_topic uin) ≡ true) ⊎ (parse_command json p ≡ none)
      → ExecutesOnce (handle_message json uin t p n h) ms
      → ExecutesOnce h (message t p n ∷ ms)
  unfolding run consume
  run_once_other h t p n ms e rest room =
      let (same, seen) = message_other h t p n e in
      let nil = commands_nil t p n ms e in
      let fits : List String → List (ℤ × Command) → Type 0 =
        λ s cs. length s + length (fresh s cs) ≤ max_seen_ids in
      rest
        (subst (λ s. fits s (commands ms)) (sym seen) (subst (λ cs. fits h.seen_ids cs) nil room))
      ∙ ap₂ (λ e s. perform_all e (fresh s (commands ms))) same seen
      ∙ ap (λ cs. perform_all (effects h) (fresh h.seen_ids cs)) (sym nil)

  run_once_command :
      (h : CommandHandler) (t p : String) (n : ℤ) (c : Command) (ms : List Consumed)
      → str_eq t (diagnosis_topic uin) ≡ false
      → parse_command json p ≡ some c
      → ExecutesOnce (accept n c h) ms
      → ExecutesOnce h (message t p n ∷ ms)
  unfolding run consume
  run_once_command h t p n c ms e q rest room =
      let cons = commands-cons t p n ms c e q in
      let (fits, once) =
        accept_once h n c (commands ms) (
          subst (λ cs. length h.seen_ids + length (fresh h.seen_ids cs) ≤ max_seen_ids) cons
            room) in
      ap (λ g. effects (run json uin g ms)) (handle_message-accept h t p n c e q)
      ∙ rest fits
      ∙ once
      ∙ ap (λ cs. perform_all (effects h) (fresh h.seen_ids cs)) (sym cons)

  -- While at most 200 identifiers are held, counting each new one among the commands once and
  -- nothing else, the OTA queue and the writer are what executing the first command of each
  -- identifier that is not held makes of them, in the order of arrival; redeliveries, however many,
  -- and rounds that bring no command do not touch them.
  pub run_once :
      (h : CommandHandler) (ms : List Consumed)
      → HasRoom h.seen_ids ms
      → effects (run json uin h ms) ≡ perform_all (effects h) (fresh h.seen_ids (commands ms))
  unfolding run consume
  run_once h [] room = refl
  run_once h (timeout ∷ ms) room = run_once h ms room
  run_once h (null_message ∷ ms) room = run_once h ms room
  run_once h (message t p n ∷ ms) room = elim (message_cases t p) [
    | inl e ↦ run_once_other h t p n ms e (run_once (handle_message json uin t p n h) ms) room
    | inr (c, e, q) ↦ run_once_command h t p n c ms e q (run_once (accept n c h) ms) room
  ]

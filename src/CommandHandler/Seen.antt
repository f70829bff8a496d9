-- ===== src/CommandHandler/Seen.antt =====
-- The set of identifiers over a whole session: its bound, and what its cap gives up.
use sdv_edge_gateway.Common.{
  ◌≤◌, ◌≡◌, inl, inr, String, str_eq, false, List, [], ◌∷◌, arith, length,
}
use sdv_edge_gateway.Common.Int.{ℤ}
use sdv_edge_gateway.Types.{Command}
use sdv_edge_gateway.Json.{JsonOps}
use sdv_edge_gateway.CommandHandler.{
  CommandHandler, Consumed, timeout, null_message, message, max_seen_ids, contains, already_seen,
  accept, consume, run,
}
use sdv_edge_gateway.CommandHandler.Dedup.{
  route-seen_ids, remembered, message_other, message_cases, handle_message-accept,
}

-- No identifier is held twice.
abbrev pub AreDistinct : List String → Type 0
AreDistinct [] = Unit {0}
AreDistinct (x ∷ xs) = (contains x xs ≡ false) × AreDistinct xs

pub record IsBounded (seen : List String) : Type 0 where
  pub bounded : length seen ≤ max_seen_ids
  pub distinct : AreDistinct seen

already_seen-IsBounded :
    (id : String) (seen : List String) → IsBounded seen → IsBounded (already_seen id seen).0
unfolding already_seen contains
already_seen-IsBounded id seen b = ground arith

accept-IsBounded :
    (n : ℤ) (c : Command) (h : CommandHandler)
    → IsBounded h.seen_ids
    → IsBounded (accept n c h).seen_ids
unfolding accept
accept-IsBounded n c h b = ground (
  arith,
  already_seen-IsBounded c.correlation_id h.seen_ids b,
  route-seen_ids n c (record h { seen_ids = remembered c.correlation_id h.seen_ids }),
)

-- When the set is full, a new identifier makes the guard forget all the others: any other
-- identifier is then taken for new.
forgets_when_full :
    (seen : List String) (y x : String)
    → max_seen_ids ≤ length seen
    → contains y seen ≡ false
    → str_eq y x ≡ false
    → (already_seen x (already_seen y seen).0).1 ≡ false
unfolding already_seen contains
forgets_when_full seen y x full new other = ground arith

module _ {J : Type 0} (json : JsonOps J) (uin : String) where
  consume-IsBounded :
      (h : CommandHandler) (m : Consumed)
      → IsBounded h.seen_ids
      → IsBounded (consume json uin h m).seen_ids
  unfolding consume
  consume-IsBounded h timeout b = b
  consume-IsBounded h null_message b = b
  consume-IsBounded h (message t p n) b = elim (message_cases json uin t p) [
    | inl e ↦ rw (message_other json uin h t p n e).1 b
    | inr (c, e, q) ↦ rw (handle_message-accept json uin h t p n c e q) (accept-IsBounded n c h b)
  ]

  -- A set of at most 200 identifiers, none of them twice, stays one whatever arrives.
  pub run-IsBounded :
      (h : CommandHandler) (ms : List Consumed)
      → IsBounded h.seen_ids
      → IsBounded (run json uin h ms).seen_ids
  unfolding run
  run-IsBounded h [] b = b
  run-IsBounded h (m ∷ ms) b = run-IsBounded (consume json uin h m) ms (consume-IsBounded h m b)

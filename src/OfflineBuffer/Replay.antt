-- ===== src/OfflineBuffer/Replay.antt =====
-- What `drain` gives of the pending rows, and what `mark_sent` takes from them.
use sdv_edge_gateway.Common.{
  ℕ, ◌≡◌, ◌⊎◌, inl, inr, refl, ap, ◌∙◌, true, false, none, some, List, [], ◌∷◌, map, take, zero,
  suc, arith, All, ◌==◌, if◌then◌else◌,
}
use sdv_edge_gateway.Common.Double.{DoubleOps}
use sdv_edge_gateway.Types.{TelemetryMsg}
use sdv_edge_gateway.OfflineBuffer.{RapidJson, to_json, from_json, drain_rows}
use sdv_edge_gateway.OfflineBuffer.Roundtrip.{
  IsJson, IsFiniteMsg, replayed, stored, drain_rows-stored,
}
use sdv_edge_gateway.OfflineBuffer.Database.{
  Sqlite, select_sql, update_sql, OfflineBuffer, drain, mark_sent,
}
use sdv_edge_gateway.OfflineBuffer.Capacity.{
  Row, pending, selected, mark, waiting, IsTable, pending_of,
}

module _ {T : Type 0} where
  -- The rows of other ids.
  abbrev pub others : ℕ → List (Row T) → List (Row T)
  others id [] = []
  others id (r ∷ rs) = let rest = others id rs in if r.id == id then rest else r ∷ rest

  pending-mark : (id : ℕ) (rs : List (Row T)) → pending (map (mark id) rs) ≡ others id (pending rs)
  pending-mark id [] = refl
  pending-mark id (r ∷ rs) = ground (arith, pending-mark id rs)

module _ {D W T Doc : Type 0} (double : DoubleOps W) (json : RapidJson W T Doc) (sql : Sqlite D T)
    (rows : D → List (Row T)) (table : IsTable sql rows) where
  drain-selected :
      (b : OfflineBuffer D) (d : D) (limit : ℕ)
      → b.db ≡ some d
      → sql.prepares d select_sql ≡ true
      → drain double json sql b limit
        ≡ drain_rows double json (map selected (take limit (pending (rows d))))
  unfolding drain
  drain-selected b d limit e h = rw (e, h) (ap (drain_rows double json) (table.selects d limit))

  -- None of the rows holds a payload that `from_json` reads.
  abbrev pub AreUnreadable : List (Row T) → Type 0
  AreUnreadable rs = All (λ (r : Row T). from_json double json true r.content ≡ none) rs

  unreadable_rows :
      (n : ℕ) (rs : List (Row T))
      → AreUnreadable (take n rs)
      → drain_rows double json (map selected (take n rs)) ≡ []
  unfolding drain_rows
  unreadable_rows zero rs h = refl
  unreadable_rows (suc n) [] h = refl
  unreadable_rows (suc n) (r ∷ rs) h = rw h.0 (unreadable_rows n rs h.1)

  -- When the oldest pending rows, as many as the limit, hold payloads that cannot be read, `drain`
  -- gives nothing, however many readable messages wait behind them.
  drain-unreadable :
      (b : OfflineBuffer D) (d : D) (limit : ℕ)
      → b.db ≡ some d
      → sql.prepares d select_sql ≡ true
      → AreUnreadable (take limit (pending (rows d)))
      → drain double json sql b limit ≡ []
  drain-unreadable b d limit e h bad =
      drain-selected b d limit e h ∙ unreadable_rows limit (pending (rows d)) bad

  -- On an open database whose update can be prepared, `mark_sent` that returns true takes exactly
  -- the row of the id from the pending ones, and one that returns false takes none.
  pub mark_sent-pending :
      (b : OfflineBuffer D) (d : D) (id : ℕ)
      → b.db ≡ some d
      → sql.prepares d update_sql ≡ true
      → let (b', ok) = mark_sent double json sql b id in
        ((ok ≡ true) × (pending_of double json sql rows table b' ≡ others id (pending (rows d))))
        ⊎ ((ok ≡ false) × (pending_of double json sql rows table b' ≡ pending (rows d)))
  unfolding mark_sent
  mark_sent-pending b d id e h = elim (table.updates d id) [
    | inl (done, p) ↦ rw (e, h) (inl (done, ap pending p ∙ pending-mark id (rows d)))
    | inr (fails, p) ↦ rw (e, h) (inr (fails, ap pending p))
  ]

module _ {D W T Doc : Type 0} (double : DoubleOps W) (json : RapidJson W T Doc)
    (IsFinite : W → Type 0) (reread : W → W) (is_json : IsJson json IsFinite reread)
    (sql : Sqlite D T) (rows : D → List (Row T)) (table : IsTable sql rows) where
  -- The rows that wait with these messages.
  abbrev pub rows_of : List (ℕ × TelemetryMsg W) → List (Row T)
  rows_of msgs = map (λ (m : ℕ × TelemetryMsg W). waiting m.0 (to_json double json m.1)) msgs

  selected-rows_of :
      (n : ℕ) (msgs : List (ℕ × TelemetryMsg W))
      → map selected (take n (rows_of msgs))
        ≡ stored double json IsFinite reread is_json (take n msgs)
  selected-rows_of zero msgs = refl
  selected-rows_of (suc n) [] = refl
  selected-rows_of (suc n) (m ∷ msgs) =
      ap (◌∷◌ (m.0, some (to_json double json m.1))) (selected-rows_of n msgs)

  All-take :
      (P : ℕ × TelemetryMsg W → Type 0) (n : ℕ) (msgs : List (ℕ × TelemetryMsg W))
      → All P msgs
      → All P (take n msgs)
  All-take P zero msgs h = tt
  All-take P (suc n) [] h = tt
  All-take P (suc n) (m ∷ msgs) h = (h.0, All-take P n msgs h.1)

  -- When the pending rows of an open database hold messages with finite numbers, and the statement
  -- can be prepared, `drain` gives the oldest of them up to the limit, in their order and under
  -- their ids: marked as replayed, with the numbers as the parser reads them, the texts up to the
  -- first NUL, and the times cut to the millisecond.
  pub drain-replays :
      (b : OfflineBuffer D) (d : D) (limit : ℕ) (msgs : List (ℕ × TelemetryMsg W))
      → b.db ≡ some d
      → sql.prepares d select_sql ≡ true
      → pending (rows d) ≡ rows_of msgs
      → All (λ (m : ℕ × TelemetryMsg W). IsFiniteMsg double json IsFinite reread is_json m.1) msgs
      → drain double json sql b limit
        ≡ map
            (λ (m : ℕ × TelemetryMsg W). (m.0, replayed double json IsFinite reread is_json m.1))
            (take limit msgs)
  drain-replays b d limit msgs e h p finite =
      drain-selected double json sql rows table b d limit e h
      ∙ ap (λ (rs : List (Row T)). drain_rows double json (map selected (take limit rs))) p
      ∙ ap (drain_rows double json) (selected-rows_of limit msgs)
      ∙ drain_rows-stored double json IsFinite reread is_json (take limit msgs)
          (All-take _ limit msgs finite)

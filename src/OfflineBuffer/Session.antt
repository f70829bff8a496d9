-- ===== src/OfflineBuffer/Session.antt =====
-- A session of the buffer against a bounded queue.
use sdv_edge_gateway.Common.{
  ℕ, ◌≡◌, ◌⊎◌, inl, inr, refl, sym, Bool, true, false, Option, none, some, List, [], ◌∷◌, ◌++◌,
  arith, Bool-cases,
}
use sdv_edge_gateway.Common.Double.{DoubleOps}
use sdv_edge_gateway.Types.{TelemetryMsg}
use sdv_edge_gateway.OfflineBuffer.{RapidJson, to_json}
use sdv_edge_gateway.OfflineBuffer.Database.{
  Sqlite, OfflineBuffer, count_sql, delete_sql, update_sql, store, mark_sent,
}
use sdv_edge_gateway.OfflineBuffer.Capacity.{Row, waiting, IsTable, pending_of, room, store-keeps}
use sdv_edge_gateway.OfflineBuffer.Replay.{others, mark_sent-pending}

-- The calls of a session; a `drain` only reads.
pub data Op (W : Type 0) : Type 0 where
  stores : TelemetryMsg W → Op W
  drains : ℕ → Op W
  marks : ℕ → Op W

module _ {D W T Doc : Type 0} (double : DoubleOps W) (json : RapidJson W T Doc)
    (sql : Sqlite D T) where
  -- A call, with its result; `drain` is const and gives no result that tells of success.
  unfoldable pub call : OfflineBuffer D → Op W → OfflineBuffer D × Bool
  call b (stores msg) = store double json sql b msg
  call b (drains limit) = (b, true)
  call b (marks id) = mark_sent double json sql b id

  unfoldable pub session : OfflineBuffer D → List (Op W) → OfflineBuffer D × List Bool
  session b [] = (b, [])
  session b (op ∷ ops) =
      let (b', ok) = call b op in let (b'', oks) = session b' ops in (b'', ok ∷ oks)

module _ {D W T Doc : Type 0} (double : DoubleOps W) (json : RapidJson W T Doc) (sql : Sqlite D T)
    (rows : D → List (Row T)) (table : IsTable sql rows) where
  abbrev pub waits : OfflineBuffer D → List (Row T)
  waits = pending_of double json sql rows table

  -- The rows that stay when a message comes: all, or all but the oldest when there are `max_rows`.
  abbrev kept : ℕ → List (Row T) → List (Row T)
  kept = room double json sql rows table

  -- The specification, a bounded queue: how the waiting rows go on over calls with these results. The
  -- last argument is what waits afterwards.
  pub data Follows (max_rows : ℕ)
      : List (Row T) → List (Op W) → List Bool → List (Row T) → Type 0 where
    no_more : {ps : List (Row T)} → Follows max_rows ps [] [] ps
    a_store :
        {ps qs : List (Row T)} {ops : List (Op W)} {oks : List Bool} (msg : TelemetryMsg W) (id : ℕ)
        → Follows max_rows
            (kept max_rows ps ++ waiting id (to_json double json msg) ∷ [])
            ops
            oks
            qs
        → Follows max_rows ps (stores msg ∷ ops) (true ∷ oks) qs
    no_store :
        {ps qs : List (Row T)} {ops : List (Op W)} {oks : List Bool} (msg : TelemetryMsg W)
        → Follows max_rows (kept max_rows ps) ops oks qs
        → Follows max_rows ps (stores msg ∷ ops) (false ∷ oks) qs
    a_drain :
        {ps qs : List (Row T)} {ops : List (Op W)} {oks : List Bool} (limit : ℕ)
        → Follows max_rows ps ops oks qs
        → Follows max_rows ps (drains limit ∷ ops) (true ∷ oks) qs
    a_mark :
        {ps qs : List (Row T)} {ops : List (Op W)} {oks : List Bool} (id : ℕ)
        → Follows max_rows (others id ps) ops oks qs
        → Follows max_rows ps (marks id ∷ ops) (true ∷ oks) qs
    no_mark :
        {ps qs : List (Row T)} {ops : List (Op W)} {oks : List Bool} (id : ℕ)
        → Follows max_rows ps ops oks qs
        → Follows max_rows ps (marks id ∷ ops) (false ∷ oks) qs

  -- How a call leaves the waiting rows.
  abbrev Adds : TelemetryMsg W → OfflineBuffer D → OfflineBuffer D × Bool → Type 0
  Adds msg b (b', ok) =
      (((ok ≡ true)
          × (id : ℕ) × (waits b'
              ≡ kept b.max_rows (waits b) ++ waiting id (to_json double json msg) ∷ []))
        ⊎ ((ok ≡ false) × (waits b' ≡ kept b.max_rows (waits b))))
      × (b'.max_rows ≡ b.max_rows)

  kept-nil : (max_rows : ℕ) → [] ≡ kept max_rows []
  kept-nil max_rows = ground arith

  store-max_rows :
      (b : OfflineBuffer D) (o : Option D) (msg : TelemetryMsg W)
      → b.db ≡ o
      → (store double json sql b msg).0.max_rows ≡ b.max_rows
  unfolding store
  store-max_rows b none msg e = rw e refl
  store-max_rows b (some d) msg e = rw e refl

  module _ (counted : (d : D) → sql.prepares d count_sql ≡ true)
      (deleted : (d : D) → (sql.exec d delete_sql).1 ≡ true) where
    store-Adds :
        (b : OfflineBuffer D) (o : Option D) (msg : TelemetryMsg W)
        → b.db ≡ o
        → Adds msg b (store double json sql b msg)
    unfolding store
    store-Adds b none msg e = rw e (inr (refl, kept-nil b.max_rows), refl)
    store-Adds b (some d) msg e = (
      rw e (rw e at (store-keeps double json sql rows table b d msg e (counted d) (deleted d))),
      store-max_rows b (some d) msg e,
    )

  -- How a mark does.
  abbrev Takes : ℕ → OfflineBuffer D → OfflineBuffer D × Bool → Type 0
  Takes id b (b', ok) =
      (((ok ≡ true) × (waits b' ≡ others id (waits b))) ⊎ ((ok ≡ false) × (waits b' ≡ waits b)))
      × (b'.max_rows ≡ b.max_rows)

  mark_sent-Takes :
      (b : OfflineBuffer D) (o : Option D) (id : ℕ)
      → b.db ≡ o
      → Takes id b (mark_sent double json sql b id)
  unfolding mark_sent
  mark_sent-Takes b none id e = rw e (inr (refl, refl), refl)
  mark_sent-Takes b (some d) id e = elim (Bool-cases (sql.prepares d update_sql)) [
    | inl ok ↦
        rw (e, ok) (rw (e, ok) at (mark_sent-pending double json sql rows table b d id e ok), refl)
    | inr bad ↦ rw (e, bad) (inr (refl, refl), refl)
  ]

  -- What a session leaves.
  abbrev pub Leaves : ℕ → List (Op W) → List (Row T) → OfflineBuffer D × List Bool → Type 0
  Leaves max_rows ops ps (b', oks) = Follows max_rows ps ops oks (waits b')

  -- The rest of a session, from a buffer whose rows and capacity are known.
  rest-Leaves :
      (ops : List (Op W)) (n m : ℕ) (ps qs : List (Row T)) (r : OfflineBuffer D × List Bool)
      → n ≡ m
      → ps ≡ qs
      → Leaves n ops ps r
      → Leaves m ops qs r
  rest-Leaves ops n m ps qs r en e h = rw (sym en, sym e) h

  -- A session of calls on an open or closed buffer, of any number of messages, when each count can be
  -- prepared and each DELETE succeeds: a `store` drops the oldest waiting message if `max_rows` of them
  -- wait, and puts its message last if it returns true; a `mark_sent` that returns true takes away the
  -- row of its id; all else changes nothing, so what waits afterwards is what a bounded queue holds.
  pub session-Leaves :
      ((d : D) → sql.prepares d count_sql ≡ true)
      → ((d : D) → (sql.exec d delete_sql).1 ≡ true)
      → (b : OfflineBuffer D) (ops : List (Op W))
      → Leaves b.max_rows ops (waits b) (session double json sql b ops)
  unfolding session call
  session-Leaves counted deleted b [] = no_more
  session-Leaves counted deleted b (drains limit ∷ ops) =
      a_drain limit (session-Leaves counted deleted b ops)
  session-Leaves counted deleted b (stores msg ∷ ops) =
      let (b', ok) = store double json sql b msg in
      let (called, m) = store-Adds counted deleted b b.db msg refl in
      let rest = session-Leaves counted deleted b' ops in
      elim called [
        | inl (done, id, e) ↦
            rw done
              (a_store msg id (rest-Leaves ops _ _ _ _ (session double json sql b' ops) m e rest))
        | inr (fails, e) ↦
            rw fails
              (no_store msg (rest-Leaves ops _ _ _ _ (session double json sql b' ops) m e rest))
      ]
  session-Leaves counted deleted b (marks id ∷ ops) =
      let (b', ok) = mark_sent double json sql b id in
      let (called, m) = mark_sent-Takes b b.db id refl in
      let rest = session-Leaves counted deleted b' ops in
      elim called [
        | inl (done, e) ↦
            rw done (a_mark id (rest-Leaves ops _ _ _ _ (session double json sql b' ops) m e rest))
        | inr (fails, e) ↦
            rw fails
              (no_mark id (rest-Leaves ops _ _ _ _ (session double json sql b' ops) m e rest))
      ]

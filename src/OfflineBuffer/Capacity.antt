-- ===== src/OfflineBuffer/Capacity.antt =====
-- What `store` keeps: the newest messages, as many as fit.
use sdv_edge_gateway.Common.{
  ℕ, ◌+◌, ◌≤◌, ◌≡◌, ◌⊎◌, inl, inr, refl, ap, ◌∙◌, Bool, true, false, Option, none, some, List, [],
  ◌∷◌, ◌++◌, length, length-append, length-drop, subst, drop, leb, if◌then◌else◌, map, arith,
  Bool-cases, take, ◌==◌,
}
use sdv_edge_gateway.Common.Double.{DoubleOps}
use sdv_edge_gateway.Types.{TelemetryMsg}
use sdv_edge_gateway.OfflineBuffer.{RapidJson, to_json}
use sdv_edge_gateway.OfflineBuffer.Database.{
  int64, payload, Sqlite, delete_sql, insert_sql, count_sql, OfflineBuffer, count_pending,
  make_room, insert_row, store,
}

-- A row of the table.
pub record Row (T : Type 0) : Type 0 where
  pub id : ℕ
  pub content : T
  pub sent : Bool

module _ {T : Type 0} where
  -- WHERE sent=0, in the order of the ids.
  abbrev pub pending : List (Row T) → List (Row T)
  pending [] = []
  pending (r ∷ rs) = let rest = pending rs in if r.sent then rest else r ∷ rest

  -- The table without its oldest pending row.
  abbrev pub without_oldest : List (Row T) → List (Row T)
  without_oldest [] = []
  without_oldest (r ∷ rs) = let rest = without_oldest rs in if r.sent then r ∷ rest else rs

  pending-without_oldest : (rs : List (Row T)) → pending (without_oldest rs) ≡ drop 1 (pending rs)
  pending-without_oldest [] = refl
  pending-without_oldest (r ∷ rs) = ground (arith, pending-without_oldest rs)

  pending-append :
      (rs : List (Row T)) (r : Row T)
      → r.sent ≡ false
      → pending (rs ++ r ∷ []) ≡ pending rs ++ r ∷ []
  pending-append [] r h = rw h refl
  pending-append (x ∷ rs) r h = ground (arith, pending-append rs r h)

  abbrev pub selected : Row T → ℕ × Option T
  selected r = (r.id, some r.content)

  abbrev pub mark : ℕ → Row T → Row T
  mark id r = if r.id == id then record r { sent = true } else r

  abbrev pub waiting : ℕ → T → Row T
  waiting id content = record { id = id; content = content; sent = false }

-- What SQLite documents of these five texts, on the table `rows` in the order of the ids: the count is
-- the one of the pending rows; DELETE takes away the oldest of them, INSERT adds a row with some id at
-- the end, and UPDATE marks the row of the id as sent, or the statement fails and changes nothing; SELECT
-- gives the oldest pending rows up to the limit.
pub record IsTable {D T : Type 0} (sql : Sqlite D T) (rows : D → List (Row T)) : Type 0 where
  pub counts :
      (d : D)
      → sql.query d "SELECT COUNT(*) FROM telemetry WHERE sent=0;" []
        ≡ (length (pending (rows d)), none) ∷ []
  pub deletes :
      (d : D)
      → let (d', ok) =
          sql.exec d
            "DELETE FROM telemetry WHERE id = (  SELECT id FROM telemetry WHERE sent=0 ORDER BY id ASC LIMIT 1);" in
        ((ok ≡ true) × (rows d' ≡ without_oldest (rows d))) ⊎ ((ok ≡ false) × (rows d' ≡ rows d))
  pub inserts :
      (d : D) (t : T)
      → let (d', ok) =
          sql.execute d "INSERT INTO telemetry (payload, sent) VALUES (?, 0);" (payload t ∷ []) in
        ((ok ≡ true) × (id : ℕ) × (rows d' ≡ rows d ++ waiting id t ∷ []))
        ⊎ ((ok ≡ false) × (rows d' ≡ rows d))
  pub selects :
      (d : D) (n : ℕ)
      → sql.query d "SELECT id, payload FROM telemetry WHERE sent = 0 ORDER BY id ASC LIMIT ?;"
          (int64 n ∷ [])
        ≡ map selected (take n (pending (rows d)))
  pub updates :
      (d : D) (id : ℕ)
      → let (d', ok) = sql.execute d "UPDATE telemetry SET sent=1 WHERE id=?;" (int64 id ∷ []) in
        ((ok ≡ true) × (rows d' ≡ map (mark id) (rows d))) ⊎ ((ok ≡ false) × (rows d' ≡ rows d))

module _ {D W T Doc : Type 0} (double : DoubleOps W) (json : RapidJson W T Doc) (sql : Sqlite D T)
    (rows : D → List (Row T)) (table : IsTable sql rows) where
  -- The pending rows that stay when one more comes.
  abbrev pub room : ℕ → List (Row T) → List (Row T)
  room max_rows ps = if leb max_rows (length ps) then drop 1 ps else ps

  delete-without_oldest :
      (d : D)
      → (sql.exec d delete_sql).1 ≡ true
      → rows (sql.exec d delete_sql).0 ≡ without_oldest (rows d)
  delete-without_oldest d deleted = elim (table.deletes d) [
    | inl (ok, e) ↦ e
    | inr (fails, e) ↦ absurd (ground (arith, deleted, fails))
  ]

  make_room-room :
      (max_rows : ℕ) (d : D)
      → sql.prepares d count_sql ≡ true
      → (sql.exec d delete_sql).1 ≡ true
      → pending (rows (make_room double json sql max_rows d)) ≡ room max_rows (pending (rows d))
  unfolding make_room count_pending
  make_room-room max_rows d h deleted =
      let known : count_pending double json sql d ≡ length (pending (rows d)) =
        rw (h, table.counts d) refl in
      elim (Bool-cases (leb max_rows (length (pending (rows d))))) [
        | inl full ↦
            rw (known, full)
              (ap pending (delete-without_oldest d deleted) ∙ pending-without_oldest (rows d))
        | inr fits ↦ rw (known, fits) refl
      ]

  -- How the pending rows go on when a message is stored with these rows kept.
  abbrev pub Stored : TelemetryMsg W → List (Row T) → D × Bool → Type 0
  Stored msg ps (d, ok) =
      ((ok ≡ true)
        × (id : ℕ) × (pending (rows d) ≡ ps ++ waiting id (to_json double json msg) ∷ []))
      ⊎ ((ok ≡ false) × (pending (rows d) ≡ ps))

  pub insert_row-Stored :
      (msg : TelemetryMsg W) (d : D)
      → Stored msg (pending (rows d)) (insert_row double json sql msg d)
  unfolding insert_row
  insert_row-Stored msg d = elim (Bool-cases (sql.prepares d insert_sql)) [
    | inl ok ↦ elim (table.inserts d (to_json double json msg)) [
      | inl (done, id, e) ↦ rw ok (
          inl (
            done,
            id,
            ap pending e ∙ pending-append (rows d) (waiting id (to_json double json msg)) refl,
          ))
      | inr (fails, e) ↦ rw ok (inr (fails, ap pending e))
    ]
    | inr bad ↦ rw bad (inr (refl, refl))
  ]

  -- The rows that are pending in a buffer.
  abbrev pub pending_of : OfflineBuffer D → List (Row T)
  pending_of b = elim b.db [ none ↦ [] | some d ↦ pending (rows d) ]

  -- On an open database whose count can be prepared and whose DELETE succeeds, `store` drops the
  -- oldest pending message if the buffer is full; it then returns true with the new message waiting
  -- behind the others, or false with nothing added. The order of the others stays.
  pub store-keeps :
      (b : OfflineBuffer D) (d : D) (msg : TelemetryMsg W)
      → b.db ≡ some d
      → sql.prepares d count_sql ≡ true
      → (sql.exec d delete_sql).1 ≡ true
      → let (b', ok) = store double json sql b msg in
        let kept_rows = room b.max_rows (pending (rows d)) in
        ((ok ≡ true)
          × (id : ℕ) × (pending_of b' ≡ kept_rows ++ waiting id (to_json double json msg) ∷ []))
        ⊎ ((ok ≡ false) × (pending_of b' ≡ kept_rows))
  unfolding store
  store-keeps b d msg e h deleted =
      let d₁ = make_room double json sql b.max_rows d in
      let stored : Stored msg (room b.max_rows (pending (rows d)))
          (insert_row double json sql msg d₁) =
        subst (λ ps. Stored msg ps (insert_row double json sql msg d₁))
          (make_room-room b.max_rows d h deleted) (insert_row-Stored msg d₁) in
      rw e stored

  length-room :
      (max_rows : ℕ) (ps : List (Row T))
      → 1 ≤ max_rows
      → length ps ≤ max_rows
      → length (room max_rows ps) + 1 ≤ max_rows
  length-room max_rows ps lo hi = ground (arith, length-drop 1 ps)

  -- A buffer with room for one message or more that holds at most `max_rows` pending messages holds
  -- at most as many after `store`, on an open database whose count can be prepared and whose DELETE
  -- succeeds.
  pub store-bounded :
      (b : OfflineBuffer D) (d : D) (msg : TelemetryMsg W)
      → b.db ≡ some d
      → sql.prepares d count_sql ≡ true
      → (sql.exec d delete_sql).1 ≡ true
      → 1 ≤ b.max_rows
      → length (pending (rows d)) ≤ b.max_rows
      → length (pending_of (store double json sql b msg).0) ≤ b.max_rows
  store-bounded b d msg e h deleted lo hi = elim (store-keeps b d msg e h deleted) [
    | inl (done, id, p) ↦ omega (
      arith,
      ap length p,
      length-append (room b.max_rows (pending (rows d)))
          (waiting id (to_json double json msg) ∷ []),
      length-room b.max_rows (pending (rows d)) lo hi,
    )
    | inr (fails, p) ↦ omega (arith, ap length p, length-room b.max_rows (pending (rows d)) lo hi)
  ]

-- ===== src/OfflineBuffer/Database.antt =====
-- The methods of OfflineBuffer over SQLite, which is third-party code and a parameter.
use sdv_edge_gateway.Common.{
  ℕ, String, Bool, false, Option, none, some, List, [], ◌∷◌, leb, if◌then◌else◌,
}
use sdv_edge_gateway.Common.Double.{DoubleOps}
use sdv_edge_gateway.Types.{TelemetryMsg}
use sdv_edge_gateway.OfflineBuffer.{RapidJson, to_json, drain_rows}

-- A value bound to a statement.
pub data Bound (T : Type 0) : Type 0 where
  int64 : ℕ → Bound T
  payload : T → Bound T

-- The calls on an open database `D`. A row is its first column as an integer and its second as a
-- text, if there is one.
pub record Sqlite (D T : Type 0) : Type 0 where
  pub open_v2 : String → Option D  -- `none`: not SQLITE_OK
  pub exec : D → String → D × Bool  -- whether it is SQLITE_OK
  pub prepares : D → String → Bool  -- whether sqlite3_prepare_v2 is SQLITE_OK
  pub execute : D → String → List (Bound T) → D × Bool  -- whether its step is SQLITE_DONE
  pub query : D → String → List (Bound T) → List (ℕ × Option T)  -- the rows that its steps give

abbrev pub delete_sql : String
delete_sql =
    "DELETE FROM telemetry WHERE id = (  SELECT id FROM telemetry WHERE sent=0 ORDER BY id ASC LIMIT 1);"

abbrev pub insert_sql : String
insert_sql = "INSERT INTO telemetry (payload, sent) VALUES (?, 0);"

abbrev pub select_sql : String
select_sql = "SELECT id, payload FROM telemetry WHERE sent = 0 ORDER BY id ASC LIMIT ?;"

abbrev pub update_sql : String
update_sql = "UPDATE telemetry SET sent=1 WHERE id=?;"

abbrev pub count_sql : String
count_sql = "SELECT COUNT(*) FROM telemetry WHERE sent=0;"

abbrev pub schema_sql : String
schema_sql =
    "CREATE TABLE IF NOT EXISTS telemetry (  id      INTEGER PRIMARY KEY AUTOINCREMENT,  payload TEXT    NOT NULL,  sent    INTEGER NOT NULL DEFAULT 0);CREATE INDEX IF NOT EXISTS idx_sent ON telemetry(sent);"

pub record OfflineBuffer (D : Type 0) : Type 0 where
  pub db_path : String
  pub max_rows : ℕ
  pub db : Option D

module _ {D W T Doc : Type 0} (double : DoubleOps W) (json : RapidJson W T Doc)
    (sql : Sqlite D T) where
  open sql use {open_v2, exec, prepares, execute, query}

  -- After the database was opened. The results of the two pragmas are not looked at.
  set_up : OfflineBuffer D → Option D → OfflineBuffer D × Bool
  set_up b none = (record b { db = none }, false)
  set_up b (some d) =
      let d₁ = (exec d "PRAGMA journal_mode=WAL;").0 in
      let d₂ = (exec d₁ "PRAGMA synchronous=NORMAL;").0 in
      let (d₃, ok) = exec d₂ schema_sql in (record b { db = some d₃ }, ok)

  -- OfflineBuffer::open.
  unfoldable pub open_db : OfflineBuffer D → OfflineBuffer D × Bool
  unfolding set_up
  open_db b = set_up b (open_v2 b.db_path)

  unfoldable pub close : OfflineBuffer D → OfflineBuffer D
  close b = record b { db = none }

  abbrev first_column : List (ℕ × Option T) → ℕ
  first_column [] = 0
  first_column ((n, t) ∷ rows) = n

  -- The count on an open database.
  unfoldable pub count_pending : D → ℕ
  count_pending d = if prepares d count_sql then first_column (query d count_sql []) else 0

  unfoldable pub pending_count : OfflineBuffer D → ℕ
  pending_count b = elim b.db [ none ↦ 0 | some d ↦ count_pending d ]

  -- The first step of `store`.
  unfoldable pub make_room : ℕ → D → D
  unfolding count_pending
  make_room max_rows d = if leb max_rows (count_pending d) then (exec d delete_sql).0 else d

  -- The other steps.
  unfoldable pub insert_row : TelemetryMsg W → D → D × Bool
  insert_row msg d =
      if prepares d insert_sql
      then execute d insert_sql (payload (to_json double json msg) ∷ [])
      else (d, false)

  unfoldable pub store : OfflineBuffer D → TelemetryMsg W → OfflineBuffer D × Bool
  unfolding make_room insert_row
  store b msg = elim b.db [
    | none ↦ (b, false)
    | some d ↦
        let (d', ok) = insert_row msg (make_room b.max_rows d) in (record b { db = some d' }, ok)
  ]

  unfoldable pub drain : OfflineBuffer D → ℕ → List (ℕ × TelemetryMsg W)
  drain b limit = elim b.db [
    | none ↦ []
    | some d ↦
        if prepares d select_sql
        then drain_rows double json (query d select_sql (int64 limit ∷ []))
        else []
  ]

  unfoldable pub mark_sent : OfflineBuffer D → ℕ → OfflineBuffer D × Bool
  mark_sent b row_id = elim b.db [
    | none ↦ (b, false)
    | some d ↦
        let (d', ok) = execute d update_sql (int64 row_id ∷ []) in
        if prepares d update_sql then (record b { db = some d' }, ok) else (b, false)
  ]

-- ===== src/OtaAgent.antt =====
-- src/gateway/ota_agent.cpp and include/gateway/ota_agent.hpp.
--
-- One round of the worker's loop runs one command to its end. What the network and the operating
-- system answer to it is the record `Answers`; nlohmann::json and the digest are parameters. A
-- publish is recorded as a report, whether or not the broker takes it: the code logs a failure and
-- goes on. An exception that no handler takes ends the process.
pub mod FileSystem
pub mod Digest
pub mod Safety
pub mod Reports
pub mod Session
pub mod Answered
pub mod Hashing
pub mod Faults
pub mod Transfer
pub mod Succeeds
pub mod Delivered
pub mod Lifecycle
use sdv_edge_gateway.Common.{
  ◌>>=◌, ℕ, ◌+◌, ◌*◌, String, ◌<>◌, Bool, true, false, not, Option, none, some, List, [], ◌∷◌, ◌++◌,
  ltb, ◌==◌, if◌then◌else◌,
}
use sdv_edge_gateway.Types.{
  Command, OtaState, idle, manifest_received, downloading, verifying, installing, complete, failed,
  rolled_back, OtaStatus,
}
use sdv_edge_gateway.Json.{JsonOps}
use sdv_edge_gateway.Mqtt.{Message, Value, text, int}
use FileSystem.{Files, put, Copied, copy_file}
use Digest.{Sha, verify_sha256}

pub record Config : Type 0 where
  pub uin : String
  pub firmware_path : String
  pub backup_path : String
  pub installed_path : String

pub record Report : Type 0 where
  pub correlation_id : String
  pub status : OtaStatus

pub record World : Type 0 where
  pub files : Files
  pub reports : List Report

-- The answers to one command. `space` is `none` where std::filesystem::space throws; `body` is what
-- was written to the file before the transfer ended.
pub record Answers : Type 0 where
  pub space : Option ℕ
  pub curl_init : Bool
  pub can_write : Bool
  pub body : List ℕ
  pub curl_ok : Bool
  pub http_code : ℕ
  pub remove_ok : Bool
  pub backup_copy : Copied
  pub flash_copy : Copied
  pub rollback_copy : Copied

-- How a command ends: the loop goes on, or an uncaught exception ends the process.
pub data Outcome : Type 0 where
  done : World → Outcome
  terminated : World → Outcome

-- The next round, unless the process has ended.
abbrev pub and_then : Outcome → (World → Outcome) → Outcome
and_then (done w) next = next w
and_then (terminated w) next = terminated w

pub record Manifest : Type 0 where
  pub url : String
  pub sha256 : String
  pub version : String

unfoldable pub state_to_str : OtaState → String
state_to_str idle = "IDLE"
state_to_str manifest_received = "MANIFEST_RECEIVED"
state_to_str downloading = "DOWNLOADING"
state_to_str verifying = "VERIFYING"
state_to_str installing = "INSTALLING"
state_to_str complete = "COMPLETE"
state_to_str failed = "FAILED"
state_to_str rolled_back = "ROLLED_BACK"

abbrev pub min_free_bytes : ℕ
min_free_bytes = 100 * 1024 * 1024

-- The message that report_status publishes.
unfoldable pub status_message : String → Report → Message ℕ
unfolding state_to_str
status_message uin r = record {
  topic = "sdv/ota/from/uin/" <> uin <> "/status";
  payload =
      ("correlation_id", text r.correlation_id)
      ∷ ("state", text (state_to_str r.status.state))
      ∷ ("fw_version", text r.status.fw_version)
      ∷ ("error_msg", text r.status.error_msg)
      ∷ ("progress_pct", int r.status.progress_pct)
      ∷ [];
  qos = 1;
  retained = false;
}

unfoldable pub report_status : String → OtaStatus → World → World
report_status id status w = record w {
  reports = w.reports ++ record { correlation_id = id; status = status } ∷ [];
}

-- A failure carries no progress.
abbrev pub failure : OtaState → String → String → OtaStatus
failure state version why = record {
  state = state;
  fw_version = version;
  error_msg = why;
  progress_pct = 0;
}

abbrev pub progress : OtaState → String → ℕ → OtaStatus
progress state version pct = record {
  state = state;
  fw_version = version;
  error_msg = "";
  progress_pct = pct;
}

-- `none`: the exception of std::filesystem::space.
unfoldable pub check_preconditions : Answers → Option Bool
check_preconditions ans = elim ans.space [
  | none ↦ none
  | some available ↦ some (not (ltb available min_free_bytes))
]

module _ (cfg : Config) where
  open cfg use {firmware_path, backup_path, installed_path}

  -- The file is opened, and so emptied, before the transfer.
  unfoldable pub download_firmware : Answers → Files → Files × Bool
  download_firmware ans files =
      if not ans.curl_init
      then (files, false)
      else if not ans.can_write
      then (files, false)
      else let files' = put files firmware_path (some ans.body) in
        if not ans.curl_ok
        then (files', false)
        else if not (ans.http_code == 200)
        then (files', false)
        else (files', true)

  unfoldable pub backup_current : Answers → Files → Files × Bool
  backup_current ans files = copy_file ans.backup_copy files installed_path backup_path

  unfoldable pub rollback : Answers → Files → Files × Bool
  rollback ans files = copy_file ans.rollback_copy files backup_path installed_path

  -- The result of `rollback` is not looked at.
  unfoldable pub flash_firmware : Answers → Files → Files × Bool
  unfolding rollback
  flash_firmware ans files =
      let (files', ok) = copy_file ans.flash_copy files firmware_path installed_path in
      if ok then (files', true) else ((rollback ans files').0, false)

module _ {J : Type 0} (json : JsonOps J) where
  -- `none`: the manifest is refused by an exception of nlohmann::json.
  unfoldable pub parse_manifest : String → Option Manifest
  parse_manifest payload = do
    j ← json.parse payload
    url ← json.at_string j "url"
    sha256 ← json.at_string j "sha256"
    version ← json.value_string j "version" "unknown"
    some (record { url = url; sha256 = sha256; version = version })

module _ {C : Type 0} (sha : Sha C) (cfg : Config) (ans : Answers) (id : String) where
  -- Step 5. The stages are written from the last to the first: each ends the round or goes on.
  unfoldable pub flash_stage : Manifest → World → World
  flash_stage m w =
      let w₁ = report_status id (progress installing m.version 75) w in
      let (files, ok) = flash_firmware cfg ans w₁.files in
      let w₂ = record w₁ { files = files } in
      if not ok
      then report_status id
          (failure rolled_back m.version "Flash failed — rolled back to previous firmware") w₂
      else report_status id (progress complete m.version 100) w₂

  -- Step 4.
  unfoldable pub backup_stage : Manifest → World → World
  backup_stage m w =
      let (files, ok) = backup_current cfg ans w.files in
      let w₁ = record w { files = files } in
      if not ok
      then report_status id (failure failed m.version "Backup failed — OTA aborted") w₁
      else flash_stage m w₁

  -- After a mismatch: std::filesystem::remove, which may throw.
  unfoldable pub reject : World → Outcome
  reject w =
      if ans.remove_ok
      then done (record w { files = put w.files cfg.firmware_path none })
      else terminated w

  -- Step 3.
  unfoldable pub verify_stage : Manifest → World → Outcome
  verify_stage m w =
      let w₁ = report_status id (progress verifying m.version 50) w in
      if not (verify_sha256 sha w₁.files cfg.firmware_path m.sha256)
      then reject
          (report_status id (failure failed m.version "SHA256 mismatch — firmware rejected") w₁)
      else done (backup_stage m w₁)

  -- Step 2.
  unfoldable pub download_stage : Manifest → World → Outcome
  download_stage m w =
      let w₁ = report_status id (progress downloading m.version 10) w in
      let (files, ok) = download_firmware cfg ans w₁.files in
      let w₂ = record w₁ { files = files } in
      if not ok
      then done (report_status id (failure failed m.version "Download failed") w₂)
      else verify_stage m w₂

  -- Step 1, with the answer of check_preconditions.
  unfoldable pub precondition_stage : Option Bool → Manifest → World → Outcome
  precondition_stage none m w = terminated w
  precondition_stage (some ok) m w =
      if not ok
      then done (report_status id (failure failed m.version "Preconditions not met") w)
      else download_stage m w

  -- The round after the manifest was parsed.
  unfoldable pub run_manifest : Option Manifest → World → Outcome
  run_manifest none w = done (report_status id (failure failed "" "Invalid manifest JSON") w)
  run_manifest (some m) w =
      precondition_stage (check_preconditions ans) m
        (report_status id (progress manifest_received m.version 0) w)

module _ {J : Type 0} (json : JsonOps J) {C : Type 0} (sha : Sha C) (cfg : Config) where
  -- One command that the queue gave.
  unfoldable pub run_command : Answers → Command → World → Outcome
  run_command ans cmd w =
      run_manifest sha cfg ans cmd.correlation_id (parse_manifest json cmd.payload_json) w

  -- The worker's loop: each round the queue gives a command, or the wait of one second runs out.
  unfoldable pub run : World → List (Option Command × Answers) → Outcome
  run w [] = done w
  run w ((none, ans) ∷ rounds) = run w rounds
  run w ((some cmd, ans) ∷ rounds) = and_then (run_command ans cmd w) (λ w'. run w' rounds)

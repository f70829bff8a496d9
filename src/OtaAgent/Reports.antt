-- ===== src/OtaAgent/Reports.antt =====
-- The order of the states that one command reports.
use sdv_edge_gateway.Common.{
  ℕ, String, Bool, true, false, Option, none, some, List, [], ◌∷◌, ◌++◌, Bool-cases, inl, inr,
}
use sdv_edge_gateway.Types.{
  Command, OtaState, idle, manifest_received, downloading, verifying, installing, complete, failed,
  rolled_back, OtaStatus,
}
use sdv_edge_gateway.Json.{JsonOps}
use sdv_edge_gateway.OtaAgent.Digest.{Sha, verify_sha256}
use sdv_edge_gateway.OtaAgent.{
  Config, Report, World, Answers, Outcome, done, terminated, Manifest, report_status,
  check_preconditions, download_firmware, backup_current, flash_firmware, parse_manifest,
  flash_stage, backup_stage, reject, verify_stage, download_stage, precondition_stage, run_manifest,
  run_command,
}

-- The states in which a command may be given up.
pub data MayFail : OtaState → Type 0 where
  bad_manifest : MayFail idle
  unprepared : MayFail manifest_received
  no_download : MayFail downloading
  mismatch_or_no_backup : MayFail verifying

-- The diagram: which state may be reported after which, with which progress.
pub data Follows : OtaState → OtaState → ℕ → Type 0 where
  received : Follows idle manifest_received 0
  started : Follows manifest_received downloading 10
  fetched : Follows downloading verifying 50
  backed_up : Follows verifying installing 75
  flashed : Follows installing complete 100
  reverted : Follows installing rolled_back 0
  gives_up : {s : OtaState} → MayFail s → Follows s failed 0

pub data IsFinal : OtaState → Type 0 where
  completes : IsFinal complete
  fails : IsFinal failed
  rolls_back : IsFinal rolled_back

-- From `idle` along the diagram to a state; the reports carry the command's identifier and stand
-- behind those that were there before.
pub data Log (id : String) (before : List Report) : OtaState → List Report → Type 0 where
  nothing : Log id before idle before
  then :
      {s : OtaState} {rs : List Report}
      → Log id before s rs
      → (status : OtaStatus) → Follows s status.state status.progress_pct
      → Log id before status.state (rs ++ record { correlation_id = id; status = status } ∷ [])

module _ (id : String) (before : List Report) where
  abbrev pub Finished : World → Type 0
  Finished w = (s : OtaState) × IsFinal s × Log id before s w.reports

  abbrev pub EndsLogged : Outcome → Type 0
  EndsLogged (done w) = Finished w
  EndsLogged (terminated w) = (s : OtaState) × Log id before s w.reports

module _ {C : Type 0} (sha : Sha C) (cfg : Config) (ans : Answers) (id : String)
    (before : List Report) where
  flash-Finished :
      (m : Manifest) (w : World)
      → Log id before verifying w.reports
      → Finished id before (flash_stage sha cfg ans id m w)
  unfolding flash_stage report_status
  flash-Finished m w l = elim (Bool-cases (flash_firmware cfg ans w.files).1) [
    | inl ok ↦ rw ok (complete, completes, then (then l _ backed_up) _ flashed)
    | inr bad ↦ rw bad (rolled_back, rolls_back, then (then l _ backed_up) _ reverted)
  ]

  backup-Finished :
      (m : Manifest) (w : World)
      → Log id before verifying w.reports
      → Finished id before (backup_stage sha cfg ans id m w)
  unfolding backup_stage report_status
  backup-Finished m w l = elim (Bool-cases (backup_current cfg ans w.files).1) [
    | inl ok ↦ rw ok (flash-Finished m (record w { files = (backup_current cfg ans w.files).0 }) l)
    | inr bad ↦ rw bad (failed, fails, then l _ (gives_up mismatch_or_no_backup))
  ]

  reject-EndsLogged :
      (w : World) → Log id before failed w.reports → EndsLogged id before (reject sha cfg ans id w)
  unfolding reject
  reject-EndsLogged w l = elim (Bool-cases ans.remove_ok) [
    | inl ok ↦ rw ok (failed, fails, l)
    | inr throws ↦ rw throws (failed, l)
  ]

  verify-EndsLogged :
      (m : Manifest) (w : World)
      → Log id before downloading w.reports
      → EndsLogged id before (verify_stage sha cfg ans id m w)
  unfolding verify_stage report_status
  verify-EndsLogged m w l =
      elim (Bool-cases (verify_sha256 sha w.files cfg.firmware_path m.sha256)) [
        | inl ok ↦ rw ok (backup-Finished m _ (then l _ fetched))
        | inr bad ↦
            rw bad
              (reject-EndsLogged _ (then (then l _ fetched) _ (gives_up mismatch_or_no_backup)))
      ]

  download-EndsLogged :
      (m : Manifest) (w : World)
      → Log id before manifest_received w.reports
      → EndsLogged id before (download_stage sha cfg ans id m w)
  unfolding download_stage report_status
  download-EndsLogged m w l = elim (Bool-cases (download_firmware cfg ans w.files).1) [
    | inl ok ↦ rw ok (verify-EndsLogged m _ (then l _ started))
    | inr bad ↦ rw bad (failed, fails, then (then l _ started) _ (gives_up no_download))
  ]

  precondition-EndsLogged :
      (checked : Option Bool) (m : Manifest) (w : World)
      → Log id before manifest_received w.reports
      → EndsLogged id before (precondition_stage sha cfg ans id checked m w)
  unfolding precondition_stage report_status
  precondition-EndsLogged none m w l = (manifest_received, l)
  precondition-EndsLogged (some false) m w l = (failed, fails, then l _ (gives_up unprepared))
  precondition-EndsLogged (some true) m w l = download-EndsLogged m w l

  run_manifest-EndsLogged :
      (o : Option Manifest) (w : World)
      → Log id before idle w.reports
      → EndsLogged id before (run_manifest sha cfg ans id o w)
  unfolding run_manifest report_status
  run_manifest-EndsLogged none w l = (failed, fails, then l _ (gives_up bad_manifest))
  run_manifest-EndsLogged (some m) w l =
      precondition-EndsLogged (check_preconditions ans) m _ (then l _ received)

module _ {J : Type 0} (json : JsonOps J) {C : Type 0} (sha : Sha C) (cfg : Config) where
  -- What a command adds to the reports is a way through the diagram `Follows` from IDLE, each
  -- report with the command's identifier and the diagram's progress, and nothing before it
  -- changes; it ends in COMPLETE, FAILED or ROLLED_BACK, unless an uncaught exception ends the
  -- process.
  pub run_command-EndsLogged :
      (ans : Answers) (cmd : Command) (w : World)
      → EndsLogged cmd.correlation_id w.reports (run_command json sha cfg ans cmd w)
  unfolding run_command
  run_command-EndsLogged ans cmd w =
      run_manifest-EndsLogged sha cfg ans cmd.correlation_id w.reports
        (parse_manifest json cmd.payload_json) w nothing

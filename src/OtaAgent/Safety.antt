-- ===== src/OtaAgent/Safety.antt =====
-- What is installed when a command has ended, branch by branch.
mod Installing
pub use Installing.{AreApart, last_state-append, EndsIn, manifest_hash}
use Installing.{IsSafe, HasTransferred, backup-IsSafe}
use sdv_edge_gateway.Common.{
  ℕ, ◌≡◌, ◌≢◌, ◌⊎◌, inl, inr, refl, ◌∙◌, String, str_eq, eq_refl, eq_iff, Bool, true, false, Option,
  none, some, List, [], ◌∷◌, ◌++◌, arith, Bool-cases, Option-cases,
}
use sdv_edge_gateway.Types.{
  Command, OtaState, idle, manifest_received, downloading, verifying, complete, failed, rolled_back,
  OtaStatus,
}
use sdv_edge_gateway.Json.{JsonOps}
use sdv_edge_gateway.OtaAgent.FileSystem.{Files, whole, copy_file}
use sdv_edge_gateway.OtaAgent.Digest.{Sha, digest, verify_sha256}
use sdv_edge_gateway.OtaAgent.{
  Config, Report, World, Answers, Outcome, done, terminated, Manifest, report_status, progress,
  check_preconditions, download_firmware, backup_current, flash_firmware, parse_manifest,
  flash_stage, backup_stage, reject, verify_stage, download_stage, precondition_stage, run_manifest,
  run_command,
}

module _ {C : Type 0} (sha : Sha C) (cfg : Config) (ans : Answers) (id : String) where
  -- A process that an uncaught exception ended leaves the installed file as it was.
  abbrev pub EndsSafely : Option (List ℕ) → String → Outcome → Type 0
  EndsSafely old hash (done w) = IsSafe sha cfg ans id old hash w
  EndsSafely old hash (terminated w) = w.files cfg.installed_path ≡ old

  verify_cases :
      (files : Files) (hash : String)
      → files cfg.firmware_path ≡ some ans.body
      → (verify_sha256 sha files cfg.firmware_path hash ≡ false)
        ⊎ ((verify_sha256 sha files cfg.firmware_path hash ≡ true) × (digest sha ans.body ≡ hash))
  unfolding verify_sha256
  verify_cases files hash e = elim (Bool-cases (str_eq (digest sha ans.body) hash)) [
    | inl same ↦ inr (rw (e, verify_sha256) same, (eq_iff _ _).0 same)
    | inr other ↦ inl (rw (e, verify_sha256) other)
  ]

  reject-EndsSafely :
      (w : World) (hash : String)
      → AreApart cfg
      → EndsIn w failed
      → EndsSafely (w.files cfg.installed_path) hash (reject sha cfg ans id w)
  unfolding reject
  reject-EndsSafely w hash apart e = elim (Bool-cases ans.remove_ok) [
    | inl ok ↦ rw ok (inr (inl (e, rw apart.firmware_installed)))
    | inr fails ↦ rw fails refl
  ]

  verify-EndsSafely :
      (m : Manifest) (w : World)
      → AreApart cfg
      → w.files cfg.firmware_path ≡ some ans.body
      → HasTransferred sha cfg ans id
      → EndsSafely (w.files cfg.installed_path) m.sha256 (verify_stage sha cfg ans id m w)
  unfolding verify_stage report_status
  verify-EndsSafely m w apart f t = elim (verify_cases w.files m.sha256 f) [
    | inl bad ↦
        rw bad (reject-EndsSafely _ m.sha256 apart (last_state-append idle (w.reports ++ _) _))
    | inr (ok, d) ↦ rw ok (
        backup-IsSafe sha cfg ans id m (report_status id (progress verifying m.version 50) w) apart
          f d t)
  ]

  download-installed :
      (files : Files)
      → AreApart cfg
      → (download_firmware cfg ans files).0 cfg.installed_path ≡ files cfg.installed_path
  unfolding download_firmware
  download-installed files apart = ground arith

  download-body :
      (files : Files)
      → (download_firmware cfg ans files).1 ≡ true
      → (download_firmware cfg ans files).0 cfg.firmware_path ≡ some ans.body
  unfolding download_firmware
  download-body files ok = ground (arith, ok, eq_refl cfg.firmware_path)

  download-HasTransferred :
      (files : Files) → (download_firmware cfg ans files).1 ≡ true → HasTransferred sha cfg ans id
  unfolding download_firmware
  download-HasTransferred files ok = ground (arith, ok)

  download-EndsSafely :
      (m : Manifest) (w : World)
      → AreApart cfg
      → EndsSafely (w.files cfg.installed_path) m.sha256 (download_stage sha cfg ans id m w)
  unfolding download_stage report_status
  download-EndsSafely m w apart = elim (Bool-cases (download_firmware cfg ans w.files).1) [
    | inl ok ↦ rw ok (
        rw (download-installed w.files apart) at (
          verify-EndsSafely m
            (record (report_status id (progress downloading m.version 10) w) {
              files = (download_firmware cfg ans w.files).0;
            })
            apart (download-body w.files ok) (download-HasTransferred w.files ok)))
    | inr fails ↦
        rw fails
          (inr (inl (last_state-append idle (w.reports ++ _) _, download-installed w.files apart)))
  ]

  precondition-EndsSafely :
      (checked : Option Bool) (m : Manifest) (w : World)
      → AreApart cfg
      → EndsSafely
          (w.files cfg.installed_path)
          m.sha256
          (precondition_stage sha cfg ans id checked m w)
  unfolding precondition_stage report_status
  precondition-EndsSafely none m w apart = refl
  precondition-EndsSafely (some false) m w apart =
      inr (inl (last_state-append idle w.reports _, refl))
  precondition-EndsSafely (some true) m w apart = download-EndsSafely m w apart

  run_manifest-EndsSafely :
      (o : Option Manifest) (w : World)
      → AreApart cfg
      → EndsSafely (w.files cfg.installed_path) (manifest_hash o) (run_manifest sha cfg ans id o w)
  unfolding run_manifest report_status
  run_manifest-EndsSafely none w apart = inr (inl (last_state-append idle w.reports _, refl))
  run_manifest-EndsSafely (some m) w apart =
      precondition-EndsSafely (check_preconditions ans) m
        (report_status id (progress manifest_received m.version 0) w) apart

module _ {J : Type 0} (json : JsonOps J) {C : Type 0} (sha : Sha C) (cfg : Config) where
  -- However a command ends: if COMPLETE is reported last, the installed file is what this command
  -- downloaded, in a transfer without an error and with status 200, and its SHA-256 digest is the one
  -- of the command's manifest; if FAILED, it is what it was before; if
  -- ROLLED_BACK, it is what it was, provided that the copy from the backup succeeded. No other
  -- state is reported last, and an uncaught exception leaves the installed file as it was. (The
  -- three paths differ.)
  pub run_command-EndsSafely :
      (ans : Answers) (cmd : Command) (w : World)
      → AreApart cfg
      → EndsSafely sha cfg ans cmd.correlation_id
          (w.files cfg.installed_path)
          (manifest_hash (parse_manifest json cmd.payload_json))
          (run_command json sha cfg ans cmd w)
  unfolding run_command
  run_command-EndsSafely ans cmd w apart =
      run_manifest-EndsSafely sha cfg ans cmd.correlation_id (parse_manifest json cmd.payload_json)
        w apart

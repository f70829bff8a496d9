-- ===== src/OtaAgent/Succeeds.antt =====
-- The path of an update on which all that it needs answers well.
use sdv_edge_gateway.Common.{
  ℕ, ◌≤◌, ◌≡◌, refl, String, eq_iff, eq_refl, true, some, List, ◌++◌, arith,
}
use sdv_edge_gateway.Types.{Command, idle, complete, manifest_received, downloading, verifying}
use sdv_edge_gateway.Json.{JsonOps}
use sdv_edge_gateway.OtaAgent.FileSystem.{Files, put, whole, copy_file}
use sdv_edge_gateway.OtaAgent.Digest.{Sha, digest, verify_sha256}
use sdv_edge_gateway.OtaAgent.{
  Config, World, Answers, Outcome, done, Manifest, min_free_bytes, parse_manifest, run_command,
  progress, report_status, flash_firmware, flash_stage, backup_stage, backup_current, verify_stage,
  download_stage, download_firmware, precondition_stage, check_preconditions, run_manifest,
}
use sdv_edge_gateway.OtaAgent.Safety.{AreApart, EndsIn, last_state-append}

-- There is room on the disk, the transfer ends without an error and with status 200, and the copies
-- are whole.
pub record AllWell (ans : Answers) : Type 0 where
  pub room : ℕ
  pub space : ans.space ≡ some room
  pub enough : min_free_bytes ≤ room
  pub curl_init : ans.curl_init ≡ true
  pub can_write : ans.can_write ≡ true
  pub curl_ok : ans.curl_ok ≡ true
  pub http_code : ans.http_code ≡ 200
  pub backup_copy : ans.backup_copy ≡ whole
  pub flash_copy : ans.flash_copy ≡ whole

module _ {C : Type 0} (sha : Sha C) (cfg : Config) (ans : Answers) (id : String) where
  -- COMPLETE is reported last, the downloaded image is installed, and the old one is the backup.
  abbrev pub IsInstalled : (old : List ℕ) → World → Type 0
  IsInstalled old w =
      EndsIn w complete
      × (w.files cfg.installed_path ≡ some ans.body)
      × (w.files cfg.backup_path ≡ some old)

  flash_whole :
      (files : Files)
      → AllWell ans
      → files cfg.firmware_path ≡ some ans.body
      → flash_firmware cfg ans files ≡ (put files cfg.installed_path (some ans.body), true)
  unfolding flash_firmware copy_file
  flash_whole files all f = rw (f, copy_file, all.flash_copy)

  backup_whole :
      (files : Files) (old : List ℕ)
      → AllWell ans
      → files cfg.installed_path ≡ some old
      → backup_current cfg ans files ≡ (put files cfg.backup_path (some old), true)
  unfolding backup_current copy_file
  backup_whole files old all i = rw (i, copy_file, all.backup_copy)

  download_whole :
      (files : Files)
      → AllWell ans
      → download_firmware cfg ans files ≡ (put files cfg.firmware_path (some ans.body), true)
  unfolding download_firmware
  download_whole files all = rw (all.curl_init, all.can_write, all.curl_ok, all.http_code)

  flash-IsInstalled :
      (m : Manifest) (w : World) (old : List ℕ)
      → AreApart cfg
      → AllWell ans
      → w.files cfg.backup_path ≡ some old
      → w.files cfg.firmware_path ≡ some ans.body
      → IsInstalled old (flash_stage sha cfg ans id m w)
  unfolding flash_stage report_status
  flash-IsInstalled m w old apart all b f = rw (flash_whole w.files all f) (
    last_state-append idle (w.reports ++ _) _,
    rw (eq_refl cfg.installed_path),
    rw (apart.installed_backup) b,
  )

  backup-IsInstalled :
      (m : Manifest) (w : World) (old : List ℕ)
      → AreApart cfg
      → AllWell ans
      → w.files cfg.installed_path ≡ some old
      → w.files cfg.firmware_path ≡ some ans.body
      → IsInstalled old (backup_stage sha cfg ans id m w)
  unfolding backup_stage report_status
  backup-IsInstalled m w old apart all i f = rw (backup_whole w.files old all i) (
      flash-IsInstalled m (record w { files = put w.files cfg.backup_path (some old) }) old apart
        all (rw (eq_refl cfg.backup_path)) (rw apart.backup_firmware f))

  -- The round goes on to its end, with the update installed.
  abbrev pub Installs : (old : List ℕ) → Outcome → Type 0
  Installs old o = (w : World) × (o ≡ done w) × IsInstalled old w

  verify_good :
      (files : Files) (hash : String)
      → files cfg.firmware_path ≡ some ans.body
      → digest sha ans.body ≡ hash
      → verify_sha256 sha files cfg.firmware_path hash ≡ true
  unfolding verify_sha256
  verify_good files hash f d = rw (f, verify_sha256) ((eq_iff _ _).1 d)

  verify-Installs :
      (m : Manifest) (w : World) (old : List ℕ)
      → AreApart cfg
      → AllWell ans
      → w.files cfg.installed_path ≡ some old
      → w.files cfg.firmware_path ≡ some ans.body
      → digest sha ans.body ≡ m.sha256
      → Installs old (verify_stage sha cfg ans id m w)
  unfolding verify_stage report_status
  verify-Installs m w old apart all i f d =
      let w₁ = report_status id (progress verifying m.version 50) w in
      rw (verify_good w.files m.sha256 f d)
        (backup_stage sha cfg ans id m w₁, refl, backup-IsInstalled m w₁ old apart all i f)

  download-Installs :
      (m : Manifest) (w : World) (old : List ℕ)
      → AreApart cfg
      → AllWell ans
      → w.files cfg.installed_path ≡ some old
      → digest sha ans.body ≡ m.sha256
      → Installs old (download_stage sha cfg ans id m w)
  unfolding download_stage report_status
  download-Installs m w old apart all i d =
      let w₁ = report_status id (progress downloading m.version 10) w in
      rw (download_whole w.files all) (
        verify-Installs m (record w₁ { files = put w.files cfg.firmware_path (some ans.body) }) old
          apart all (rw apart.firmware_installed i) (rw (eq_refl cfg.firmware_path)) d)

  has_room : AllWell ans → check_preconditions ans ≡ some true
  unfolding check_preconditions
  has_room all = ground (arith, all.space, all.enough)

module _ {J : Type 0} (json : JsonOps J) {C : Type 0} (sha : Sha C) (cfg : Config) where
  -- If there are 100 MB of room, the transfer ends without an error and with status 200, the digest
  -- of what it gave is the manifest's, and the copies to the backup and of the image are whole: the
  -- round ends with COMPLETE reported last, what was downloaded is installed, and the backup is the
  -- image that was installed before. (The three paths differ, and an image was installed.)
  pub run_command-Installs :
      (ans : Answers) (cmd : Command) (m : Manifest) (w : World) (old : List ℕ)
      → AreApart cfg
      → AllWell ans
      → parse_manifest json cmd.payload_json ≡ some m
      → w.files cfg.installed_path ≡ some old
      → digest sha ans.body ≡ m.sha256
      → Installs sha cfg ans cmd.correlation_id old (run_command json sha cfg ans cmd w)
  unfolding run_command run_manifest precondition_stage report_status
  run_command-Installs ans cmd m w old apart all p i d =
      rw (p, has_room sha cfg ans cmd.correlation_id all)
        (download-Installs sha cfg ans cmd.correlation_id m
          (report_status cmd.correlation_id (progress manifest_received m.version 0) w) old apart
          all i d)

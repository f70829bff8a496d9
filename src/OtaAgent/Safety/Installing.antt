-- ===== src/OtaAgent/Safety/Installing.antt =====
-- What is installed once an image has been verified: the backup and the flash.
use sdv_edge_gateway.Common.{
  ℕ, ◌≡◌, ◌≢◌, ◌⊎◌, inl, inr, refl, ◌∙◌, String, str_eq, eq_refl, true, false, Option, none, some,
  List, [], ◌∷◌, ◌++◌, arith, ◌==◌, Option-cases,
}
use sdv_edge_gateway.Types.{OtaState, idle, complete, failed, rolled_back, OtaStatus}
use sdv_edge_gateway.OtaAgent.FileSystem.{Files, whole, copy_file}
use sdv_edge_gateway.OtaAgent.Digest.{Sha, digest}
use sdv_edge_gateway.OtaAgent.{
  Config, Report, World, Answers, Manifest, report_status, backup_current, flash_firmware,
  flash_stage, backup_stage,
}

-- The three paths name three files.
pub record AreApart (cfg : Config) : Type 0 where
  pub firmware_installed : str_eq cfg.firmware_path cfg.installed_path ≡ false
  pub backup_installed : str_eq cfg.backup_path cfg.installed_path ≡ false
  pub installed_backup : str_eq cfg.installed_path cfg.backup_path ≡ false
  pub backup_firmware : str_eq cfg.backup_path cfg.firmware_path ≡ false

-- The state of the last report.
abbrev pub last_state : OtaState → List Report → OtaState
last_state s [] = s
last_state s (r ∷ rs) = last_state r.status.state rs

pub last_state-append :
    (s : OtaState) (rs : List Report) (r : Report) → last_state s (rs ++ r ∷ []) ≡ r.status.state
last_state-append s [] r = refl
last_state-append s (x ∷ rs) r = last_state-append x.status.state rs r

abbrev pub EndsIn : World → OtaState → Type 0
EndsIn w s = last_state idle w.reports ≡ s

report-ends :
    (id : String) (status : OtaStatus) (w : World) → EndsIn (report_status id status w) status.state
unfolding report_status
report-ends id status w =
    last_state-append idle w.reports (record { correlation_id = id; status = status })

report-files :
    (id : String) (status : OtaStatus) (w : World) → (report_status id status w).files ≡ w.files
unfolding report_status
report-files id status w = refl

-- The hash that a command's manifest gives.
abbrev pub manifest_hash : Option Manifest → String
manifest_hash none = ""
manifest_hash (some m) = m.sha256

module _ {C : Type 0} (sha : Sha C) (cfg : Config) (ans : Answers) (id : String) where
  abbrev pub installed : World → Option (List ℕ)
  installed w = w.files cfg.installed_path

  -- libcurl ended the transfer without an error, and the server's status was 200.
  abbrev pub HasTransferred : Type 0
  HasTransferred = (ans.curl_ok ≡ true) × ((ans.http_code == 200) ≡ true)

  -- COMPLETE: the installed file is what was downloaded, with the manifest's digest. FAILED: it is what it
  -- was. ROLLED_BACK: it is what it was, provided that the copy back succeeded.
  abbrev pub IsSafe : Option (List ℕ) → String → World → Type 0
  IsSafe old hash w =
      (EndsIn w complete
        × HasTransferred
        × (installed w ≡ some ans.body)
        × (digest sha ans.body ≡ hash))
      ⊎ (EndsIn w failed × (installed w ≡ old))
      ⊎ (EndsIn w rolled_back × ((ans.rollback_copy ≢ whole) ⊎ (installed w ≡ old)))

  flash_firmware_cases :
      (files : Files) (old image : List ℕ)
      → AreApart cfg
      → files cfg.backup_path ≡ some old
      → files cfg.firmware_path ≡ some image
      → (((flash_firmware cfg ans files).1 ≡ true)
          × ((flash_firmware cfg ans files).0 cfg.installed_path ≡ some image))
        ⊎ (((flash_firmware cfg ans files).1 ≡ false)
            × ((ans.rollback_copy ≢ whole)
                ⊎ ((flash_firmware cfg ans files).0 cfg.installed_path ≡ some old)))
  unfolding flash_firmware copy_file
  flash_firmware_cases files old image apart b f = ground (arith, eq_refl cfg.installed_path)

  flash-IsSafe :
      (m : Manifest) (w : World) (old : List ℕ)
      → AreApart cfg
      → w.files cfg.backup_path ≡ some old
      → w.files cfg.firmware_path ≡ some ans.body
      → digest sha ans.body ≡ m.sha256
      → HasTransferred
      → IsSafe (some old) m.sha256 (flash_stage sha cfg ans id m w)
  unfolding flash_stage report_status
  flash-IsSafe m w old apart b f d t = elim (flash_firmware_cases w.files old ans.body apart b f) [
    | inl (ok, new) ↦ rw ok (inl (last_state-append idle (w.reports ++ _) _, t, new, d))
    | inr (ok, back) ↦ rw ok (inr (inr (last_state-append idle (w.reports ++ _) _, back)))
  ]

  backup_current_missing :
      (files : Files)
      → files cfg.installed_path ≡ none
      → backup_current cfg ans files ≡ (files, false)
  unfolding backup_current copy_file
  backup_current_missing files e = rw (e, copy_file)

  backup_current_cases :
      (files : Files) (old : List ℕ)
      → AreApart cfg
      → files cfg.installed_path ≡ some old
      → let (files', ok) = backup_current cfg ans files in
        (files' cfg.installed_path ≡ some old)
        × (((ok ≡ true)
              × (files' cfg.backup_path ≡ some old)
              × (files' cfg.firmware_path ≡ files cfg.firmware_path))
            ⊎ (ok ≡ false))
  unfolding backup_current copy_file
  backup_current_cases files old apart e = ground (arith, eq_refl cfg.backup_path)

  pub backup-IsSafe :
      (m : Manifest) (w : World)
      → AreApart cfg
      → w.files cfg.firmware_path ≡ some ans.body
      → digest sha ans.body ≡ m.sha256
      → HasTransferred
      → IsSafe (installed w) m.sha256 (backup_stage sha cfg ans id m w)
  unfolding backup_stage report_status
  backup-IsSafe m w apart f d t = elim (Option-cases (w.files cfg.installed_path)) [
    | inl e ↦
        rw (backup_current_missing w.files e) (inr (inl (last_state-append idle w.reports _, refl)))
    | inr (old, e) ↦
        let (still, cases) = backup_current_cases w.files old apart e in
        elim cases [
          | inl (ok, backed, same) ↦
              rw (ok, e)
                (flash-IsSafe m (record w { files = (backup_current cfg ans w.files).0 }) old apart
                  backed (same ∙ f) d t)
          | inr ok ↦ rw (ok, e) (inr (inl (last_state-append idle w.reports _, still)))
        ]
  ]

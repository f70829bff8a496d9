-- ===== src/OtaAgent/Faults.antt =====
-- Where the report of a command does not tell what happened.
use sdv_edge_gateway.Common.{ℕ, ◌≡◌, String, eq_refl, false, Option, some, List, ◌++◌, arith}
use sdv_edge_gateway.Types.{idle, rolled_back}
use sdv_edge_gateway.OtaAgent.FileSystem.{Files, broken, copy_file}
use sdv_edge_gateway.OtaAgent.Digest.{Sha}
use sdv_edge_gateway.OtaAgent.{
  Config, World, Answers, Manifest, report_status, rollback, flash_firmware, flash_stage,
}
use sdv_edge_gateway.OtaAgent.Safety.{AreApart, EndsIn, last_state-append}

module _ {C : Type 0} (sha : Sha C) (cfg : Config) (ans : Answers) (id : String) where
  flash_broken :
      (files : Files) (image old : List ℕ) (left left' : Option (List ℕ))
      → AreApart cfg
      → files cfg.firmware_path ≡ some image
      → files cfg.backup_path ≡ some old
      → ans.flash_copy ≡ broken left
      → ans.rollback_copy ≡ broken left'
      → ((flash_firmware cfg ans files).1 ≡ false)
        × ((flash_firmware cfg ans files).0 cfg.installed_path ≡ left')
  unfolding flash_firmware rollback copy_file
  flash_broken files image old left left' apart f b e e' =
      ground (arith, eq_refl cfg.installed_path)

  -- When the copy of the new image breaks off and the copy of the backup breaks off too,
  -- ROLLED_BACK is reported last, while the installed file is whatever the second copy left there.
  -- (The three paths differ, and the image and the backup exist.)
  rolled_back_untrue :
      (m : Manifest) (w : World) (image old : List ℕ) (left left' : Option (List ℕ))
      → AreApart cfg
      → w.files cfg.firmware_path ≡ some image
      → w.files cfg.backup_path ≡ some old
      → ans.flash_copy ≡ broken left
      → ans.rollback_copy ≡ broken left'
      → EndsIn (flash_stage sha cfg ans id m w) rolled_back
        × ((flash_stage sha cfg ans id m w).files cfg.installed_path ≡ left')
  unfolding flash_stage report_status
  rolled_back_untrue m w image old left left' apart f b e e' =
      let (bad, now) = flash_broken w.files image old left left' apart f b e e' in
      rw bad (last_state-append idle (w.reports ++ _) _, now)

-- ===== src/Tests/OtaAgent.antt =====
-- Updates on a concrete disk.
use sdv_edge_gateway.Common.{
  ℕ, arith, length, take_length, String, inr, ◌==◌, ◌&&◌, ◌≡◌, ◌↔◌, refl, true, Option, none, some,
  List, [], ◌∷◌, ◌++◌,
}
use sdv_edge_gateway.Types.{Command, ota_trigger}
use sdv_edge_gateway.OtaAgent.FileSystem.{copy_file, Files, put, whole, broken}
use sdv_edge_gateway.OtaAgent.Digest.{hex, hex_byte, digest, verify_sha256}
use sdv_edge_gateway.OtaAgent.{
  report_status, run_manifest, precondition_stage, download_stage, verify_stage, backup_stage,
  Config, World, Answers, Manifest, Outcome, parse_manifest, download_firmware, backup_current,
  flash_firmware, check_preconditions, flash_stage, run_command, run,
}
use sdv_edge_gateway.OtaAgent.Safety.{AreApart, manifest_hash, EndsSafely, run_command-EndsSafely}
use sdv_edge_gateway.OtaAgent.Session.{IsAsked, IsOldOr, final_world, run_installs}
use sdv_edge_gateway.OtaAgent.Reports.{EndsLogged, run_command-EndsLogged}
use sdv_edge_gateway.OtaAgent.Hashing.{verify_sha256_iff}
use sdv_edge_gateway.OtaAgent.Succeeds.{AllWell, Installs, run_command-Installs}
use sdv_edge_gateway.OtaAgent.Transfer.{Stdio, Perform, Delivery, curl_write_cb, transferred}
use sdv_edge_gateway.OtaAgent.Delivered.{complete_delivered}
use sdv_edge_gateway.Tests.Instances.{text_json, list_sha, list_sha-IsStreaming}

abbrev pub cfg : Config
cfg = record {
  uin = "UIN1";
  firmware_path = "firmware";
  backup_path = "backup";
  installed_path = "installed";
}

cfg-AreApart : AreApart cfg
cfg-AreApart = record {
  firmware_installed = refl;
  backup_installed = refl;
  installed_backup = refl;
  backup_firmware = refl;
}

-- All goes well, and the server sends the bytes 1 and 255.
abbrev pub all_well : Answers
all_well = record {
  space = some 200000000;
  curl_init = true;
  can_write = true;
  body = 1 ∷ 255 ∷ [];
  curl_ok = true;
  http_code = 200;
  remove_ok = true;
  backup_copy = whole;
  flash_copy = whole;
  rollback_copy = whole;
}

abbrev half_copied : Answers
half_copied = record all_well {
  flash_copy = broken (some (1 ∷ []));
  rollback_copy = broken (some (9 ∷ []));
}

abbrev pub disk : Files
disk = put (λ path. none) "installed" (some (9 ∷ 9 ∷ []))

abbrev ready_disk : Files
ready_disk = put (put disk "backup" (some (9 ∷ 9 ∷ []))) "firmware" (some (1 ∷ 255 ∷ []))

abbrev world : World
world = record { files = disk; reports = [] }

abbrev update_command : Command
update_command = record { type = ota_trigger; correlation_id = "id1"; payload_json = "update" }

abbrev manifest : Manifest
manifest = record { url = "update"; sha256 = "01ff"; version = "update" }

run_command-EndsSafely_example :
    EndsSafely list_sha cfg all_well "id1"
      (some (9 ∷ 9 ∷ []))
      (manifest_hash (parse_manifest text_json "update"))
      (run_command text_json list_sha cfg all_well update_command world)
run_command-EndsSafely_example =
    run_command-EndsSafely text_json list_sha cfg all_well update_command world cfg-AreApart

abbrev rounds : List (Option Command × Answers)
rounds = (none, all_well) ∷ (some update_command, all_well) ∷ []

run_installs_example :
    IsOldOr text_json list_sha cfg
      (λ hash. IsAsked text_json list_sha cfg hash rounds)
      (some (9 ∷ 9 ∷ []))
      ((final_world (run text_json list_sha cfg world rounds)).files "installed")
run_installs_example =
    run_installs text_json list_sha cfg world rounds cfg-AreApart (refl, (refl, tt))

run_command-EndsLogged_example :
    EndsLogged "id1" [] (run_command text_json list_sha cfg all_well update_command world)
run_command-EndsLogged_example =
    run_command-EndsLogged text_json list_sha cfg all_well update_command world

verify_sha256_iff_example :
    (verify_sha256 list_sha ready_disk "firmware" "01ff" ≡ true)
    ↔ ((file : List ℕ) × (ready_disk "firmware" ≡ some file) × (hex ([] ++ file) ≡ "01ff"))
verify_sha256_iff_example =
    verify_sha256_iff list_sha list_sha-IsStreaming ready_disk "firmware" "01ff"

all_well-AllWell : AllWell all_well
all_well-AllWell = record {
  room = 200000000;
  space = refl;
  enough = omega arith;
  curl_init = refl;
  can_write = refl;
  curl_ok = refl;
  http_code = refl;
  backup_copy = refl;
  flash_copy = refl;
}

run_command-Installs_example :
    Installs list_sha cfg all_well "id1"
      (9 ∷ 9 ∷ [])
      (run_command text_json list_sha cfg all_well update_command world)
unfolding parse_manifest digest hex_byte
run_command-Installs_example =
    run_command-Installs text_json list_sha cfg all_well update_command manifest world (9 ∷ 9 ∷ [])
      cfg-AreApart all_well-AllWell refl refl refl

-- A stream that takes everything, and a server whose file comes in two parts.
abbrev memory : Stdio (List ℕ)
memory = record {
  opened = [];
  fwrite = λ ptr s. (s ++ ptr, length ptr);
  fclose = λ s. (s, true);
  taken = λ s. s;
  taken_opened = refl;
  taken-fwrite = λ ptr s. rw (take_length ptr);
  taken-fclose = λ s e. refl;
}

abbrev two_parts : Perform (List ℕ)
two_parts url write s =
    let (s₁, n₁) = write (1 ∷ []) s in
    let (s₂, n₂) = write (255 ∷ []) s₁ in (s₂, (n₁ == 1) && (n₂ == 1), 200)

abbrev sent : String → List ℕ
sent url = 1 ∷ 255 ∷ []

two_parts-Delivery : Delivery two_parts sent "update" (curl_write_cb memory two_parts) []
unfolding curl_write_cb
two_parts-Delivery = record {
  parts = (1 ∷ []) ∷ (255 ∷ []) ∷ [];
  written = refl;
  whole_or_error = inr ((refl, (refl, tt)), refl);
}

abbrev answered : Answers
answered = transferred memory two_parts "update" all_well

abbrev updated : Outcome
updated = run_command text_json list_sha cfg answered update_command world

complete_delivered_example :
    ((final_world updated).files "installed" ≡ some (1 ∷ 255 ∷ []))
    × (digest list_sha (1 ∷ 255 ∷ []) ≡ "01ff")
unfolding parse_manifest run_command run_manifest check_preconditions precondition_stage
    report_status download_stage download_firmware verify_stage verify_sha256 digest hex_byte
    backup_stage backup_current flash_stage flash_firmware copy_file transferred curl_write_cb
complete_delivered_example =
    complete_delivered text_json list_sha cfg memory two_parts sent all_well update_command world
      (final_world updated) cfg-AreApart two_parts-Delivery refl refl refl

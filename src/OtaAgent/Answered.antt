-- ===== src/OtaAgent/Answered.antt =====
-- Each command that the worker takes is answered with a final state.
use sdv_edge_gateway.Common.{
  ℕ, ◌≡◌, ◌≢◌, ◌⊎◌, inl, inr, refl, String, Bool, true, false, Option, none, some, List, [], ◌∷◌,
  ◌++◌, All, Bool-cases, arith,
}
use sdv_edge_gateway.Types.{Command, OtaState}
use sdv_edge_gateway.Json.{JsonOps}
use sdv_edge_gateway.SafeQueue.{delivered?}
use sdv_edge_gateway.OtaAgent.Digest.{Sha, verify_sha256}
use sdv_edge_gateway.OtaAgent.{
  Config, Report, World, Answers, Outcome, done, terminated, Manifest, and_then, report_status,
  check_preconditions, download_firmware, parse_manifest, reject, verify_stage, download_stage,
  precondition_stage, run_manifest, run_command, run,
}
use sdv_edge_gateway.OtaAgent.Reports.{
  IsFinal, Log, nothing, then, EndsLogged, run_command-EndsLogged,
}

-- The commands that the rounds of the worker got.
abbrev pub got_by_agent : List (Option Command × Answers) → List Command
got_by_agent [] = []
got_by_agent ((popped, ans) ∷ rounds) = delivered? popped ++ got_by_agent rounds

-- Among the reports is one of a final state with this identifier.
abbrev pub IsAnswered : String → List Report → Type 0
IsAnswered id [] = ⊥
IsAnswered id (r ∷ rs) = ((r.correlation_id ≡ id) × IsFinal r.status.state) ⊎ IsAnswered id rs

IsAnswered-before :
    (id : String) (rs more : List Report) → IsAnswered id rs → IsAnswered id (rs ++ more)
IsAnswered-before id [] more h = absurd h
IsAnswered-before id (r ∷ rs) more (inl h) = inl h
IsAnswered-before id (r ∷ rs) more (inr h) = inr (IsAnswered-before id rs more h)

IsAnswered-after :
    (id : String) (rs more : List Report) → IsAnswered id more → IsAnswered id (rs ++ more)
IsAnswered-after id [] more h = h
IsAnswered-after id (r ∷ rs) more h = inr (IsAnswered-after id rs more h)

Log-IsAnswered :
    (id : String) (before : List Report) {s : OtaState} {rs : List Report}
    → Log id before s rs
    → IsFinal s
    → IsAnswered id rs
Log-IsAnswered id before nothing f = elim f [ ]
Log-IsAnswered id before (then {rs = rs} l status follows) f =
    IsAnswered-after id rs _ (inl (refl, f))

-- What was answered stays so.
Log-keeps :
    (id id' : String) (before : List Report) {s : OtaState} {rs : List Report}
    → Log id before s rs
    → IsAnswered id' before
    → IsAnswered id' rs
Log-keeps id id' before nothing h = h
Log-keeps id id' before (then {rs = rs} l status follows) h =
    IsAnswered-before id' rs _ (Log-keeps id id' before l h)

-- What holds when the loop goes on; if an exception has ended the process, nothing is said.
abbrev pub WhenDone : (World → Type 0) → Outcome → Type 0
WhenDone P (done w) = P w
WhenDone P (terminated w) = Unit {0}

-- All of these were answered, and so is still what was so before.
abbrev pub AreAnswered : List Command → World → World → Type 0
AreAnswered cmds w w' =
    All (λ (cmd : Command). IsAnswered cmd.correlation_id w'.reports) cmds
    × ((id : String) → IsAnswered id w.reports → IsAnswered id w'.reports)

-- The two calls of std::filesystem that may throw uncaught do not.
pub record IsUnharmed (ans : Answers) : Type 0 where
  pub space_known : ans.space ≢ none
  pub removed : ans.remove_ok ≡ true

module _ {C : Type 0} (sha : Sha C) (cfg : Config) (ans : Answers) (id : String)
    (safe : IsUnharmed ans) where
  Returns : Outcome → Type 0
  Returns o = (w : World) × (o ≡ done w)

  reject-Returns : (w : World) → Returns (reject sha cfg ans id w)
  unfolding Returns reject
  reject-Returns w = rw safe.removed (_, refl)

  verify-Returns : (m : Manifest) (w : World) → Returns (verify_stage sha cfg ans id m w)
  unfolding Returns verify_stage report_status
  verify-Returns m w = elim (Bool-cases (verify_sha256 sha w.files cfg.firmware_path m.sha256)) [
    | inl ok ↦ rw ok (_, refl)
    | inr bad ↦ rw bad (reject-Returns _)
  ]

  download-Returns : (m : Manifest) (w : World) → Returns (download_stage sha cfg ans id m w)
  unfolding Returns download_stage report_status
  download-Returns m w = elim (Bool-cases (download_firmware cfg ans w.files).1) [
    | inl ok ↦ rw ok (verify-Returns m _)
    | inr bad ↦ rw bad (_, refl)
  ]

  precondition-Returns :
      (checked : Option Bool) (m : Manifest) (w : World)
      → checked ≢ none
      → Returns (precondition_stage sha cfg ans id checked m w)
  unfolding Returns precondition_stage report_status
  precondition-Returns none m w h = absurd (h refl)
  precondition-Returns (some true) m w h = download-Returns m w
  precondition-Returns (some false) m w h = (_, refl)

  checked_lem : (space : Option ℕ) → ans.space ≡ space → check_preconditions ans ≢ none
  unfolding check_preconditions
  checked_lem none e = absurd (safe.space_known e)
  checked_lem (some n) e = λ h. ground (arith, e, h)

  run_manifest-Returns :
      (o : Option Manifest) (w : World) → Returns (run_manifest sha cfg ans id o w)
  unfolding Returns run_manifest
  run_manifest-Returns none w = (_, refl)
  run_manifest-Returns (some m) w = precondition-Returns _ m _ (checked_lem ans.space refl)

module _ {J : Type 0} (json : JsonOps J) {C : Type 0} (sha : Sha C) (cfg : Config) where
  -- A command does not end the process, if the calls that may throw do not.
  pub run_command-Returns :
      (ans : Answers) (cmd : Command) (w : World)
      → IsUnharmed ans
      → (w' : World) × (run_command json sha cfg ans cmd w ≡ done w')
  unfolding run_command Returns
  run_command-Returns ans cmd w safe =
      run_manifest-Returns sha cfg ans cmd.correlation_id safe
        (parse_manifest json cmd.payload_json) w

  outcome-AreAnswered :
      (cmd : Command) (w : World) (o : Outcome)
      → EndsLogged cmd.correlation_id w.reports o
      → WhenDone (AreAnswered (cmd ∷ []) w) o
  outcome-AreAnswered cmd w (terminated w') h = tt
  outcome-AreAnswered cmd w (done w') (s, final, log) = (
    (Log-IsAnswered cmd.correlation_id w.reports log final, tt),
    λ id. Log-keeps cmd.correlation_id id w.reports log,
  )

  AreAnswered-then :
      (cmd : Command) (cmds : List Command) (w w' : World) (o : Outcome)
      → AreAnswered (cmd ∷ []) w w'
      → WhenDone (AreAnswered cmds w') o
      → WhenDone (AreAnswered (cmd ∷ cmds) w) o
  AreAnswered-then cmd cmds w w' (terminated w'') h k = tt
  AreAnswered-then cmd cmds w w' (done w'') h k =
      ((k.1 cmd.correlation_id h.0.0, k.0), λ id before. k.1 id (h.1 id before))

  and_then-AreAnswered :
      (cmd : Command) (cmds : List Command) (w : World) (o : Outcome) (next : World → Outcome)
      → WhenDone (AreAnswered (cmd ∷ []) w) o
      → ((w' : World) → WhenDone (AreAnswered cmds w') (next w'))
      → WhenDone (AreAnswered (cmd ∷ cmds) w) (and_then o next)
  and_then-AreAnswered cmd cmds w (terminated w') next h k = tt
  and_then-AreAnswered cmd cmds w (done w') next h k =
      AreAnswered-then cmd cmds w w' (next w') h (k w')

  -- Unless an exception has ended the process, the worker has answered each command that it took: among
  -- the reports is one with the command's identifier and the state COMPLETE, FAILED or ROLLED_BACK, and
  -- no answer from before is lost.
  pub run-AreAnswered :
      (w : World) (rounds : List (Option Command × Answers))
      → WhenDone (AreAnswered (got_by_agent rounds) w) (run json sha cfg w rounds)
  unfolding run
  run-AreAnswered w [] = (tt, λ id before. before)
  run-AreAnswered w ((none, ans) ∷ rounds) = run-AreAnswered w rounds
  run-AreAnswered w ((some cmd, ans) ∷ rounds) =
      and_then-AreAnswered cmd (got_by_agent rounds) w (run_command json sha cfg ans cmd w) _
        (outcome-AreAnswered cmd w _ (run_command-EndsLogged json sha cfg ans cmd w))
        (λ w'. run-AreAnswered w' rounds)

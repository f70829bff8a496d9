-- ===== src/OtaAgent/Session.antt =====
-- What can be installed over a whole session of the worker.
use sdv_edge_gateway.Common.{
  ℕ, ◌≡◌, ◌⊎◌, inl, inr, refl, ◌∙◌, String, Option, none, some, List, [], ◌∷◌, All,
}
use sdv_edge_gateway.Types.{Command}
use sdv_edge_gateway.Json.{JsonOps}
use sdv_edge_gateway.OtaAgent.FileSystem.{whole}
use sdv_edge_gateway.OtaAgent.Digest.{Sha, digest}
use sdv_edge_gateway.OtaAgent.{
  Config, World, Answers, Outcome, done, terminated, and_then, parse_manifest, run_command, run,
}
use sdv_edge_gateway.OtaAgent.Safety.{AreApart, manifest_hash, EndsSafely, run_command-EndsSafely}

-- The copy back from the backup would succeed in a round.
abbrev pub CanRollBack : Option Command × Answers → Type 0
CanRollBack (popped, ans) = ans.rollback_copy ≡ whole

abbrev pub final_world : Outcome → World
final_world (done w) = w
final_world (terminated w) = w

module _ {J : Type 0} (json : JsonOps J) {C : Type 0} (sha : Sha C) (cfg : Config) where
  -- A hash is the one that some command of the session gives in its manifest.
  abbrev pub IsAsked : String → List (Option Command × Answers) → Type 0
  IsAsked hash [] = ⊥
  IsAsked hash ((none, ans) ∷ rounds) = IsAsked hash rounds
  IsAsked hash ((some cmd, ans) ∷ rounds) =
      (hash ≡ manifest_hash (parse_manifest json cmd.payload_json)) ⊎ IsAsked hash rounds

  -- The installed file is the old one, or an image with a digest from the list `asked`.
  abbrev pub IsOldOr : (String → Type 0) → (old now : Option (List ℕ)) → Type 0
  IsOldOr asked old now =
      (now ≡ old) ⊎ ((image : List ℕ) × (now ≡ some image) × asked (digest sha image))

  ends-IsOldOr :
      (ans : Answers) (id hash : String) (old : Option (List ℕ)) (o : Outcome)
      → ans.rollback_copy ≡ whole
      → EndsSafely sha cfg ans id old hash o
      → IsOldOr (λ h. h ≡ hash) old ((final_world o).files cfg.installed_path)
  ends-IsOldOr ans id hash old (done w) back (inl (_, _, e, d)) = inr (ans.body, e, d)
  ends-IsOldOr ans id hash old (done w) back (inr (inl (_, e))) = inl e
  ends-IsOldOr ans id hash old (done w) back (inr (inr (_, inl fails))) = absurd (fails back)
  ends-IsOldOr ans id hash old (done w) back (inr (inr (_, inr e))) = inl e
  ends-IsOldOr ans id hash old (terminated w) back e = inl e

  IsOldOr-trans :
      (hash : String) (asked : String → Type 0) (old middle new : Option (List ℕ))
      → IsOldOr (λ h. h ≡ hash) old middle
      → IsOldOr asked middle new
      → IsOldOr (λ h. (h ≡ hash) ⊎ asked h) old new
  IsOldOr-trans hash asked old middle new first (inr (image, e, a)) = inr (image, e, inr a)
  IsOldOr-trans hash asked old middle new (inl f) (inl e) = inl (e ∙ f)
  IsOldOr-trans hash asked old middle new (inr (image, f, a)) (inl e) = inr (image, e ∙ f, inl a)

  IsOldOr-then :
      (hash : String) (asked : String → Type 0) (old : Option (List ℕ)) (o : Outcome)
      (next : World → Outcome)
      → IsOldOr (λ h. h ≡ hash) old ((final_world o).files cfg.installed_path)
      → ((w : World)
          → IsOldOr asked
              (w.files cfg.installed_path)
              ((final_world (next w)).files cfg.installed_path))
      → IsOldOr
          (λ h. (h ≡ hash) ⊎ asked h)
          old
          ((final_world (and_then o next)).files cfg.installed_path)
  IsOldOr-then hash asked old (done w) next first step =
      IsOldOr-trans hash asked old (w.files cfg.installed_path) _ first (step w)
  IsOldOr-then hash asked old (terminated w) next (inl e) step = inl e
  IsOldOr-then hash asked old (terminated w) next (inr (image, e, a)) step = inr (image, e, inl a)

  -- Whatever is downloaded, and however the network and the disk behave: at the end of a session
  -- the installed file is what it was at the start, or an image whose SHA-256 digest is the one in
  -- the manifest of a command of that session, also when an uncaught exception ended the session;
  -- provided that each copy back from the backup would succeed, and that the three paths differ.
  pub run_installs :
      (w : World) (rounds : List (Option Command × Answers))
      → AreApart cfg
      → All CanRollBack rounds
      → IsOldOr
          (λ hash. IsAsked hash rounds)
          (w.files cfg.installed_path)
          ((final_world (run json sha cfg w rounds)).files cfg.installed_path)
  unfolding run
  run_installs w [] apart back = inl refl
  run_installs w ((none, ans) ∷ rounds) apart back = run_installs w rounds apart back.1
  run_installs w ((some cmd, ans) ∷ rounds) apart back =
      IsOldOr-then (manifest_hash (parse_manifest json cmd.payload_json))
        (λ hash. IsAsked hash rounds) (w.files cfg.installed_path)
        (run_command json sha cfg ans cmd w) (λ w'. run json sha cfg w' rounds)
        (ends-IsOldOr ans cmd.correlation_id _ (w.files cfg.installed_path) _ back.0
          (run_command-EndsSafely json sha cfg ans cmd w apart))
        (λ w'. run_installs w' rounds apart back.1)

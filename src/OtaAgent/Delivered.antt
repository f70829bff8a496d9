-- ===== src/OtaAgent/Delivered.antt =====
-- What a COMPLETE tells of the file that the server sent.
use sdv_edge_gateway.Common.{
  ℕ, ◌≡◌, inl, inr, sym, ap, ◌∙◌, subst, String, true, Option, none, some, List, arith,
}
use sdv_edge_gateway.Types.{Command, complete}
use sdv_edge_gateway.Json.{JsonOps}
use sdv_edge_gateway.OtaAgent.Digest.{Sha, digest}
use sdv_edge_gateway.OtaAgent.{Config, World, Answers, done, Manifest, parse_manifest, run_command}
use sdv_edge_gateway.OtaAgent.Safety.{
  AreApart, EndsIn, manifest_hash, EndsSafely, run_command-EndsSafely,
}
use sdv_edge_gateway.OtaAgent.Transfer.{
  Stdio, Perform, Delivery, curl_write_cb, performed, transferred, transferred-sent,
}

abbrev pub manifest_url : Option Manifest → String
manifest_url none = ""
manifest_url (some m) = m.url

module _ {J : Type 0} (json : JsonOps J) {C : Type 0} (sha : Sha C) (cfg : Config) {S : Type 0}
    (io : Stdio S) (perform : Perform S) where
  EndsSafely-complete :
      (ans : Answers) (id hash : String) (old : Option (List ℕ)) (w : World)
      → EndsSafely sha cfg ans id old hash (done w)
      → EndsIn w complete
      → (ans.curl_ok ≡ true)
        × (w.files cfg.installed_path ≡ some ans.body)
        × (digest sha ans.body ≡ hash)
  EndsSafely-complete ans id hash old w (inl (_, t, e, d)) c = (t.0, e, d)
  EndsSafely-complete ans id hash old w (inr (inl (f, _))) c = absurd (ground (arith, sym c ∙ f))
  EndsSafely-complete ans id hash old w (inr (inr (r, _))) c = absurd (ground (arith, sym c ∙ r))

  -- With libcurl and the streams as documented: if a round ends with COMPLETE reported last, and the
  -- downloaded file was closed without an error, then the installed file is what the server sent for
  -- the manifest's URL, byte by byte, and its digest is the manifest's. (The three paths differ.)
  pub complete_delivered :
      (sent : String → List ℕ) (ans : Answers) (cmd : Command) (w w' : World)
      → AreApart cfg
      → let m = parse_manifest json cmd.payload_json in
        Delivery perform sent (manifest_url m) (curl_write_cb io perform) io.opened
        → (io.fclose (performed io perform (manifest_url m)).0).1 ≡ true
        → run_command json sha cfg (transferred io perform (manifest_url m) ans) cmd w ≡ done w'
        → EndsIn w' complete
        → (w'.files cfg.installed_path ≡ some (sent (manifest_url m)))
          × (digest sha (sent (manifest_url m)) ≡ manifest_hash m)
  complete_delivered sent ans cmd w w' apart d closed e c =
      let m = parse_manifest json cmd.payload_json in
      let ans' = transferred io perform (manifest_url m) ans in
      let old = w.files cfg.installed_path in
      let (ok, f, h) =
        EndsSafely-complete ans' cmd.correlation_id (manifest_hash m) old w'
          (subst (EndsSafely sha cfg ans' cmd.correlation_id old (manifest_hash m)) e
            (run_command-EndsSafely json sha cfg ans' cmd w apart))
          c in
      let same = transferred-sent io perform (manifest_url m) sent ans d ok closed in
      (f ∙ ap some same, ap (digest sha) (sym same) ∙ h)

-- ===== src/OtaAgent/Transfer.antt =====
-- curl_write_cb of src/gateway/ota_agent.cpp, and what download_firmware relies on of libcurl and of
-- the streams of <cstdio>.
use sdv_edge_gateway.Common.{
  ℕ, ◌≡◌, ◌⊎◌, inl, inr, sym, ap, ◌∙◌, String, Bool, true, false, List, [], ◌∷◌, ◌++◌, append-nil,
  append_assoc, arith, length, take, take_length, concat,
}
use sdv_edge_gateway.OtaAgent.{Answers}

-- A stream open for writing: fwrite answers how many of the bytes it took, and fclose whether what
-- was taken is in the file; if it is not, anything may be.
pub record Stdio (S : Type 0) : Type 0 where
  pub opened : S
  pub fwrite : List ℕ → S → S × ℕ
  pub fclose : S → List ℕ × Bool
  pub taken : S → List ℕ
  pub taken_opened : taken opened ≡ []
  pub taken-fwrite :
      (ptr : List ℕ) (s : S) → taken (fwrite ptr s).0 ≡ taken s ++ take (fwrite ptr s).1 ptr
  pub taken-fclose : (s : S) → (fclose s).1 ≡ true → (fclose s).0 ≡ taken s

-- curl_easy_perform with the URL, the write function and its stream: the stream afterwards, whether
-- CURLE_OK was returned, and the response code.
abbrev pub Perform : Type 0 → Type 0
Perform S = String → (List ℕ → S → S × ℕ) → S → S × Bool × ℕ

module _ {S : Type 0} (io : Stdio S) (perform : Perform S) where
  -- `size` is always 1.
  unfoldable pub curl_write_cb : List ℕ → S → S × ℕ
  curl_write_cb ptr stream = io.fwrite ptr stream

  abbrev pub performed : String → S × Bool × ℕ
  performed url = perform url curl_write_cb io.opened

  -- The answers of a transfer: the result of fclose is not looked at.
  unfoldable pub transferred : String → Answers → Answers
  transferred url ans =
      let (stream, ok, http_code) = performed url in
      record ans { body = (io.fclose stream).0; curl_ok = ok; http_code = http_code }

module _ {S : Type 0} where
  -- The write function is called for one part after the other, and takes all of each.
  abbrev pub write_all : (List ℕ → S → S × ℕ) → List (List ℕ) → S → S
  write_all write [] s = s
  write_all write (ptr ∷ ptrs) s = write_all write ptrs (write ptr s).0

  abbrev pub AllTaken : (List ℕ → S → S × ℕ) → List (List ℕ) → S → Type 0
  AllTaken write [] s = Unit {0}
  AllTaken write (ptr ∷ ptrs) s =
      ((write ptr s).1 ≡ length ptr) × AllTaken write ptrs (write ptr s).0

  -- What the documentation of libcurl says: it hands the body to the write function in parts, and a
  -- part that is not taken whole is an error.
  pub record Delivery (perform : Perform S) (sent : String → List ℕ) (url : String)
      (write : List ℕ → S → S × ℕ) (s : S) : Type 0 where
    pub parts : List (List ℕ)
    pub written : (perform url write s).0 ≡ write_all write parts s
    pub whole_or_error :
        ((perform url write s).1 ≡ false) ⊎ (AllTaken write parts s × (concat parts ≡ sent url))

module _ {S : Type 0} (io : Stdio S) (perform : Perform S) where
  write_all-taken :
      (parts : List (List ℕ)) (s : S)
      → AllTaken (curl_write_cb io perform) parts s
      → io.taken (write_all (curl_write_cb io perform) parts s) ≡ io.taken s ++ concat parts
  unfolding curl_write_cb
  write_all-taken [] s all = sym (append-nil (io.taken s))
  write_all-taken (ptr ∷ parts) s (n, all) =
      write_all-taken parts (io.fwrite ptr s).0 all
      ∙ ap (λ l. l ++ concat parts)
          (io.taken-fwrite ptr s
            ∙ ap (λ k. io.taken s ++ take k ptr) n
            ∙ ap (λ l. io.taken s ++ l) (take_length ptr))
      ∙ append_assoc (io.taken s) ptr (concat parts)

  -- A transfer that libcurl ends without an error, and whose file is closed without one, leaves
  -- what the server sent.
  pub transferred-sent :
      (url : String) (sent : String → List ℕ) (ans : Answers)
      → Delivery perform sent url (curl_write_cb io perform) io.opened
      → (transferred io perform url ans).curl_ok ≡ true
      → (io.fclose (performed io perform url).0).1 ≡ true
      → (transferred io perform url ans).body ≡ sent url
  unfolding transferred
  transferred-sent url sent ans d ok closed = elim d.whole_or_error [
    | inl e ↦ absurd (ground (arith, e, ok))
    | inr (all, e) ↦
        io.taken-fclose _ closed
        ∙ ap io.taken d.written
        ∙ write_all-taken d.parts io.opened all
        ∙ ap (λ l. l ++ concat d.parts) io.taken_opened
        ∙ e
  ]

-- ===== src/OtaAgent/Hashing.antt =====
-- The chunked digest against the digest of the whole file, and the hexadecimal text.
use Prim.Native.String.{count}
use text.Mathlib.TextLemmas.{length-append, append_inj}
use sdv_edge_gateway.Common.{
  ℕ, zero, suc, ◌/◌, ◌%◌, ◌<◌, ◌≡◌, ◌↔◌, refl, sym, ap, ap₂, ◌∙◌, inl, inr, String, str_eq, eq_iff,
  Bool, true, ◌&&◌, some, List, [], ◌∷◌, ◌++◌, arith, length, take, drop, get_or, All, ◌==◌,
  take-append-drop, length-drop, if◌then◌else◌, Option-cases, Bool-cases, ◌⊎◌, subst,
}
use sdv_edge_gateway.Common.Bits.{IsByte}
use sdv_edge_gateway.OtaAgent.FileSystem.{Files}
use sdv_edge_gateway.OtaAgent.Digest.{
  Sha, hex_digits, hex_byte, hex, digest_loop, digest, verify_sha256, chunk_size,
}

-- What OpenSSL documents of EVP_DigestUpdate: it may be called repeatedly, and digests the
-- concatenation of what it was given.
pub record IsStreaming {C : Type 0} (sha : Sha C) : Type 0 where
  pub update-nil : (c : C) → sha.update c [] ≡ c
  pub update-append :
      (c : C) (xs ys : List ℕ) → sha.update (sha.update c xs) ys ≡ sha.update c (xs ++ ys)

module _ {C : Type 0} (sha : Sha C) (streaming : IsStreaming sha) where
  digest_loop_lem :
      (n fuel : ℕ) (c : C) (file : List ℕ)
      → 0 < n
      → length file < fuel
      → digest_loop sha n fuel c file ≡ sha.update c file
  unfolding digest_loop
  digest_loop_lem n zero c file pos enough = absurd (omega arith)
  digest_loop_lem n (suc fuel) c [] pos enough = sym (streaming.update-nil c)
  digest_loop_lem n (suc fuel) c (b ∷ rest) pos enough =
      digest_loop_lem n fuel (sha.update c (take n (b ∷ rest))) (drop n (b ∷ rest)) pos
        (omega (arith, length-drop n (b ∷ rest)))
      ∙ streaming.update-append c (take n (b ∷ rest)) (drop n (b ∷ rest))
      ∙ ap (sha.update c) (take-append-drop n (b ∷ rest))

  digest_lem : (file : List ℕ) → digest sha file ≡ hex (sha.final (sha.update sha.init file))
  unfolding digest
  digest_lem file =
      ap (λ c. hex (sha.final c))
        (digest_loop_lem chunk_size (suc (length file)) sha.init file (omega arith) (omega arith))

  -- The check passes exactly when the downloaded file exists and the digest of its whole content,
  -- in lower-case hexadecimal, is the text of the manifest: for a digest whose updates add up, the
  -- reads of 64 KB make no difference.
  pub verify_sha256_iff :
      (files : Files) (path expected : String)
      → (verify_sha256 sha files path expected ≡ true) ↔ (
          (file : List ℕ) × (files path ≡ some file)
          × (hex (sha.final (sha.update sha.init file)) ≡ expected))
  unfolding verify_sha256
  verify_sha256_iff files path expected = (there, back)
    where
      there :
          verify_sha256 sha files path expected ≡ true
          → (file : List ℕ) × (files path ≡ some file)
            × (hex (sha.final (sha.update sha.init file)) ≡ expected)
      there h = elim (Option-cases (files path)) [
        | inl e ↦ absurd (ground arith)
        | inr (file, e) ↦
            (file, e, sym (digest_lem file) ∙ (eq_iff _ expected).0 (rw (e, verify_sha256) at h))
      ]

      back :
          (file : List ℕ) × (files path ≡ some file)
            × (hex (sha.final (sha.update sha.init file)) ≡ expected)
          → verify_sha256 sha files path expected ≡ true
      back (file, e, same) = rw (e, verify_sha256) ((eq_iff _ expected).1 (digest_lem file ∙ same))

-- A digit's place among `hex_digits`, to read it back.
place : String → List String → ℕ
place s [] = 0
place s (d ∷ ds) = if str_eq s d then 0 else suc (place s ds)

abbrev digit : ℕ → String
digit n = get_or hex_digits n ""

lt_or_eq : (n limit : ℕ) → n < suc limit → (n < limit) ⊎ (n ≡ limit)
lt_or_eq n limit h = ground arith

-- A digit stands at its own place among the sixteen, and is one character long.
is_hex : ℕ → Bool
is_hex n = (place (digit n) hex_digits == n) && (count (digit n) == 1)

are_hex : ℕ → Bool
unfolding is_hex
are_hex zero = true
are_hex (suc limit) = are_hex limit && is_hex limit

sixteen_digits : are_hex 16 ≡ true
unfolding are_hex place
sixteen_digits = refl

is_hex-lt : (n limit : ℕ) → n < limit → are_hex limit ≡ true → is_hex n ≡ true
unfolding are_hex
is_hex-lt n zero below e = absurd (omega arith)
is_hex-lt n (suc limit) below e = elim (Bool-cases (are_hex limit)) [
  | inl good ↦ elim (lt_or_eq n limit (omega arith)) [
    | inl under ↦ is_hex-lt n limit under good
    | inr same ↦ subst (λ k. is_hex k ≡ true) (sym same) (ground arith)
  ]
  | inr bad ↦ absurd (ground arith)
]

place-digit : (n : ℕ) → n < 16 → place (digit n) hex_digits ≡ n
unfolding is_hex
place-digit n h = ground (arith, is_hex-lt n 16 h sixteen_digits)

count-digit : (n : ℕ) → n < 16 → count (digit n) ≡ 1
unfolding is_hex
count-digit n h = ground (arith, is_hex-lt n 16 h sixteen_digits)

digit-injective : (m n : ℕ) → m < 16 → n < 16 → digit m ≡ digit n → m ≡ n
digit-injective m n h k e = sym (place-digit m h) ∙ ap (λ s. place s hex_digits) e ∙ place-digit n k

count-hex_byte : (b : ℕ) → IsByte b → count (hex_byte b) ≡ 2
unfolding hex_byte
count-hex_byte b h = omega (
  arith,
  length-append (digit (b / 16)) (digit (b % 16)),
  count-digit (b / 16),
  count-digit (b % 16),
)

hex_byte-injective : (a b : ℕ) → IsByte a → IsByte b → hex_byte a ≡ hex_byte b → a ≡ b
unfolding hex_byte
hex_byte-injective a b h k e =
    let width : count (digit (a / 16)) ≡ count (digit (b / 16)) =
      count-digit (a / 16) (omega arith) ∙ sym (count-digit (b / 16) (omega arith)) in
    let (high, low) = append_inj e width in
    omega (
      arith,
      digit-injective (a / 16) (b / 16) (omega arith) (omega arith) high,
      digit-injective (a % 16) (b % 16) (omega arith) (omega arith) low,
    )

-- Two lists of bytes are equal if their hexadecimal texts are.
pub hex-injective : (xs ys : List ℕ) → All IsByte xs → All IsByte ys → hex xs ≡ hex ys → xs ≡ ys
unfolding hex
hex-injective [] [] h k e = refl
hex-injective [] (y ∷ ys) h k e =
    absurd (omega (arith, ap count e, length-append (hex_byte y) (hex ys), count-hex_byte y k.0))
hex-injective (x ∷ xs) [] h k e =
    absurd (omega (arith, ap count e, length-append (hex_byte x) (hex xs), count-hex_byte x h.0))
hex-injective (x ∷ xs) (y ∷ ys) h k e =
    let width : count (hex_byte x) ≡ count (hex_byte y) =
      count-hex_byte x h.0 ∙ sym (count-hex_byte y k.0) in
    let (first, rest) = append_inj e width in
    ap₂ ◌∷◌ (hex_byte-injective x y h.0 k.0 first) (hex-injective xs ys h.1 k.1 rest)

-- ===== src/OtaAgent/Digest.antt =====
-- OtaAgent::verify_sha256: the digest of a file, read in chunks, as lower-case hexadecimal.
-- OpenSSL's digest context is the parameter `sha`.
use sdv_edge_gateway.Common.{
  ℕ, zero, suc, ◌/◌, ◌%◌, String, ◌<>◌, str_eq, Bool, false, none, some, List, [], ◌∷◌, length,
  take, drop, get_or,
}
use sdv_edge_gateway.OtaAgent.FileSystem.{Files}

-- EVP_DigestInit_ex, EVP_DigestUpdate and EVP_DigestFinal_ex.
pub record Sha (C : Type 0) : Type 0 where
  pub init : C
  pub update : C → List ℕ → C
  pub final : C → List ℕ

abbrev pub chunk_size : ℕ
chunk_size = 65536

abbrev pub hex_digits : List String
hex_digits =
    "0" ∷ "1" ∷ "2" ∷ "3" ∷ "4" ∷ "5" ∷ "6" ∷ "7" ∷ "8" ∷ "9" ∷ "a" ∷ "b" ∷ "c" ∷ "d" ∷ "e" ∷ "f"
    ∷ []

-- One byte under std::hex, std::setw(2), std::setfill('0').
unfoldable pub hex_byte : ℕ → String
hex_byte b = get_or hex_digits (b / 16) "" <> get_or hex_digits (b % 16) ""

unfoldable pub hex : List ℕ → String
hex [] = ""
hex (b ∷ bs) = hex_byte b <> hex bs

module _ {C : Type 0} (sha : Sha C) where
  -- The `while` loop: a read of up to `n` bytes that yields none ends it. The fuel is one more than
  -- the bytes that are left.
  unfoldable pub digest_loop : (n fuel : ℕ) → C → List ℕ → C
  digest_loop n zero ctx file = ctx
  digest_loop n (suc fuel) ctx [] = ctx
  digest_loop n (suc fuel) ctx (b ∷ rest) =
      digest_loop n fuel (sha.update ctx (take n (b ∷ rest))) (drop n (b ∷ rest))

  unfoldable pub digest : List ℕ → String
  unfolding digest_loop hex
  digest file = hex (sha.final (digest_loop chunk_size (suc (length file)) sha.init file))

  unfoldable pub verify_sha256 : Files → String → String → Bool
  verify_sha256 files firmware_path expected_hash = elim (files firmware_path) [
    | none ↦ false
    | some file ↦ str_eq (digest file) expected_hash
  ]

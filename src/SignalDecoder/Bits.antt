-- ===== src/SignalDecoder/Bits.antt =====
-- The bit loop and the sign extension against plain arithmetic.
use native.Mathlib.Numerals.{add-one}
use native.Mathlib.Nat.{
  mod-one, div-eq_of_lt, div-eq_of_lt-le, mod-add-div, pow-suc, pow-le-pow_right,
}
use native.Mathlib.Decide.{dec_lt}
use Prim.Native.Nat.{min}
use sdv_edge_gateway.Common.{
  ℕ, zero, suc, ◌+◌, ◌-◌, ◌*◌, ◌/◌, ◌%◌, ◌^◌, ◌≤◌, ◌<◌, ◌≡◌, ◌⊎◌, sym, ap, ◌∙◌, inl, inr, arith,
  leb, ltb, leb→le, ◌==◌, if◌then◌else◌, get_or, All, Bool-cases,
}
use sdv_edge_gateway.Common.Int.{ℤ, pos, negsuc}
use sdv_edge_gateway.Common.Bits.{
  IsByte, le_number, le_number-bit, mod-pow-suc, shift_twice, pow-pos,
}
use sdv_edge_gateway.Types.{CanFrame}
use sdv_edge_gateway.SignalDecoder.{extract, sign_extend}

-- What the frame says of the bits from `start` on, as one number.
abbrev pub field : CanFrame → ℕ → ℕ
field frame start = le_number frame.bytes / 2 ^ start

bit_of_field :
    (frame : CanFrame) (start i : ℕ)
    → All IsByte frame.bytes
    → get_or frame.bytes ((start + i) / 8) 0 / 2 ^ ((start + i) % 8) % 2
      ≡ field frame start / 2 ^ i % 2
bit_of_field frame start i b =
    sym (le_number-bit frame.bytes (start + i) b)
    ∙ ap (λ (t : ℕ). t % 2) (sym (shift_twice (le_number frame.bytes) start i))

next_raw :
    (x i bit raw : ℕ)
    → bit ≡ x / 2 ^ i % 2
    → raw ≡ x % 2 ^ i
    → (if bit == 1 then raw + 2 ^ i else raw) ≡ x % 2 ^ (i + 1)
next_raw x i zero raw e r =
    omega
      (arith, mod-pow-suc x i, ap (λ (t : ℕ). x % 2 ^ t) (add-one i), ap (λ (t : ℕ). t * 2 ^ i) e)
next_raw x i (suc zero) raw e r =
    omega
      (arith, mod-pow-suc x i, ap (λ (t : ℕ). x % 2 ^ t) (add-one i), ap (λ (t : ℕ). t * 2 ^ i) e)
next_raw x i (suc (suc bit)) raw e r = absurd (omega arith)

extract_from :
    (frame : CanFrame) (start rounds i raw : ℕ)
    → All IsByte frame.bytes
    → start + i + rounds ≤ 256
    → i ≤ 8 * frame.dlc - start
    → raw ≡ field frame start % 2 ^ i
    → extract frame start rounds i raw
      ≡ field frame start % 2 ^ min (i + rounds) (8 * frame.dlc - start)
unfolding extract
extract_from frame start zero i raw b w h r =
    r ∙ ap (λ (t : ℕ). field frame start % 2 ^ t) (omega arith)
extract_from frame start (suc rounds) i raw b w h r =
    let wrap : (start + i) % 256 ≡ start + i = omega arith in
    rw wrap (elim (Bool-cases (leb frame.dlc ((start + i) / 8))) [
      | inl past ↦
          let over : frame.dlc ≤ (start + i) / 8 = leb→le _ _ past in
          let last : i ≡ min (i + suc rounds) (8 * frame.dlc - start) = omega arith in
          rw past (r ∙ ap (λ (t : ℕ). field frame start % 2 ^ t) last)
      | inr inside ↦
          let under : (start + i) / 8 < frame.dlc = ground (arith, inside) in
          let more : i + 1 + rounds ≡ i + suc rounds = omega arith in
          rw inside (
            extract_from frame start rounds (i + 1) _ b (omega arith) (omega arith)
              (next_raw (field frame start) i _ raw (bit_of_field frame start i b) r)
            ∙ ap (λ (t : ℕ). field frame start % 2 ^ min t (8 * frame.dlc - start)) more)
    ])

-- The loop over the bits of a signal, up to bit 255, gives the number that they are in the frame's
-- bytes, read from the lowest byte up, cut off where the frame's data ends.
pub extract_lem :
    (frame : CanFrame) (start len : ℕ)
    → All IsByte frame.bytes
    → start + len ≤ 256
    → extract frame start len 0 0
      ≡ le_number frame.bytes / 2 ^ start % 2 ^ min len (8 * frame.dlc - start)
extract_lem frame start len b w =
    extract_from frame start len 0 0 b (omega arith) (omega arith) (sym (mod-one _))
    ∙ ap (λ (t : ℕ). field frame start % 2 ^ min t (8 * frame.dlc - start)) (omega arith)

-- Two's complement over `len` bits.
abbrev pub twos : ℕ → ℕ → ℤ
twos len raw = if ltb raw (2 ^ (len - 1)) then pos raw else negsuc (2 ^ len - raw - 1)

halves :
    (p raw : ℕ)
    → 0 < p
    → raw < p * 2
    → ((raw < p) × (raw / p ≡ 0)) ⊎ ((p ≤ raw) × (raw / p ≡ 1) × (raw % p + p ≡ raw))
halves p raw pos_p h = elim (dec_lt raw p) [
  | yes below ↦ inl (below, div-eq_of_lt below)
  | no above ↦
      let one : raw / p ≡ 1 = div-eq_of_lt-le {k = 1} p (omega arith) (omega arith) in
      inr (omega arith, one, omega (arith, mod-add-div raw p, ap (λ (t : ℕ). p * t) one))
]

-- For every length from 1 to 64, sign extension reads the raw bits as two's complement over that
-- length.
pub sign_extend_lem :
    (len raw : ℕ) → 1 ≤ len → len ≤ 64 → raw < 2 ^ len → sign_extend len raw ≡ twos len raw
unfolding sign_extend
sign_extend_lem zero raw lo hi h = absurd (omega arith)
sign_extend_lem (suc k) raw lo hi h =
    let double : 2 ^ suc k ≡ 2 ^ k * 2 = pow-suc 2 k in
    let fits : 2 ^ k ≤ 2 ^ 63 = pow-le-pow_right (omega arith) {i = k} {j = 63} (omega arith) in
    let same : suc k - 1 ≡ k = omega arith in
    rw (same, double) (ground (arith, fits, halves (2 ^ k) raw (pow-pos k) (rw double at h)))

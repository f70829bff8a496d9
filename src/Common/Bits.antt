-- ===== src/Common/Bits.antt =====
-- Single bits of a number, and bytes in little-endian order. `x / 2 ^ k % 2` is bit `k` of `x`.
use Prim.Native.Nat.{ℕ, zero, suc, ◌+◌, ◌*◌, ◌/◌, ◌%◌, ◌^◌, ◌<◌}
use mathlib.Core.Path.{◌≡◌, sym, ap, ap₂, ◌∙◌}
use mathlib.Core.List.{List, [], ◌∷◌}
use native.Mathlib.Nat.{
  add-zero, pow-suc, div-div-eq-div-mul, add-mul-mod_self_left, mod-eq_of_lt, div-add-mod, mod-lt,
  zero-div, one-le-pow,
}
use native.Mathlib.Omega.{arith}
use sdv_edge_gateway.Common.Lists.{get_or, All}

pub pow-add : (a b : ℕ) → 2 ^ (a + b) ≡ 2 ^ a * 2 ^ b
pow-add a zero = omega (arith, ap (λ (t : ℕ). 2 ^ t) (add-zero a))
pow-add a (suc b) = omega (
  arith,
  pow-suc 2 (a + b),
  ap (λ (t : ℕ). 2 ^ a * t) (pow-suc 2 b),
  pow-add a b,
  ap (λ (t : ℕ). 2 ^ t) s,
)
  where
    s : a + suc b ≡ suc (a + b)
    s = omega arith

pub pow-pos : (k : ℕ) → 0 < 2 ^ k
pow-pos k = one-le-pow k 2 (omega arith)

pub shift_twice : (x a b : ℕ) → x / 2 ^ a / 2 ^ b ≡ x / 2 ^ (a + b)
shift_twice x a b = div-div-eq-div-mul x (2 ^ a) (2 ^ b) ∙ ap (λ (t : ℕ). x / t) (sym (pow-add a b))

mod-double : (x p : ℕ) → 0 < p → x % (p * 2) ≡ x % p + x / p % 2 * p
mod-double x p h =
    ap (λ (t : ℕ). t % (p * 2)) split
    ∙ add-mul-mod_self_left (x % p + x / p % 2 * p) (p * 2) (x / p / 2)
    ∙ mod-eq_of_lt small
  where
    split : x ≡ x % p + x / p % 2 * p + p * 2 * (x / p / 2)
    split = omega (arith, div-add-mod x p, ap (λ (t : ℕ). p * t) (sym (div-add-mod (x / p) 2)))

    small : x % p + x / p % 2 * p < p * 2
    small = grind (arith, mod-lt x h, mod-lt (x / p) {m = 2} (omega arith))

-- The low bits, one more at a time.
pub mod-pow-suc : (x k : ℕ) → x % 2 ^ suc k ≡ x % 2 ^ k + x / 2 ^ k % 2 * 2 ^ k
mod-pow-suc x k = ap (λ (t : ℕ). x % t) (pow-suc 2 k) ∙ mod-double x (2 ^ k) (pow-pos k)

abbrev pub IsByte : ℕ → Type 0
IsByte b = b < 256

-- The number that the bytes are, the first byte the lowest.
abbrev pub le_number : List ℕ → ℕ
le_number [] = 0
le_number (b ∷ bs) = b + 256 * le_number bs

le_byte : (b n j : ℕ) → b < 256 → (b + 256 * n) / 2 ^ (8 + j) ≡ n / 2 ^ j
le_byte b n j h = sym (shift_twice (b + 256 * n) 8 j) ∙ ap (λ (t : ℕ). t / 2 ^ j) first
  where
    first : (b + 256 * n) / 2 ^ 8 ≡ n
    first = omega arith

pub le_number-bit :
    (bs : List ℕ) (j : ℕ)
    → All IsByte bs
    → le_number bs / 2 ^ j % 2 ≡ get_or bs (j / 8) 0 / 2 ^ (j % 8) % 2
le_number-bit [] j h = rw (zero-div (2 ^ j), zero-div (2 ^ (j % 8)))
le_number-bit (b ∷ bs) zero h = omega arith
le_number-bit (b ∷ bs) (suc zero) h = omega arith
le_number-bit (b ∷ bs) (suc (suc zero)) h = omega arith
le_number-bit (b ∷ bs) (suc (suc (suc zero))) h = omega arith
le_number-bit (b ∷ bs) (suc (suc (suc (suc zero)))) h = omega arith
le_number-bit (b ∷ bs) (suc (suc (suc (suc (suc zero))))) h = omega arith
le_number-bit (b ∷ bs) (suc (suc (suc (suc (suc (suc zero)))))) h = omega arith
le_number-bit (b ∷ bs) (suc (suc (suc (suc (suc (suc (suc zero))))))) h = omega arith
le_number-bit (b ∷ bs) (suc (suc (suc (suc (suc (suc (suc (suc j)))))))) h =
    ap (λ (t : ℕ). (b + 256 * le_number bs) / 2 ^ t % 2) eight
    ∙ ap (λ (t : ℕ). t % 2) (le_byte b (le_number bs) j h.0)
    ∙ le_number-bit bs j h.1
    ∙ ap₂ (λ (i k : ℕ). get_or (b ∷ bs) i 0 / 2 ^ k % 2) (sym quotient) (sym remainder)
  where
    eight : suc (suc (suc (suc (suc (suc (suc (suc j))))))) ≡ 8 + j
    eight = omega arith

    quotient : suc (suc (suc (suc (suc (suc (suc (suc j))))))) / 8 ≡ suc (j / 8)
    quotient = omega arith

    remainder : suc (suc (suc (suc (suc (suc (suc (suc j))))))) % 8 ≡ j % 8
    remainder = omega arith

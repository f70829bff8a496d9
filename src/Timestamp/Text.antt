-- ===== src/Timestamp/Text.antt =====
-- What the text of a time point tells of it.
use text.Mathlib.TextLemmas.{append_inj, append_cancel_left, length-append}
use Prim.Native.String.{count}
use sdv_edge_gateway.Common.{
  ℕ, zero, suc, ◌+◌, ◌*◌, ◌↔◌, ap₂, ◌/◌, ◌%◌, ◌<◌, ◌≡◌, refl, sym, ap, ◌∙◌, String, ◌<>◌, str_eq,
  [], ◌∷◌, get_or, if◌then◌else◌, arith,
}
use sdv_edge_gateway.Timestamp.{Tm, gmtime, digit, padded, iso8601_utc, ns_per_ms, ns_per_s}
use sdv_edge_gateway.Timestamp.Calendar.{IsCivil, seconds_of, gmtime-IsCivil}

-- What a digit stands for.
abbrev digit_value : String → ℕ
digit_value t =
    if str_eq t "0"
    then 0
    else if str_eq t "1"
    then 1
    else if str_eq t "2"
    then 2
    else if str_eq t "3"
    then 3
    else if str_eq t "4"
    then 4
    else if str_eq t "5"
    then 5
    else if str_eq t "6"
    then 6
    else if str_eq t "7"
    then 7
    else if str_eq t "8"
    then 8
    else 9

-- What holds of each number below ten.
below_ten :
    (P : ℕ → Type 0)
    → P 0
    → P 1
    → P 2
    → P 3
    → P 4
    → P 5
    → P 6
    → P 7
    → P 8
    → P 9
    → (n : ℕ) → n < 10
    → P n
below_ten P p₀ p₁ p₂ p₃ p₄ p₅ p₆ p₇ p₈ p₉ zero h = p₀
below_ten P p₀ p₁ p₂ p₃ p₄ p₅ p₆ p₇ p₈ p₉ (suc zero) h = p₁
below_ten P p₀ p₁ p₂ p₃ p₄ p₅ p₆ p₇ p₈ p₉ (suc (suc zero)) h = p₂
below_ten P p₀ p₁ p₂ p₃ p₄ p₅ p₆ p₇ p₈ p₉ (suc (suc (suc zero))) h = p₃
below_ten P p₀ p₁ p₂ p₃ p₄ p₅ p₆ p₇ p₈ p₉ (suc (suc (suc (suc zero)))) h = p₄
below_ten P p₀ p₁ p₂ p₃ p₄ p₅ p₆ p₇ p₈ p₉ (suc (suc (suc (suc (suc zero))))) h = p₅
below_ten P p₀ p₁ p₂ p₃ p₄ p₅ p₆ p₇ p₈ p₉ (suc (suc (suc (suc (suc (suc zero)))))) h = p₆
below_ten P p₀ p₁ p₂ p₃ p₄ p₅ p₆ p₇ p₈ p₉ (suc (suc (suc (suc (suc (suc (suc zero))))))) h = p₇
below_ten P p₀ p₁ p₂ p₃ p₄ p₅ p₆ p₇ p₈ p₉ (suc (suc (suc (suc (suc (suc (suc (suc zero)))))))) h =
    p₈
below_ten P p₀ p₁ p₂ p₃ p₄ p₅ p₆ p₇ p₈ p₉ (suc (suc (suc (suc (suc (suc (suc (suc (suc zero)))))))))
      h =
    p₉
below_ten P p₀ p₁ p₂ p₃ p₄ p₅ p₆ p₇ p₈ p₉
      (suc (suc (suc (suc (suc (suc (suc (suc (suc (suc n)))))))))) h =
    absurd (omega (arith, h))

abbrev numeral : ℕ → String
numeral k = get_or ("0" ∷ "1" ∷ "2" ∷ "3" ∷ "4" ∷ "5" ∷ "6" ∷ "7" ∷ "8" ∷ "9" ∷ []) k ""

digit_value-numeral : (k : ℕ) → k < 10 → digit_value (numeral k) ≡ k
digit_value-numeral =
    below_ten (λ k. digit_value (numeral k) ≡ k) refl refl refl refl refl refl refl refl refl refl

count-numeral : (k : ℕ) → k < 10 → count (numeral k) ≡ 1
count-numeral =
    below_ten (λ k. count (numeral k) ≡ 1) refl refl refl refl refl refl refl refl refl refl

digit-injective : (n m : ℕ) → digit n ≡ digit m → n % 10 ≡ m % 10
digit-injective n m e =
    sym (digit_value-numeral (n % 10) (omega arith))
    ∙ ap digit_value e
    ∙ digit_value-numeral (m % 10) (omega arith)

count-padded : (w n : ℕ) → count (padded w n) ≡ w
unfolding padded
count-padded zero n = refl
count-padded (suc w) n =
    length-append (padded w (n / 10)) (digit n)
    ∙ omega (arith, count-padded w (n / 10), count-numeral (n % 10) (omega arith))

-- The numbers of `w` digits.
abbrev limit : ℕ → ℕ
limit zero = 1
limit (suc w) = 10 * limit w

padded-injective : (w n m : ℕ) → n < limit w → m < limit w → padded w n ≡ padded w m → n ≡ m
unfolding padded
padded-injective zero n m h k e = omega (arith, h, k)
padded-injective (suc w) n m h k e =
    let same_length = count-padded w (n / 10) ∙ sym (count-padded w (m / 10)) in
    let (front, last) = append_inj e same_length in
    let rest = padded-injective w (n / 10) (m / 10) (omega (arith, h)) (omega (arith, k)) front in
    omega (arith, rest, digit-injective n m last)

-- The first field of two texts that are the same, and what comes behind it.
field :
    (w n m : ℕ) (s t : String)
    → n < limit w
    → m < limit w
    → padded w n <> s ≡ padded w m <> t
    → (n ≡ m) × (s ≡ t)
field w n m s t h k e =
    let (front, rest) = append_inj e (count-padded w n ∙ sym (count-padded w m)) in
    (padded-injective w n m h k front, rest)

same_fields :
    (a b : Tm) (i j : ℕ)
    → IsCivil a
    → IsCivil b
    → a.year < 10000
    → b.year < 10000
    → i < 1000
    → j < 1000
    → padded 4 a.year
        <> "-"
        <> padded 2 a.month
        <> "-"
        <> padded 2 a.day
        <> "T"
        <> padded 2 a.hour
        <> ":"
        <> padded 2 a.minute
        <> ":"
        <> padded 2 a.second
        <> "."
        <> padded 3 i
        <> "Z"
      ≡ padded 4 b.year
        <> "-"
        <> padded 2 b.month
        <> "-"
        <> padded 2 b.day
        <> "T"
        <> padded 2 b.hour
        <> ":"
        <> padded 2 b.minute
        <> ":"
        <> padded 2 b.second
        <> "."
        <> padded 3 j
        <> "Z"
    → (a ≡ b) × (i ≡ j)
same_fields a b i j ca cb ya yb hi hj e =
    let (year, e₁) = field 4 a.year b.year _ _ ya yb e in
    let (month, e₂) =
      field 2 a.month b.month _ _ (omega (arith, ca.month)) (omega (arith, cb.month))
        (append_cancel_left "-" _ _ e₁) in
    let (day, e₃) =
      field 2 a.day b.day _ _ (omega (arith, ca.day)) (omega (arith, cb.day))
        (append_cancel_left "-" _ _ e₂) in
    let (hour, e₄) =
      field 2 a.hour b.hour _ _ (omega (arith, ca.hour)) (omega (arith, cb.hour))
        (append_cancel_left "T" _ _ e₃) in
    let (minute, e₅) =
      field 2 a.minute b.minute _ _ (omega (arith, ca.minute)) (omega (arith, cb.minute))
        (append_cancel_left ":" _ _ e₄) in
    let (second, e₆) =
      field 2 a.second b.second _ _ (omega (arith, ca.second)) (omega (arith, cb.second))
        (append_cancel_left ":" _ _ e₅) in
    let (ms, e₇) = field 3 i j _ _ hi hj (append_cancel_left "." _ _ e₆) in
    (
      λ k. record {
        year = year k;
        month = month k;
        day = day k;
        hour = hour k;
        minute = minute k;
        second = second k;
      },
      ms,
    )

-- The form of the text.
abbrev pub text_of : Tm → ℕ → String
text_of tm ms =
    padded 4 tm.year
    <> "-"
    <> padded 2 tm.month
    <> "-"
    <> padded 2 tm.day
    <> "T"
    <> padded 2 tm.hour
    <> ":"
    <> padded 2 tm.minute
    <> ":"
    <> padded 2 tm.second
    <> "."
    <> padded 3 ms
    <> "Z"

-- The text of a time point is the one of civil fields and milliseconds that are in their ranges and
-- stand, in the Gregorian calendar, for exactly the millisecond of the time point.
pub iso8601_utc-IsCivil :
    (tp : ℕ)
    → (tm : Tm) × (ms : ℕ) × (iso8601_utc tp ≡ text_of tm ms)
      × IsCivil tm
      × (ms < 1000)
      × (seconds_of tm * 1000 + ms ≡ tp / ns_per_ms)
unfolding iso8601_utc
iso8601_utc-IsCivil tp =
    let (civil, back) = gmtime-IsCivil (tp / ns_per_s) in
    (gmtime (tp / ns_per_s), tp / ns_per_ms % 1000, refl, civil, omega arith, omega (arith, back))

-- Before the year 10000, two time points have the same text exactly if they are in the same
-- millisecond.
pub iso8601_utc_iff :
    (a b : ℕ)
    → (gmtime (a / ns_per_s)).year < 10000
    → (gmtime (b / ns_per_s)).year < 10000
    → (iso8601_utc a ≡ iso8601_utc b) ↔ (a / ns_per_ms ≡ b / ns_per_ms)
unfolding iso8601_utc
iso8601_utc_iff a b ya yb = (
  λ e.
      let (civil_a, back_a) = gmtime-IsCivil (a / ns_per_s) in
      let (civil_b, back_b) = gmtime-IsCivil (b / ns_per_s) in
      let (tm, ms) =
        same_fields (gmtime (a / ns_per_s)) (gmtime (b / ns_per_s)) (a / ns_per_ms % 1000)
          (b / ns_per_ms % 1000) civil_a civil_b ya yb (omega arith) (omega arith) e in
      let seconds : a / ns_per_s ≡ b / ns_per_s = sym back_a ∙ ap seconds_of tm ∙ back_b in
      omega (arith, seconds, ms),
  λ e. ap₂ (λ s ms. text_of (gmtime s) ms) (omega (arith, e)) (ap (λ n. n % 1000) e),
)

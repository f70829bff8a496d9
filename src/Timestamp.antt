-- ===== src/Timestamp.antt =====
-- include/common/timestamp.hpp: iso8601_utc. A time point is its nanoseconds since 1970, the unit of
-- libstdc++'s system_clock, none before it. gmtime_r is the C library's: the proleptic Gregorian
-- calendar in UTC.
pub mod Calendar
pub mod Text
use sdv_edge_gateway.Common.{
  ℕ, zero, suc, ◌+◌, ◌-◌, ◌*◌, ◌/◌, ◌%◌, String, ◌<>◌, [], ◌∷◌, get_or, ltb, leb, if◌then◌else◌,
}

-- The fields of `std::tm`, the year and the month counted as they are printed.
pub record Tm : Type 0 where
  pub year : ℕ
  pub month : ℕ
  pub day : ℕ
  pub hour : ℕ
  pub minute : ℕ
  pub second : ℕ

-- Days in years that begin in March: eras of 400 years, whose last day is the last leap day.
unfoldable pub gmtime : ℕ → Tm
gmtime t =
    let shifted = t / 86400 + 719468 in
    let day_of_era = shifted % 146097 in
    let year_of_era =
      (day_of_era + day_of_era / 36524 - day_of_era / 1460 - day_of_era / 146096) / 365 in
    let day_of_year = day_of_era + year_of_era / 100 - (365 * year_of_era + year_of_era / 4) in
    let march = (5 * day_of_year + 2) / 153 in
    let month = if ltb march 10 then march + 3 else march - 9 in
    let year = year_of_era + 400 * (shifted / 146097) in
    record {
      year = if leb month 2 then year + 1 else year;
      month = month;
      day = day_of_year - (153 * march + 2) / 5 + 1;
      hour = t % 86400 / 3600;
      minute = t % 3600 / 60;
      second = t % 60;
    }

-- The unit of a time point, for duration_cast<milliseconds> and for to_time_t.
abbrev pub ns_per_ms : ℕ
ns_per_ms = 1000000

abbrev pub ns_per_s : ℕ
ns_per_s = 1000000000

abbrev pub digit : ℕ → String
digit n = get_or ("0" ∷ "1" ∷ "2" ∷ "3" ∷ "4" ∷ "5" ∷ "6" ∷ "7" ∷ "8" ∷ "9" ∷ []) (n % 10) ""

-- `%0wd` for a number of at most `w` digits: the last `w` digits.
unfoldable pub padded : ℕ → ℕ → String
padded zero n = ""
padded (suc w) n = padded w (n / 10) <> digit n

unfoldable pub iso8601_utc : ℕ → String
unfolding gmtime padded
iso8601_utc tp =
    let tm = gmtime (tp / ns_per_s) in
    padded 4 tm.year
    <> "-"
    <> padded 2 tm.month
    <> "-"
    <> padded 2 tm.day
    <> "T"
    <> padded 2 tm.hour
    <> ":"
    <> padded 2 tm.minute
    <> ":"
    <> padded 2 tm.second
    <> "."
    <> padded 3 (tp / ns_per_ms % 1000)
    <> "Z"
